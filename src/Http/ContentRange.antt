-- ===== src/Http/ContentRange.antt =====
-- parseContentRange of core/http/source.go, with strings.TrimSpace, strconv.ParseInt in base 10, and the
-- decimal numbers that fmt prints.
use blob.Prelude.{
  ℕ, zero, suc, ◌+◌, ◌-◌, ◌*◌, ◌/◌, ◌%◌, Bool, true, false, ◌&&◌, Option, none, some, List, [], ◌∷◌,
  ltb, leb, ◌==◌, if◌then◌else◌, length, drop, max_int64, two63, Error, external, Result, ok, err,
}
use blob.Prelude.Bytes.{Bytes, equal, has_prefix}

abbrev pub is_digit : ℕ → Bool
is_digit b = leb b'0' b && leb b b'9'

-- The digits of `n`, before those in `tail`; the fuel is as much as `n`.
unfoldable pub digits : (fuel : ℕ) → ℕ → Bytes → Bytes
digits zero n tail = tail
digits (suc fuel) n tail =
    let more = digits fuel (n / 10) ((b'0' + n % 10) ∷ tail) in
    if ltb n 10 then (b'0' + n) ∷ tail else more

-- %d of a number that is not negative
unfoldable pub decimal : ℕ → Bytes
unfolding digits
decimal n = digits (suc n) n []

-- The number behind `n` that digits go on to write.
unfoldable pub number : ℕ → Bytes → Option ℕ
number n [] = some n
number n (b ∷ bs) = if is_digit b then number (n * 10 + (b - b'0')) bs else none

-- strconv.ParseInt in base 10 with 64 bits, of a text without a sign
abbrev pub parse_digits : ℕ → Bytes → Option ℕ
parse_digits limit [] = none
parse_digits limit (b ∷ bs) = elim (number 0 (b ∷ bs)) [
  | none ↦ none
  | some n ↦ if leb n limit then some n else none
]

-- ParseInt, where a negative number is told apart from one that is not: only -0 is none of them.
unfoldable pub parse_int : Bytes → Option (Bool × ℕ)
unfolding number
parse_int [] = none
parse_int (b ∷ bs) =
    if b == b'-'
    then (elim (parse_digits two63 bs) [ none ↦ none | some n ↦ some (ltb 0 n, n) ])
    else (elim (parse_digits max_int64 (if b == b'+' then bs else b ∷ bs)) [
      | none ↦ none
      | some n ↦ some (false, n)
    ])

-- The UTF-8 forms of the runes that unicode.IsSpace holds of.
abbrev pub spaces : List Bytes
spaces =
    (9 ∷ [])
    ∷ (10 ∷ [])
    ∷ (11 ∷ [])
    ∷ (12 ∷ [])
    ∷ (13 ∷ [])
    ∷ (32 ∷ [])
    ∷ (194 ∷ 133 ∷ [])
    ∷ (194 ∷ 160 ∷ [])
    ∷ (225 ∷ 154 ∷ 128 ∷ [])
    ∷ (226 ∷ 128 ∷ 128 ∷ [])
    ∷ (226 ∷ 128 ∷ 129 ∷ [])
    ∷ (226 ∷ 128 ∷ 130 ∷ [])
    ∷ (226 ∷ 128 ∷ 131 ∷ [])
    ∷ (226 ∷ 128 ∷ 132 ∷ [])
    ∷ (226 ∷ 128 ∷ 133 ∷ [])
    ∷ (226 ∷ 128 ∷ 134 ∷ [])
    ∷ (226 ∷ 128 ∷ 135 ∷ [])
    ∷ (226 ∷ 128 ∷ 136 ∷ [])
    ∷ (226 ∷ 128 ∷ 137 ∷ [])
    ∷ (226 ∷ 128 ∷ 138 ∷ [])
    ∷ (226 ∷ 128 ∷ 168 ∷ [])
    ∷ (226 ∷ 128 ∷ 169 ∷ [])
    ∷ (226 ∷ 128 ∷ 175 ∷ [])
    ∷ (226 ∷ 129 ∷ 159 ∷ [])
    ∷ (227 ∷ 128 ∷ 128 ∷ [])
    ∷ []

unfoldable pub reverse : Bytes → Bytes → Bytes
reverse [] done = done
reverse (b ∷ bs) done = reverse bs (b ∷ done)

unfoldable pub reverse_all : List Bytes → List Bytes
unfolding reverse
reverse_all [] = []
reverse_all (x ∷ xs) = reverse x [] ∷ reverse_all xs

-- The length of the space at the front; 0 where there is none.
unfoldable pub space_length : List Bytes → Bytes → ℕ
space_length [] xs = 0
space_length (w ∷ ws) xs = if has_prefix xs w then length w else space_length ws xs

abbrev pub trim_step : Bytes → ℕ → (Bytes → Bytes) → Bytes
trim_step xs zero next = xs
trim_step xs (suc n) next = next (drop (suc n) xs)

unfoldable pub trim_left : (fuel : ℕ) → List Bytes → Bytes → Bytes
unfolding space_length
trim_left zero ws xs = xs
trim_left (suc fuel) ws xs = trim_step xs (space_length ws xs) (trim_left fuel ws)

-- strings.TrimSpace
unfoldable pub trim_space : Bytes → Bytes
unfolding trim_left reverse reverse_all
trim_space xs =
    let left = trim_left (length xs) spaces xs in
    reverse (trim_left (length left) (reverse_all spaces) (reverse left [])) []

-- strings.SplitN(s, "/", 2): what is behind the first slash.
unfoldable pub behind_slash : Bytes → Option Bytes
behind_slash [] = none
behind_slash (b ∷ bs) = if b == b'/' then some bs else behind_slash bs

-- "bytes "
abbrev pub unit_prefix : Bytes
unit_prefix = b'b' ∷ b'y' ∷ b't' ∷ b'e' ∷ b's' ∷ b' ' ∷ []

abbrev pub invalid_range : Error
invalid_range = external 32

abbrev pub size_in : Option (Bool × ℕ) → Result ℕ
size_in none = err invalid_range
size_in (some (true, n)) = err invalid_range
size_in (some (false, n)) = ok n

abbrev pub size_part : Option Bytes → Result ℕ
size_part none = err invalid_range
size_part (some rest) =
    if equal rest (b'*' ∷ []) then err invalid_range else size_in (parse_int rest)

abbrev pub parse_trimmed : Bytes → Result ℕ
parse_trimmed value =
    if has_prefix value unit_prefix
    then size_part (behind_slash (drop (length unit_prefix) value))
    else err invalid_range

unfoldable pub parse_content_range : Bytes → Result ℕ
unfolding trim_space behind_slash parse_int
parse_content_range value = parse_trimmed (trim_space value)
