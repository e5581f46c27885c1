-- ===== src/Http/Sizes.antt =====
-- The size that core/http/source.go reads from a Content-Range header, against the number printed there.
use mathlib.Core.List.{append-nil}
use blob.Prelude.{
  ℕ, zero, suc, ◌+◌, ◌/◌, ◌%◌, ◌≤◌, ◌<◌, ◌≡◌, refl, ap, ◌∙◌, Bool, true, false, ◌&&◌, ◌||◌, some,
  List, [], ◌∷◌, ◌++◌, arith, ltb, leb, ◌==◌, length, max_int64, ok, All, Bool-cases, inl, inr,
}
use blob.Prelude.Bytes.{Bytes, equal, has_prefix}
use blob.Http.ContentRange.{
  is_digit, digits, decimal, number, parse_int, spaces, reverse, reverse_all, space_length,
  trim_left, trim_space, behind_slash, unit_prefix, size_part, parse_content_range,
}

abbrev IsDigit : ℕ → Type 0
IsDigit b = is_digit b ≡ true

-- The digits of a number, read behind another number.
number-digits :
    (fuel n : ℕ) (tail : Bytes) → n < fuel → number 0 (digits fuel n tail) ≡ number n tail
unfolding digits number
number-digits zero n tail h = absurd (omega arith)
number-digits (suc fuel) n tail h = elim (Bool-cases (ltb n 10)) [
  | inl e ↦ rw (e, digits) (rw (digit n (ground arith)) (ap (λ k. number k tail) (omega arith)))
  | inr e ↦
      rw (e, digits)
        (number-digits fuel (n / 10) ((b'0' + n % 10) ∷ tail) (less (ground arith))
          ∙ rw (digit (n % 10) (omega arith)) (ap (λ k. number k tail) (omega arith)))
]
  where
    digit : (d : ℕ) → d < 10 → is_digit (b'0' + d) ≡ true
    digit d h = ground arith

    less : 10 ≤ n → n / 10 < fuel
    less g = omega arith

All-digits : (fuel n : ℕ) (tail : Bytes) → All IsDigit tail → All IsDigit (digits fuel n tail)
unfolding digits
All-digits zero n tail a = a
All-digits (suc fuel) n tail a = elim (Bool-cases (ltb n 10)) [
  | inl e ↦ rw (e, digits) (digit n (ground arith), a)
  | inr e ↦
      rw (e, digits)
        (All-digits fuel (n / 10) ((b'0' + n % 10) ∷ tail) (digit (n % 10) (omega arith), a))
]
  where
    digit : (d : ℕ) → d < 10 → is_digit (b'0' + d) ≡ true
    digit d h = ground arith

length-digits : (fuel n : ℕ) (tail : Bytes) → length tail ≤ length (digits fuel n tail)
unfolding digits
length-digits zero n tail = omega arith
length-digits (suc fuel) n tail = elim (Bool-cases (ltb n 10)) [
  | inl e ↦ rw (e, digits) (omega arith)
  | inr e ↦ rw (e, digits) (omega (arith, length-digits fuel (n / 10) ((b'0' + n % 10) ∷ tail)))
]

decimal-shape : (n : ℕ) → (All IsDigit (decimal n)) × (0 < length (decimal n))
unfolding decimal digits
decimal-shape n = (
  All-digits (suc n) n [] tt,
  elim (Bool-cases (ltb n 10)) [
    | inl e ↦ rw (e, digits) (omega arith)
    | inr e ↦ rw (e, digits) (omega (arith, length-digits n (n / 10) ((b'0' + n % 10) ∷ [])))
  ],
)

number-decimal : (n : ℕ) → number 0 (decimal n) ≡ some n
unfolding decimal number
number-decimal n = number-digits (suc n) n [] (omega arith)

-- A text of digits that write a number.
parse_int-digits :
    (n : ℕ) (ds : Bytes)
    → All IsDigit ds
    → 0 < length ds
    → number 0 ds ≡ some n
    → n ≤ max_int64
    → parse_int ds ≡ some (false, n)
unfolding parse_int
parse_int-digits n [] a some_left h fits = absurd (omega arith)
parse_int-digits n (b ∷ bs) a some_left h fits =
    let no_minus : (b == b'-') ≡ false = ground (arith, a.0) in
    let no_plus : (b == b'+') ≡ false = ground (arith, a.0) in
    let low : leb n max_int64 ≡ true = ground arith in rw no_minus (rw no_plus (rw h (rw low)))

size_part-digits :
    (n : ℕ) (ds : Bytes)
    → All IsDigit ds
    → 0 < length ds
    → number 0 ds ≡ some n
    → n ≤ max_int64
    → size_part (some ds) ≡ ok n
unfolding equal
size_part-digits n [] a some_left h fits = absurd (omega arith)
size_part-digits n (b ∷ bs) a some_left h fits =
    let no_star : (b == b'*') ≡ false = ground (arith, a.0) in
    rw (no_star, parse_int-digits n (b ∷ bs) a some_left h fits)

-- Reversal
reverse-append : (xs ys done : Bytes) → reverse (xs ++ ys) done ≡ reverse ys (reverse xs done)
unfolding reverse
reverse-append [] ys done = refl
reverse-append (x ∷ xs) ys done = reverse-append xs ys (x ∷ done)

reverse-reverse : (xs acc done : Bytes) → reverse (reverse xs acc) done ≡ reverse acc (xs ++ done)
unfolding reverse
reverse-reverse [] acc done = refl
reverse-reverse (x ∷ xs) acc done = reverse-reverse xs (x ∷ acc) done

abbrev Starts : Bytes → Type 0
Starts xs = (d : ℕ) × (rest : Bytes) × (xs ≡ d ∷ rest) × IsDigit d

reverse-Starts :
    (ds acc : Bytes) (a : ℕ) → All IsDigit ds → IsDigit a → Starts (reverse ds (a ∷ acc))
unfolding reverse
reverse-Starts [] acc a all digit = (a, acc, refl, digit)
reverse-Starts (d ∷ ds) acc a all digit = reverse-Starts ds (a ∷ acc) d all.1 all.0

reverse_digits : (ds acc : Bytes) → All IsDigit ds → 0 < length ds → Starts (reverse ds acc)
unfolding reverse
reverse_digits [] acc a h = absurd (omega arith)
reverse_digits (d ∷ ds) acc a h = reverse-Starts ds acc d a.1 a.0

-- No space starts with a digit, also read from its end.
abbrev outside : Bytes → Bool
outside [] = false
outside (b ∷ bs) = ltb b b'0' || ltb b'9' b

abbrev all_outside : List Bytes → Bool
all_outside [] = true
all_outside (w ∷ ws) = outside w && all_outside ws

space_length-digit :
    (ws : List Bytes) (d : ℕ) (rest : Bytes)
    → all_outside ws ≡ true
    → IsDigit d
    → space_length ws (d ∷ rest) ≡ 0
unfolding space_length has_prefix
space_length-digit [] d rest h a = refl
space_length-digit ([] ∷ ws) d rest h a = cc
space_length-digit ((b ∷ bs) ∷ ws) d rest h a =
    let apart : (d == b) ≡ false = ground arith in
    let below : all_outside ws ≡ true = ground arith in
    rw (apart, space_length) (space_length-digit ws d rest below a)

trim_left-none :
    (fuel : ℕ) (ws : List Bytes) (xs : Bytes) → space_length ws xs ≡ 0 → trim_left fuel ws xs ≡ xs
unfolding trim_left
trim_left-none zero ws xs h = refl
trim_left-none (suc fuel) ws xs h = rw h

behind_slash-append :
    (part ds : Bytes)
    → All (λ b. (b == b'/') ≡ false) part
    → behind_slash (part ++ (b'/' ∷ ds)) ≡ some ds
unfolding behind_slash
behind_slash-append [] ds a = refl
behind_slash-append (b ∷ part) ds a = rw a.0 (behind_slash-append part ds a.1)

-- What the server sends: `bytes `, a part without a slash, a slash, and the size.
abbrev pub range_text : Bytes → ℕ → Bytes
range_text part n = unit_prefix ++ (part ++ (b'/' ∷ decimal n))

reverse_range-Starts : (part : Bytes) (n : ℕ) → Starts (reverse (range_text part n) [])
unfolding reverse
reverse_range-Starts part n = rw (reverse-append unit_prefix (part ++ (b'/' ∷ decimal n)) []) (
    rw (reverse-append part (b'/' ∷ decimal n) (reverse unit_prefix [])) (
      reverse_digits (decimal n) (b'/' ∷ reverse part (reverse unit_prefix [])) (decimal-shape n).0
        (decimal-shape n).1))

trim_space-range : (part : Bytes) (n : ℕ) → trim_space (range_text part n) ≡ range_text part n
unfolding trim_space space_length has_prefix reverse_all reverse
trim_space-range part n =
    ap trim_right (trim_left-none (length text) spaces text refl)
    ∙ ap (λ xs. reverse xs [])
        (trim_left-none (length text) (reverse_all spaces) (reverse text []) no_space)
    ∙ reverse-reverse text [] []
    ∙ append-nil text
  where
    text : Bytes
    text = range_text part n

    trim_right : Bytes → Bytes
    trim_right left = reverse (trim_left (length left) (reverse_all spaces) (reverse left [])) []

    no_space : space_length (reverse_all spaces) (reverse text []) ≡ 0
    no_space =
        let (d, rest, e, digit) = reverse_range-Starts part n in
        ap (space_length (reverse_all spaces)) e
        ∙ space_length-digit (reverse_all spaces) d rest refl digit

-- The size of a Content-Range header is the number that it writes, whatever range stands before it.
pub parse_content_range-decimal :
    (part : Bytes) (n : ℕ)
    → All (λ b. (b == b'/') ≡ false) part
    → n ≤ max_int64
    → parse_content_range (range_text part n) ≡ ok n
unfolding parse_content_range has_prefix
parse_content_range-decimal part n a fits = rw (trim_space-range part n) (
    rw (behind_slash-append part (decimal n) a) (
      size_part-digits n (decimal n) (decimal-shape n).0 (decimal-shape n).1 (number-decimal n)
        fits))
