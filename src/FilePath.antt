-- ===== src/FilePath.antt =====
-- core/internal/file/path.go and core/path.go: slash-separated paths as byte strings, with the
-- functions of strings, io/fs and unicode/utf8 that they call.
pub mod Split
pub mod Normalize
pub mod Child
use blob.Prelude.{
  ℕ, zero, suc, ◌+◌, Bool, true, false, not, ◌&&◌, ◌||◌, Option, none, some, List, [], ◌∷◌, ◌++◌,
  ltb, leb, ◌==◌, if◌then◌else◌, length, take, drop,
}
use blob.Prelude.Bytes.{Bytes, equal, has_prefix}

abbrev pub slash : ℕ
slash = b'/'

abbrev pub dot_path : Bytes
dot_path = b'.' ∷ []

abbrev pub dot_dot_path : Bytes
dot_dot_path = b'.' ∷ b'.' ∷ []

-- strings.Index and strings.LastIndex of one byte
unfoldable pub index_byte : ℕ → Bytes → Option ℕ
index_byte c [] = none
index_byte c (x ∷ xs) =
    let rest = index_byte c xs in
    if x == c then some 0 else (elim rest [ none ↦ none | some i ↦ some (i + 1) ])

unfoldable pub last_index_byte : ℕ → Bytes → Option ℕ
last_index_byte c [] = none
last_index_byte c (x ∷ xs) = elim (last_index_byte c xs) [
  | some i ↦ some (i + 1)
  | none ↦ if x == c then some 0 else none
]

-- strings.TrimSuffix by one byte, and strings.TrimPrefix
unfoldable pub trim_suffix_byte : ℕ → Bytes → Bytes
trim_suffix_byte c [] = []
trim_suffix_byte c (x ∷ []) = if x == c then [] else x ∷ []
trim_suffix_byte c (x ∷ y ∷ ys) = x ∷ trim_suffix_byte c (y ∷ ys)

unfoldable pub trim_prefix : Bytes → Bytes → Bytes
trim_prefix s prefix = if has_prefix s prefix then drop (length prefix) s else s

unfoldable pub base : Bytes → Bytes
base [] = dot_path
base (b ∷ bs) =
    if equal (b ∷ bs) dot_path
    then dot_path
    else let path = trim_suffix_byte slash (b ∷ bs) in
      (elim (last_index_byte slash path) [ none ↦ path | some i ↦ drop (i + 1) path ])

unfoldable pub dir_prefix : Bytes → Bytes
dir_prefix name = if equal name dot_path then [] else name ++ slash ∷ []

-- The child's name, and whether it is a directory.
unfoldable pub child : Bytes → Bytes → Bytes × Bool
child path prefix =
    let rel_path = trim_prefix path prefix in
    elim (index_byte slash rel_path) [ none ↦ (rel_path, false) | some i ↦ (take i rel_path, true) ]

-- strings.Trim of one byte
unfoldable pub trim_left : ℕ → Bytes → Bytes
trim_left c [] = []
trim_left c (x ∷ xs) = let rest = trim_left c xs in if x == c then rest else x ∷ xs

unfoldable pub trim_right : ℕ → Bytes → Bytes
trim_right c [] = []
trim_right c (x ∷ xs) = elim (trim_right c xs) [
  | [] ↦ if x == c then [] else x ∷ []
  | y ∷ ys ↦ x ∷ y ∷ ys
]

-- strings.Split and strings.Join with a separator of one byte
abbrev pub cons_head : ℕ → List Bytes → List Bytes
cons_head x [] = (x ∷ []) ∷ []
cons_head x (s ∷ ss) = (x ∷ s) ∷ ss

unfoldable pub split : ℕ → Bytes → List Bytes
split c [] = [] ∷ []
split c (x ∷ xs) = let rest = split c xs in if x == c then [] ∷ rest else cons_head x rest

unfoldable pub join : ℕ → List Bytes → Bytes
join c [] = []
join c (s ∷ []) = s
join c (s ∷ t ∷ ts) = s ++ (c ∷ join c (t ∷ ts))

-- The loop of NormalizePath over the parts.
unfoldable pub non_empty : List Bytes → List Bytes
non_empty [] = []
non_empty ([] ∷ ss) = non_empty ss
non_empty ((b ∷ bs) ∷ ss) = (b ∷ bs) ∷ non_empty ss

unfoldable pub normalize_path : Bytes → Bytes
normalize_path p =
    let q = trim_right slash (trim_left slash p) in
    elim q [
      | [] ↦ dot_path
      | b ∷ bs ↦ elim (non_empty (split slash (b ∷ bs))) [
        | [] ↦ dot_path
        | s ∷ ss ↦ join slash (s ∷ ss)
      ]
    ]

-- utf8.ValidString: the ranges of the bytes that must follow a lead byte.
abbrev pub tail_range : ℕ × ℕ
tail_range = (0x80, 0xbf)

unfoldable pub lead : ℕ → Option (List (ℕ × ℕ))
lead b =
    if ltb b 0x80
    then some []
    else if ltb b 0xc2
    then none
    else if ltb b 0xe0
    then some (tail_range ∷ [])
    else if b == 0xe0
    then some ((0xa0, 0xbf) ∷ tail_range ∷ [])
    else if b == 0xed
    then some ((0x80, 0x9f) ∷ tail_range ∷ [])
    else if ltb b 0xf0
    then some (tail_range ∷ tail_range ∷ [])
    else if b == 0xf0
    then some ((0x90, 0xbf) ∷ tail_range ∷ tail_range ∷ [])
    else if ltb b 0xf4
    then some (tail_range ∷ tail_range ∷ tail_range ∷ [])
    else if b == 0xf4
    then some ((0x80, 0x8f) ∷ tail_range ∷ tail_range ∷ [])
    else none

unfoldable pub valid_from : List (ℕ × ℕ) → Bytes → Bool
valid_from [] [] = true
valid_from (r ∷ rs) [] = false
valid_from [] (b ∷ bs) = elim (lead b) [ none ↦ false | some rs ↦ valid_from rs bs ]
valid_from ((lo, hi) ∷ rs) (b ∷ bs) = (leb lo b && leb b hi) && valid_from rs bs

unfoldable pub valid_string : Bytes → Bool
valid_string = valid_from []

-- An element that fs.ValidPath accepts.
unfoldable pub valid_element : Bytes → Bool
valid_element [] = false
valid_element (b ∷ bs) = not (equal (b ∷ bs) dot_path || equal (b ∷ bs) dot_dot_path)

unfoldable pub valid_elements : List Bytes → Bool
valid_elements [] = true
valid_elements (s ∷ ss) = valid_element s && valid_elements ss

-- fs.ValidPath
unfoldable pub valid_path : Bytes → Bool
unfolding valid_elements valid_element
valid_path name = valid_string name && (equal name dot_path || valid_elements (split slash name))
