-- ===== src/FilePath/Split.antt =====
-- Laws of splitting, joining and trimming.
use blob.Prelude.{
  ℕ, zero, suc, ◌≡◌, refl, sym, ap, ◌∙◌, Bool, true, false, inl, inr, List, [], ◌∷◌, ◌++◌, arith,
  ◌==◌, if◌then◌else◌, Bool-cases, All,
}
use blob.Prelude.Bytes.{Bytes}
use blob.FilePath.{trim_left, trim_right, cons_head, split, join, non_empty}

-- No byte of the segment is the separator.
unfoldable pub contains : ℕ → Bytes → Bool
contains c [] = false
contains c (x ∷ xs) = let rest = contains c xs in if x == c then true else rest

abbrev pub IsSegment : ℕ → Bytes → Type 0
IsSegment c s = contains c s ≡ false

-- `k` empty segments.
abbrev empties : ℕ → List Bytes
empties zero = []
empties (suc k) = [] ∷ empties k

-- A split has a first segment.
pub split-cons : (c : ℕ) (xs : Bytes) → (s : Bytes) × (ss : List Bytes) × (split c xs ≡ s ∷ ss)
unfolding split
split-cons c [] = ([], [], refl)
split-cons c (x ∷ xs) =
    let (s, ss, e) = split-cons c xs in
    elim (Bool-cases (x == c)) [ inl p ↦ ([], split c xs, rw p) | inr p ↦ (x ∷ s, ss, rw (p, e)) ]

split-segment : (c : ℕ) (s : Bytes) → IsSegment c s → split c s ≡ s ∷ []
unfolding split contains
split-segment c [] h = refl
split-segment c (x ∷ xs) h = ground (arith, split-segment c xs)

split-append : (c : ℕ) (s r : Bytes) → IsSegment c s → split c (s ++ (c ∷ r)) ≡ s ∷ split c r
unfolding split contains
split-append c [] r h = ground arith
split-append c (x ∷ xs) r h = ground (arith, split-append c xs r)

-- Splitting takes a join of segments apart.
pub split-join :
    (c : ℕ) (s : Bytes) (ss : List Bytes)
    → IsSegment c s
    → All (IsSegment c) ss
    → split c (join c (s ∷ ss)) ≡ s ∷ ss
unfolding join
split-join c s [] h hs = split-segment c s h
split-join c s (t ∷ ts) h hs =
    split-append c s (join c (t ∷ ts)) h ∙ ap (◌∷◌ s) (split-join c t ts hs.0 hs.1)

cons_head-segments :
    (c x : ℕ) (ss : List Bytes)
    → (x == c) ≡ false
    → All (IsSegment c) ss
    → All (IsSegment c) (cons_head x ss)
unfolding contains
cons_head-segments c x [] e h = (rw e, tt)
cons_head-segments c x (s ∷ ss) e h = (rw e h.0, h.1)

-- The parts of a split are segments.
pub split-segments : (c : ℕ) (xs : Bytes) → All (IsSegment c) (split c xs)
unfolding split contains
split-segments c [] = (refl, tt)
split-segments c (x ∷ xs) = elim (Bool-cases (x == c)) [
  | inl p ↦ rw (p, split) (refl, split-segments c xs)
  | inr p ↦ rw (p, split) (cons_head-segments c x (split c xs) p (split-segments c xs))
]

pub non_empty-segments :
    (c : ℕ) (ss : List Bytes) → All (IsSegment c) ss → All (IsSegment c) (non_empty ss)
unfolding non_empty
non_empty-segments c [] h = tt
non_empty-segments c ([] ∷ ss) h = non_empty-segments c ss h.1
non_empty-segments c ((b ∷ bs) ∷ ss) h = (h.0, non_empty-segments c ss h.1)

pub non_empty-non_empty : (ss : List Bytes) → non_empty (non_empty ss) ≡ non_empty ss
unfolding non_empty
non_empty-non_empty [] = refl
non_empty-non_empty ([] ∷ ss) = non_empty-non_empty ss
non_empty-non_empty ((b ∷ bs) ∷ ss) = ap (◌∷◌ (b ∷ bs)) (non_empty-non_empty ss)

trim_left_other : (c x : ℕ) (xs : Bytes) → (x == c) ≡ false → trim_left c (x ∷ xs) ≡ x ∷ xs
unfolding trim_left
trim_left_other c x xs p = rw p

pub non_empty-trim_left :
    (c : ℕ) (xs : Bytes) → non_empty (split c (trim_left c xs)) ≡ non_empty (split c xs)
unfolding non_empty split trim_left
non_empty-trim_left c [] = refl
non_empty-trim_left c (x ∷ xs) = elim (Bool-cases (x == c)) [
  | inl p ↦ rw (p, trim_left, split) (non_empty-trim_left c xs)
  | inr p ↦ ap (λ t. non_empty (split c t)) (trim_left_other c x xs p)
]

split-trim_right_step :
    (c x : ℕ) (xs t : Bytes) (k : ℕ)
    → trim_right c xs ≡ t
    → split c xs ≡ split c t ++ empties k
    → (n : ℕ) × (split c (x ∷ xs) ≡ split c (trim_right c (x ∷ xs)) ++ empties n)
unfolding split trim_right
split-trim_right_step c x xs [] k e h = elim (Bool-cases (x == c)) [
  | inl p ↦ (suc k, ground arith)
  | inr p ↦ (k, ground arith)
]
split-trim_right_step c x xs (y ∷ ys) k e h = elim (Bool-cases (x == c)) [
  | inl p ↦ (k, rw (e, p, split, trim_right) (ap (◌∷◌ []) h))
  | inr p ↦ let (s, ss, q) = split-cons c (y ∷ ys) in (k, rw (e, p, split, trim_right) (rw (h, q)))
]

-- Trimming on the right drops empty segments at the end.
split-trim_right :
    (c : ℕ) (xs : Bytes) → (k : ℕ) × (split c xs ≡ split c (trim_right c xs) ++ empties k)
unfolding split trim_right
split-trim_right c [] = (0, refl)
split-trim_right c (x ∷ xs) =
    let (k, h) = split-trim_right c xs in split-trim_right_step c x xs (trim_right c xs) k refl h

empties-append : (ss : List Bytes) (k : ℕ) → non_empty (ss ++ empties k) ≡ non_empty ss
unfolding non_empty
empties-append [] zero = refl
empties-append [] (suc k) = empties-append [] k
empties-append ([] ∷ ss) k = empties-append ss k
empties-append ((b ∷ bs) ∷ ss) k = ap (◌∷◌ (b ∷ bs)) (empties-append ss k)

pub non_empty-trim_right :
    (c : ℕ) (xs : Bytes) → non_empty (split c (trim_right c xs)) ≡ non_empty (split c xs)
non_empty-trim_right c xs =
    let (k, e) = split-trim_right c xs in
    sym (ap non_empty e ∙ empties-append (split c (trim_right c xs)) k)
