-- ===== src/Batch/Pipeline/Moves.antt =====
-- Where the groups are in the pipeline of core/internal/batch/batch.go.
use mathlib.Core.Path.{subst}
use blob.Prelude.{
  ℕ, suc, ◌≡◌, refl, ap, ◌⊎◌, inl, inr, List, [], ◌∷◌, ◌++◌, arith, length, ◌==◌, Bool-cases,
}
use blob.Batch.Pipeline.{Pick, here, there, Has}

pub Has-of_Pick : {i : ℕ} {xs rest : List ℕ} → Pick i xs rest → Has i xs
Has-of_Pick here = inl refl
Has-of_Pick (there p) = inr (Has-of_Pick p)

-- What is in the list is picked or left.
pub Has-Pick : {i k : ℕ} {xs rest : List ℕ} → Pick i xs rest → Has k xs → (k ≡ i) ⊎ Has k rest
Has-Pick here (inl e) = inl e
Has-Pick here (inr h) = inr h
Has-Pick (there p) (inl e) = inr (inl e)
Has-Pick (there p) (inr h) = elim (Has-Pick p h) [ inl e ↦ inl e | inr r ↦ inr (inr r) ]

-- What is left was in the list.
pub Has-left : (k : ℕ) {i : ℕ} {xs rest : List ℕ} → Pick i xs rest → Has k rest → Has k xs
Has-left k here h = inr h
Has-left k (there p) (inl e) = inl e
Has-left k (there p) (inr h) = inr (Has-left k p h)

pub length-Pick : {i : ℕ} {xs rest : List ℕ} → Pick i xs rest → length xs ≡ suc (length rest)
length-Pick here = refl
length-Pick (there p) = ap suc (length-Pick p)

pub Pick-of_Has : {i : ℕ} (xs : List ℕ) → Has i xs → (rest : List ℕ) × Pick i xs rest
Pick-of_Has [] h = elim h [ ]
Pick-of_Has {i} (x ∷ xs) (inl e) = (xs, subst (λ k. Pick i (k ∷ xs) xs) e here)
Pick-of_Has (x ∷ xs) (inr h) = let (rest, p) = Pick-of_Has xs h in (x ∷ rest, there p)

-- An element is in a list or it is not.
pub Has-cases : (i : ℕ) (xs : List ℕ) → Has i xs ⊎ (Has i xs → ⊥)
Has-cases i [] = inr (λ h. h)
Has-cases i (x ∷ xs) = elim (Bool-cases (i == x)) [
  | inl e ↦ inl (inl (ground arith))
  | inr n ↦ elim (Has-cases i xs) [
    | inl h ↦ inl (inr h)
    | inr none ↦ inr (λ h. elim h [ inl e ↦ ground arith | inr r ↦ none r ])
  ]
]

pub Has-append : (k : ℕ) (xs ys : List ℕ) → Has k (xs ++ ys) → Has k xs ⊎ Has k ys
Has-append k [] ys h = inr h
Has-append k (x ∷ xs) ys (inl e) = inl (inl e)
Has-append k (x ∷ xs) ys (inr h) = elim (Has-append k xs ys h) [
  | inl l ↦ inl (inr l)
  | inr r ↦ inr r
]

pub Has-append_left : (k : ℕ) (xs ys : List ℕ) → Has k xs → Has k (xs ++ ys)
Has-append_left k [] ys h = elim h [ ]
Has-append_left k (x ∷ xs) ys (inl e) = inl e
Has-append_left k (x ∷ xs) ys (inr h) = inr (Has-append_left k xs ys h)

pub Has-append_last : {k i : ℕ} (xs : List ℕ) → k ≡ i → Has k (xs ++ (i ∷ []))
Has-append_last [] e = inl e
Has-append_last (x ∷ xs) e = inr (Has-append_last xs e)
