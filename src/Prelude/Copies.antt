-- ===== src/Prelude/Copies.antt =====
-- Parts of byte strings copied into a buffer: `copy(p[offset:], block)` of Go.
use Prim.Native.Nat.{ℕ, zero, suc, ◌+◌, ◌-◌, ◌≤◌}
use mathlib.Core.Path.{◌≡◌, refl, ap, ap₂, sym, ◌∙◌, ◌≡⟨◌⟩◌, ◌∎}
use mathlib.Core.List.{[], ◌∷◌, ◌++◌, append_assoc}
use native.Mathlib.Omega.{arith}
use native.Mathlib.Nat.{suc-add, zero-add}
use blob.Prelude.Lists.{
  length, take, drop, slice, length-take, length-drop, take-take, drop-drop, drop-take,
}
use blob.Prelude.Bytes.{Bytes}

-- copy(p[offset:], block), of a block that fits
abbrev pub copy_into : Bytes → ℕ → Bytes → Bytes
copy_into p offset block = take offset p ++ (block ++ drop (offset + length block) p)

-- `p` with its first `n` bytes replaced by those of `content` at `off`.
abbrev pub filled : Bytes → ℕ → ℕ → Bytes → Bytes
filled content off n p = take n (drop off content) ++ drop n p

pub take-add : (m n : ℕ) (xs : Bytes) → take m xs ++ take n (drop m xs) ≡ take (m + n) xs
take-add zero n xs = rw (zero-add n)
take-add (suc m) zero [] = rw (suc-add m zero)
take-add (suc m) (suc n) [] = rw (suc-add m (suc n))
take-add (suc m) n (x ∷ xs) = rw (suc-add m n) (ap (◌∷◌ x) (take-add m n xs))

pub take-length_append : (n : ℕ) (xs ys : Bytes) → length xs ≡ n → take n (xs ++ ys) ≡ xs
take-length_append zero [] ys h = refl
take-length_append (suc n) [] ys h = absurd (omega arith)
take-length_append zero (x ∷ xs) ys h = absurd (omega arith)
take-length_append (suc n) (x ∷ xs) ys h = ap (◌∷◌ x) (take-length_append n xs ys (omega arith))

pub drop-length_append : (n : ℕ) (xs ys : Bytes) → length xs ≡ n → drop n (xs ++ ys) ≡ ys
drop-length_append zero [] ys h = refl
drop-length_append (suc n) [] ys h = absurd (omega arith)
drop-length_append zero (x ∷ xs) ys h = absurd (omega arith)
drop-length_append (suc n) (x ∷ xs) ys h = drop-length_append n xs ys (omega arith)

-- A slice of a slice that stays within it.
pub slice-slice :
    (a b c d : ℕ) (xs : Bytes) → c + b ≤ d → slice a b (slice c d xs) ≡ slice (c + a) (c + b) xs
slice-slice a b c d xs h =
    slice a b (slice c d xs)
    ≡⟨ ap (take (b - a)) (drop-take a (d - c) (drop c xs)) ⟩
      take (b - a) (take (d - c - a) (drop a (drop c xs)))
    ≡⟨ take-take (b - a) (d - c - a) (drop a (drop c xs)) (omega arith) ⟩
      take (b - a) (drop a (drop c xs))
    ≡⟨ ap₂ take (omega arith) (drop-drop a c xs) ⟩ slice (c + a) (c + b) xs ∎

pub length-slice : (i j : ℕ) (xs : Bytes) → i ≤ j → j ≤ length xs → length (slice i j xs) ≡ j - i
length-slice i j xs h k = omega (arith, length-take (j - i) (drop i xs), length-drop i xs)

-- What is behind a copy of `l` bytes at `n`.
copy-step :
    (rest p : Bytes) (n l : ℕ)
    → n + l ≤ length rest
    → copy_into (take n rest ++ drop n p) n (take l (drop n rest))
      ≡ take (n + l) rest ++ drop (n + l) p
copy-step rest p n l fits =
    ap₂ ◌++◌ (take-length_append n (take n rest) (drop n p) done)
      (ap (λ xs. take l (drop n rest) ++ xs) behind)
    ∙ sym (append_assoc (take n rest) (take l (drop n rest)) (drop (n + l) p))
    ∙ ap (λ xs. xs ++ drop (n + l) p) (take-add n l rest)
  where
    done : length (take n rest) ≡ n
    done = omega (arith, length-take n rest)

    added : length (take l (drop n rest)) ≡ l
    added = omega (arith, length-take l (drop n rest), length-drop n rest)

    behind : drop (n + length (take l (drop n rest))) (take n rest ++ drop n p) ≡ drop (n + l) p
    behind =
        ap (λ k. drop (n + k) (take n rest ++ drop n p)) added
        ∙ sym (drop-drop l n (take n rest ++ drop n p))
        ∙ ap (drop l) (drop-length_append n (take n rest) (drop n p) done)
        ∙ drop-drop l n p

-- A buffer that is filled up to `n` goes on to be filled by the bytes that follow.
pub copy_into-filled :
    (content p : Bytes) (off n l : ℕ)
    → off + (n + l) ≤ length content
    → copy_into (filled content off n p) n (take l (drop (off + n) content))
      ≡ filled content off (n + l) p
copy_into-filled content p off n l fits =
    ap (λ xs. copy_into (filled content off n p) n (take l xs)) (sym (drop-drop n off content))
    ∙ copy-step (drop off content) p n l (omega (arith, length-drop off content))
