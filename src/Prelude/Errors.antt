-- ===== src/Prelude/Errors.antt =====
-- Errors as values. Go wraps an error in a message and keeps its identity for `errors.Is`;
-- the model keeps the identity and leaves the message text out.
use mathlib.Core.Path.{◌≡◌, refl}
use mathlib.Core.Bool.{Bool, true, false}
use Prim.Native.Nat.{ℕ}

pub data Error : Type 0 where
  -- sentinel errors of the program
  size_overflow hash_mismatch decompression counter_overflow : Error
  -- errors that have only a message
  invalid_hash_length short_read unknown_compression negative_offset : Error
  -- errors of the standard library
  eof unexpected_eof short_write invalid_path not_exist exists : Error
  -- an error of a dependency, told apart by a number
  external : ℕ → Error

-- Go's pair of a value and an error, where the value counts only without an error.
pub data Result {κ} (B : Type κ) : Type κ where
  err : Error → Result B
  ok : B → Result B

abbrev pub reject_if : Bool → Error → Result (Unit {0})
reject_if true e = err e
reject_if false e = ok tt

infixl 5 ◌>>=◌
abbrev pub ◌>>=◌ {κ ℓ} : {B : Type κ} {C : Type ℓ} → Result B → (B → Result C) → Result C
err x >>= next = err x
ok b >>= next = next b

-- A check before the rest
infixl 5 ◌>>◌
abbrev pub ◌>>◌ {κ} : {C : Type κ} → Result (Unit {0}) → Result C → Result C
check >> rest = check >>= λ _. rest

pub >>=-eq-ok {κ ℓ} :
    {B : Type κ} {C : Type ℓ} (first : Result B) (next : B → Result C) {c : C}
    → (first >>= next) ≡ ok c
    → (b : B) × (first ≡ ok b) × (next b ≡ ok c)
>>=-eq-ok (err x) next h = cc
>>=-eq-ok (ok b) next h = (b, refl, h)
