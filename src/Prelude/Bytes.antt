-- ===== src/Prelude/Bytes.antt =====
-- Byte strings: `bytes.Equal`, `bytes.Compare`, `bytes.HasPrefix`, and the laws of the order.
use Prim.Native.Nat.{ℕ, ◌<◌, compare, Ordering}
use mathlib.Core.Path.{◌≡◌, refl, ap}
use mathlib.Core.Logic.{◌↔◌}
use mathlib.Core.Bool.{Bool, true, false, ◌&&◌}
use mathlib.Core.List.{List, [], ◌∷◌, ◌++◌}
use native.Mathlib.Omega.{arith}
use blob.Prelude.Tests.{◌==◌}

abbrev pub Bytes : Type 0
Bytes = List ℕ

unfoldable pub equal : Bytes → Bytes → Bool
equal [] [] = true
equal (x ∷ xs) (y ∷ ys) = x == y && equal xs ys
equal _ _ = false

unfoldable pub compare_bytes : Bytes → Bytes → Ordering
compare_bytes [] [] = Ordering.eq
compare_bytes [] (y ∷ ys) = Ordering.lt
compare_bytes (x ∷ xs) [] = Ordering.gt
compare_bytes (x ∷ xs) (y ∷ ys) = elim (compare x y) [
  | Ordering.lt ↦ Ordering.lt
  | Ordering.gt ↦ Ordering.gt
  | Ordering.eq ↦ compare_bytes xs ys
]

unfoldable pub has_prefix : Bytes → Bytes → Bool
has_prefix xs [] = true
has_prefix [] (p ∷ ps) = false
has_prefix (x ∷ xs) (p ∷ ps) = x == p && has_prefix xs ps

-- `bytes.Compare(x, y) >= 0`
unfoldable pub at_least : Bytes → Bytes → Bool
at_least x y = elim (compare_bytes x y) [ Ordering.lt ↦ false | _ ↦ true ]

-- `x` stands before `y` in the order of bytes.Compare.
abbrev pub Before : Bytes → Bytes → Type 0
Before x y = compare_bytes x y ≡ Ordering.lt

pub equal_sound : (x y : Bytes) → equal x y ≡ true → x ≡ y
unfolding equal
equal_sound [] [] h = refl
equal_sound (x ∷ xs) (y ∷ ys) h = ground (arith, equal_sound xs ys)
equal_sound [] (y ∷ ys) h = cc
equal_sound (x ∷ xs) [] h = cc

pub equal_refl : (x : Bytes) → equal x x ≡ true
unfolding equal
equal_refl [] = refl
equal_refl (x ∷ xs) = ground (arith, equal_refl xs)

pub equal_iff : (x y : Bytes) → (equal x y ≡ true) ↔ (x ≡ y)
equal_iff x y = (equal_sound x y, λ e. cc (equal_refl x, ap (equal x) e))

pub compare_refl : (x : Bytes) → compare_bytes x x ≡ Ordering.eq
unfolding compare_bytes
compare_refl [] = refl
compare_refl (x ∷ xs) = ground (arith, compare_refl xs)

pub eq_of_compare : (x y : Bytes) → compare_bytes x y ≡ Ordering.eq → x ≡ y
unfolding compare_bytes
eq_of_compare [] [] h = refl
eq_of_compare [] (y ∷ ys) h = cc
eq_of_compare (x ∷ xs) [] h = cc
eq_of_compare (x ∷ xs) (y ∷ ys) h = ground (arith, eq_of_compare xs ys)

pub Before-of_gt : (x y : Bytes) → compare_bytes x y ≡ Ordering.gt → Before y x
unfolding compare_bytes
Before-of_gt [] [] h = cc
Before-of_gt [] (y ∷ ys) h = cc
Before-of_gt (x ∷ xs) [] h = refl
Before-of_gt (x ∷ xs) (y ∷ ys) h = ground (arith, Before-of_gt xs ys)

pub gt_of_Before : (x y : Bytes) → Before x y → compare_bytes y x ≡ Ordering.gt
unfolding compare_bytes
gt_of_Before [] [] h = cc
gt_of_Before [] (y ∷ ys) h = refl
gt_of_Before (x ∷ xs) [] h = cc
gt_of_Before (x ∷ xs) (y ∷ ys) h = ground (arith, gt_of_Before xs ys)

pub Before-trans : (x y z : Bytes) → Before x y → Before y z → Before x z
unfolding compare_bytes
Before-trans [] [] z h k = cc
Before-trans [] (y ∷ ys) [] h k = cc
Before-trans [] (y ∷ ys) (z ∷ zs) h k = refl
Before-trans (x ∷ xs) [] z h k = cc
Before-trans (x ∷ xs) (y ∷ ys) [] h k = cc
Before-trans (x ∷ xs) (y ∷ ys) (z ∷ zs) h k = ground (arith, Before-trans xs ys zs)

pub Before-irrefl : (x : Bytes) → Before x x → ⊥
Before-irrefl x h = cc (h, compare_refl x)

pub equal_of_Before : (x y : Bytes) → Before x y → equal x y ≡ false
unfolding equal compare_bytes
equal_of_Before [] [] h = cc
equal_of_Before [] (y ∷ ys) h = refl
equal_of_Before (x ∷ xs) [] h = refl
equal_of_Before (x ∷ xs) (y ∷ ys) h = ground (arith, equal_of_Before xs ys)

pub equal_comm : (x y : Bytes) → equal x y ≡ equal y x
unfolding equal
equal_comm [] [] = refl
equal_comm [] (y ∷ ys) = refl
equal_comm (x ∷ xs) [] = refl
equal_comm (x ∷ xs) (y ∷ ys) = ground (arith, equal_comm xs ys)

-- A string with prefix `p` does not stand before `p`.
pub at_least_of_prefix : (x p : Bytes) → has_prefix x p ≡ true → at_least x p ≡ true
unfolding has_prefix compare_bytes at_least
at_least_of_prefix [] [] h = refl
at_least_of_prefix (x ∷ xs) [] h = refl
at_least_of_prefix [] (p ∷ ps) h = cc
at_least_of_prefix (x ∷ xs) (p ∷ ps) h = ground (arith, at_least_of_prefix xs ps)

-- Past a string that is not before `p` and lacks the prefix, no string has it.
pub no-prefix_past :
    (x y p : Bytes)
    → Before x y
    → at_least x p ≡ true
    → has_prefix x p ≡ false
    → has_prefix y p ≡ false
unfolding has_prefix compare_bytes at_least
no-prefix_past [] y [] b n h = cc
no-prefix_past (x ∷ xs) y [] b n h = cc
no-prefix_past x [] (p ∷ ps) b n h = refl
no-prefix_past [] (y ∷ ys) (p ∷ ps) b n h = cc
no-prefix_past (x ∷ xs) (y ∷ ys) (p ∷ ps) b n h = ground (arith, no-prefix_past xs ys ps)

-- What stands behind a string at or past `y` is at or past `y`.
pub at_least-Before : (x y z : Bytes) → at_least x z ≡ true → Before x y → at_least y z ≡ true
unfolding compare_bytes at_least
at_least-Before x [] [] h b = refl
at_least-Before x (y ∷ ys) [] h b = refl
at_least-Before [] y (z ∷ zs) h b = cc
at_least-Before (x ∷ xs) [] (z ∷ zs) h b = cc
at_least-Before (x ∷ xs) (y ∷ ys) (z ∷ zs) h b = ground (arith, at_least-Before xs ys zs)

-- The bytes behind a prefix.
pub prefix-append : (p r : Bytes) → has_prefix (p ++ r) p ≡ true
unfolding has_prefix
prefix-append [] [] = refl
prefix-append [] (r ∷ rs) = refl
prefix-append (p ∷ ps) r = ground (arith, prefix-append ps r)

-- A common start does not matter to the order.
pub compare-append : (p x y : Bytes) → compare_bytes (p ++ x) (p ++ y) ≡ compare_bytes x y
unfolding compare_bytes
compare-append [] x y = refl
compare-append (b ∷ p) x y = ground (arith, compare-append p x y)

-- A string stands before its extensions.
pub Before-append : (p : Bytes) (b : ℕ) (bs : Bytes) → Before p (p ++ (b ∷ bs))
unfolding compare_bytes
Before-append [] b bs = refl
Before-append (x ∷ p) b bs = ground (arith, Before-append p b bs)

pub head-Before : (b c : ℕ) (xs ys : Bytes) → b < c → Before (b ∷ xs) (c ∷ ys)
unfolding compare_bytes
head-Before b c xs ys h = ground arith
