-- ===== src/FilePath/Child.antt =====
-- Base, DirPrefix and Child of core/internal/file/path.go on paths that are put together.
use blob.Prelude.{
  ℕ, ◌≡◌, refl, ap, true, false, none, some, [], ◌∷◌, ◌++◌, arith, length, take, drop,
}
use blob.Prelude.Bytes.{Bytes, prefix-append}
use blob.FilePath.{slash, index_byte, last_index_byte, trim_suffix_byte, trim_prefix, child}
use blob.FilePath.Split.{IsSegment, contains}

pub drop-append : (xs ys : Bytes) → drop (length xs) (xs ++ ys) ≡ ys
drop-append [] ys = refl
drop-append (x ∷ xs) ys = drop-append xs ys

pub take-append : (xs ys : Bytes) → take (length xs) (xs ++ ys) ≡ xs
take-append [] ys = refl
take-append (x ∷ xs) ys = ap (◌∷◌ x) (take-append xs ys)

pub trim_prefix-append : (p r : Bytes) → trim_prefix (p ++ r) p ≡ r
unfolding trim_prefix
trim_prefix-append p r = rw (prefix-append p r) (drop-append p r)

index_byte-none : (c : ℕ) (s : Bytes) → IsSegment c s → index_byte c s ≡ none
unfolding index_byte contains
index_byte-none c [] h = refl
index_byte-none c (x ∷ xs) h = ground (arith, index_byte-none c xs)

index_byte-append :
    (c : ℕ) (s r : Bytes) → IsSegment c s → index_byte c (s ++ (c ∷ r)) ≡ some (length s)
unfolding index_byte contains
index_byte-append c [] r h = ground arith
index_byte-append c (x ∷ xs) r h = ground (arith, index_byte-append c xs r)

-- The child of a prefix, for a path that goes on behind the prefix by a name without a slash: that
-- name, and no directory.
pub child-file :
    (prefix name : Bytes) → IsSegment slash name → child (prefix ++ name) prefix ≡ (name, false)
unfolding child
child-file prefix name h =
    rw (trim_prefix-append prefix name, child)
      (rw (index_byte-none slash name h) (rw (trim_prefix-append prefix name)))

-- With more behind the name and a slash the child is the name, as a directory.
pub child-directory :
    (prefix name rest : Bytes)
    → IsSegment slash name
    → child (prefix ++ (name ++ (slash ∷ rest))) prefix ≡ (name, true)
unfolding child
child-directory prefix name rest h =
    rw (trim_prefix-append prefix (name ++ (slash ∷ rest)), child)
      (rw (index_byte-append slash name rest h) (
        rw (trim_prefix-append prefix (name ++ (slash ∷ rest)))
          (ap (λ n. (n, true)) (take-append name (slash ∷ rest)))))

last_index_byte-none : (c : ℕ) (s : Bytes) → IsSegment c s → last_index_byte c s ≡ none
unfolding last_index_byte contains
last_index_byte-none c [] h = refl
last_index_byte-none c (x ∷ xs) h = ground (arith, last_index_byte-none c xs)

last_index_byte-append :
    (c : ℕ) (s r : Bytes) → IsSegment c r → last_index_byte c (s ++ (c ∷ r)) ≡ some (length s)
unfolding last_index_byte
last_index_byte-append c [] r h = ground (arith, last_index_byte-none c r h)
last_index_byte-append c (x ∷ xs) r h = ground (arith, last_index_byte-append c xs r h)

trim_suffix_byte-append :
    (c : ℕ) (s : Bytes) (x : ℕ) (r : Bytes)
    → trim_suffix_byte c (s ++ (x ∷ r)) ≡ s ++ trim_suffix_byte c (x ∷ r)
unfolding trim_suffix_byte
trim_suffix_byte-append c [] x r = refl
trim_suffix_byte-append c (y ∷ []) x r = refl
trim_suffix_byte-append c (y ∷ z ∷ s) x r = ap (◌∷◌ y) (trim_suffix_byte-append c (z ∷ s) x r)

trim_suffix_byte-segment : (c : ℕ) (s : Bytes) → IsSegment c s → trim_suffix_byte c s ≡ s
unfolding trim_suffix_byte contains
trim_suffix_byte-segment c [] h = refl
trim_suffix_byte-segment c (x ∷ []) h = ground arith
trim_suffix_byte-segment c (x ∷ y ∷ ys) h = ground (arith, trim_suffix_byte-segment c (y ∷ ys))
