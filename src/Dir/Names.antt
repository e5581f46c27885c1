-- ===== src/Dir/Names.antt =====
-- Which names ReadDir of core/blob.go lists, and in which order.
use mathlib.Core.Path.{subst}
use blob.Prelude.{ℕ, ◌<◌, ◌≡◌, refl, sym, ap, ◌∙◌, true, false, List, [], ◌∷◌, ◌++◌, All}
use blob.Prelude.Bytes.{
  Bytes, equal, Before, equal_of_Before, prefix-append, Before-append, compare-append, head-Before,
}
use blob.Entry.{FbEntry}
use blob.FilePath.{slash, child}
use blob.FilePath.Split.{IsSegment}
use blob.FilePath.Child.{child-file, child-directory}
use blob.Index.{Index, IsSorted}
use blob.Index.Scan.{with_prefix, entries_with_prefix_complete}
use blob.Dir.{DirEntry, new_dir_iter, read_all}
use blob.Dir.Listing.{
  children, read_all-listing, has_name, has_child, has_name-children, name_make_entry,
  name_make_entry-directory, Fits,
}

-- On a sorted index whose sizes fit in an int64 the listing of a prefix has an entry of a non-empty
-- name exactly when that name is the child name of some entry of the index under the prefix.
pub read_all-has_name :
    (idx : Index) (prefix : Bytes) (b : ℕ) (bs : Bytes)
    → IsSorted idx.entries
    → All Fits (with_prefix prefix idx.entries)
    → has_name (b ∷ bs) (read_all (new_dir_iter idx prefix)).0
      ≡ has_child (b ∷ bs) prefix (with_prefix prefix idx.entries)
unfolding new_dir_iter has_name equal children
read_all-has_name idx prefix b bs sorted fits =
    ap (has_name (b ∷ bs)) (
      read_all-listing (new_dir_iter idx prefix)
      ∙ ap (children prefix []) (entries_with_prefix_complete idx prefix sorted))
    ∙ has_name-children (b ∷ bs) prefix [] (with_prefix prefix idx.entries) fits

unfoldable pub names : List DirEntry → List Bytes
names [] = []
names (e ∷ es) = e.name ∷ names es

with_prefix-all : (es : List FbEntry) → with_prefix [] es ≡ es
unfolding with_prefix
with_prefix-all [] = refl
with_prefix-all (e ∷ es) = rw (prefix-append [] e.path) (ap (◌∷◌ e) (with_prefix-all es))

two-Before :
    (v w : FbEntry) (b c : ℕ) (bs r t : Bytes)
    → v.path ≡ (b ∷ bs) ++ (c ∷ r)
    → w.path ≡ (b ∷ bs) ++ (slash ∷ t)
    → c < slash
    → Before v.path w.path
two-Before v w b c bs r t pv pw lt =
    rw (pv, pw) (compare-append (b ∷ bs) (c ∷ r) (slash ∷ t) ∙ head-Before c slash r t lt)

two_children :
    (v w : FbEntry) (x y : ℕ) (xs ys : Bytes)
    → child v.path [] ≡ (x ∷ xs, false)
    → child w.path [] ≡ (y ∷ ys, true)
    → equal (y ∷ ys) (x ∷ xs) ≡ false
    → Fits v
    → names (children [] [] (v ∷ w ∷ [])) ≡ (x ∷ xs) ∷ (y ∷ ys) ∷ []
unfolding children names equal
two_children v w x y xs ys hv hw ne fits =
    rw (hv, hw, ne, equal)
      (rw (name_make_entry v (x ∷ xs) false fits, name_make_entry-directory w (y ∷ ys)))

-- An archive of a file `n ++ c ∷ r` and a file below the directory `n`, for a byte `c` smaller than
-- the slash (such as ".", "-" or a space), lists the file first and the directory second, although
-- the directory's name stands before the file's.
pub read_all-out_of_order :
    (idx : Index) (v w : FbEntry) (b c : ℕ) (bs r t : Bytes)
    → idx.entries ≡ v ∷ w ∷ []
    → v.path ≡ (b ∷ bs) ++ (c ∷ r)
    → w.path ≡ (b ∷ bs) ++ (slash ∷ t)
    → c < slash
    → IsSegment slash (b ∷ bs)
    → IsSegment slash ((b ∷ bs) ++ (c ∷ r))
    → Fits v
    → (names (read_all (new_dir_iter idx [])).0 ≡ ((b ∷ bs) ++ (c ∷ r)) ∷ (b ∷ bs) ∷ [])
      × Before (b ∷ bs) ((b ∷ bs) ++ (c ∷ r))
unfolding new_dir_iter
read_all-out_of_order idx v w b c bs r t es pv pw lt sn sf fits = (
  ap names (
        read_all-listing (new_dir_iter idx [])
        ∙ ap (children [] []) (
            entries_with_prefix_complete idx [] (subst IsSorted (sym es) two_sorted)
            ∙ ap (with_prefix []) es
            ∙ with_prefix-all (v ∷ w ∷ [])))
      ∙ two_children v w b b (bs ++ (c ∷ r)) bs
          (ap (λ p. child p []) pv ∙ child-file [] ((b ∷ bs) ++ (c ∷ r)) sf)
          (ap (λ p. child p []) pw ∙ child-directory [] (b ∷ bs) t sn)
          (equal_of_Before (b ∷ bs) ((b ∷ bs) ++ (c ∷ r)) (Before-append (b ∷ bs) c r)) fits,
  Before-append (b ∷ bs) c r,
)
  where
    two_sorted : IsSorted (v ∷ w ∷ [])
    two_sorted = ((two-Before v w b c bs r t pv pw lt, tt), (tt, tt))
