-- ===== src/Archive/Queries.antt =====
-- The queries of core/blob.go on a sorted index, against a search of all its entries.
use blob.Prelude.{
  ◌≡◌, ◌↔◌, refl, sym, ap, ◌∙◌, Bool, true, false, ◌||◌, inl, inr, Option, none, some, List, [],
  ◌∷◌, ◌++◌, arith, if◌then◌else◌, All, Bool-cases, map,
}
use blob.Prelude.Bytes.{Bytes, equal, has_prefix}
use blob.Entry.{FbEntry}
use blob.FilePath.{slash, dot_path, normalize_path, valid_path}
use blob.FilePath.Normalize.{normalize_path_idem}
use blob.Index.{Index, IsSorted}
use blob.Index.Scan.{with_prefix, entries_with_prefix_complete}
use blob.Archive.{
  is_any, is_dir_named, is_file, is_dir, exists_path, Reason, Checked, valid, invalid, reason_of,
  with_normalized, validate_files,
}

-- Some entry lies below the directory.
unfoldable pub any_below : Bytes → List FbEntry → Bool
any_below prefix [] = false
any_below prefix (e ∷ es) = has_prefix e.path prefix || any_below prefix es

is_any-with_prefix : (p : Bytes) (es : List FbEntry) → is_any (with_prefix p es) ≡ any_below p es
unfolding with_prefix any_below
is_any-with_prefix p [] = refl
is_any-with_prefix p (e ∷ es) = elim (Bool-cases (has_prefix e.path p)) [
  | inl h ↦ rw (h, any_below) refl
  | inr h ↦ rw (h, any_below) (is_any-with_prefix p es)
]

-- On a sorted index the directory test by bisection finds, for every name but ".", whether some entry's
-- path goes on behind the name and a slash.
pub is_dir_named-any_below :
    (idx : Index) (name : Bytes)
    → IsSorted idx.entries
    → equal name dot_path ≡ false
    → is_dir_named idx name ≡ any_below (name ++ slash ∷ []) idx.entries
unfolding is_dir_named
is_dir_named-any_below idx name s h = rw h (
    ap is_any (entries_with_prefix_complete idx (name ++ slash ∷ []) s)
    ∙ is_any-with_prefix (name ++ slash ∷ []) idx.entries)

-- Exists holds exactly where IsFile or IsDir does: the path that it has normalized is normalized again
-- by both without a change.
pub exists_path-either :
    (idx : Index) (path : Bytes) → exists_path idx path ≡ (is_file idx path || is_dir idx path)
unfolding exists_path is_file is_dir
exists_path-either idx path =
    rw (normalize_path_idem path) (guarded (valid_path (normalize_path path)) _ _)
  where
    guarded :
        (b f d : Bool)
        → (if b then (if b then f else false) || (if b then d else false) else false)
          ≡ ((if b then f else false) || (if b then d else false))
    guarded true f d = refl
    guarded false f d = refl

-- Nothing is wrong with a path exactly where it is a file.
reason_of-none :
    (idx : Index) (path : Bytes)
    → (reason_of idx (normalize_path path) ≡ none) ↔ (is_file idx path ≡ true)
unfolding reason_of is_file
reason_of-none idx path = (λ h. ground arith, λ h. ground arith)

with_normalized-valid :
    (name : Bytes) (rest : Checked) {names : List Bytes}
    → with_normalized name rest ≡ valid names
    → (ns : List Bytes) × (rest ≡ valid ns) × (names ≡ name ∷ ns)
with_normalized-valid name (valid ns) h = (ns, refl, cc)
with_normalized-valid name (invalid p r) h = cc

-- ValidateFiles accepts a list of paths exactly where each of them is a file, and then returns the
-- normalized paths in their order.
validate_files_iff :
    (idx : Index) (paths names : List Bytes)
    → (validate_files idx paths ≡ valid names)
      ↔ (All (λ path. is_file idx path ≡ true) paths × (names ≡ map normalize_path paths))
unfolding validate_files
validate_files_iff idx [] names = (λ h. (tt, cc), λ h. cc)
validate_files_iff idx (path ∷ paths) names =
    go (validate_files_iff idx paths) (reason_of idx (normalize_path path)) refl
  where
    go :
        ((ns : List Bytes)
          → (validate_files idx paths ≡ valid ns)
            ↔ (All (λ p. is_file idx p ≡ true) paths × (ns ≡ map normalize_path paths)))
        → (reason : Option Reason) → reason_of idx (normalize_path path) ≡ reason
        → ((elim reason [
          | some r ↦ invalid path r
          | none ↦ with_normalized (normalize_path path) (validate_files idx paths)
        ])
            ≡ valid names)
          ↔ (All (λ p. is_file idx p ≡ true) (path ∷ paths)
              × (names ≡ map normalize_path (path ∷ paths)))
    go ih (some r) h = (λ k. cc, λ k. absurd (some_wrong ((reason_of-none idx path).1 k.0.0) h))
      where
        some_wrong :
            reason_of idx (normalize_path path) ≡ none
            → reason_of idx (normalize_path path) ≡ some r
            → ⊥
        some_wrong p q = cc
    go ih none h = (
      λ k.
          let (ns, p, q) =
            with_normalized-valid (normalize_path path) (validate_files idx paths) k in
          let (all, e) = (ih ns).0 p in
          (((reason_of-none idx path).0 h, all), q ∙ ap (◌∷◌ (normalize_path path)) e),
      λ k.
          ap (with_normalized (normalize_path path))
            ((ih (map normalize_path paths)).1 (k.0.1, refl))
          ∙ ap valid (sym k.1),
    )
