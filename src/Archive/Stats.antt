-- ===== src/Archive/Stats.antt =====
-- DirStats and the collection of entries (core/blob.go) on a sorted index.
use mathlib.Core.Path.{subst}
use blob.Prelude.{
  ℕ, ◌+◌, ◌%◌, ◌<◌, ◌≡◌, refl, sym, ap, Bool, true, false, ◌⊎◌, inl, inr, none, List, [], ◌∷◌,
  arith, if◌then◌else◌, length, Bool-cases, add_u64, two64, not, ◌&&◌,
}
use blob.Prelude.Bytes.{Bytes, equal}
use blob.Entry.{FbEntry, is_regular}
use blob.FilePath.{dot_path, dir_prefix, normalize_path, valid_path}
use blob.Index.{Index, lookup_view, IsSorted}
use blob.Index.Scan.{with_prefix, entries_with_prefix_complete}
use blob.Archive.{
  DirStats, no_dir_stats, stats_loop, file_stats, stats_below, dir_stats, is_root, entries_of,
  collect_prefix_entries,
}

-- The regular files among the entries
unfoldable pub regular : List FbEntry → List FbEntry
regular [] = []
regular (e ∷ es) = let rest = regular es in if is_regular e.mode then e ∷ rest else rest

unfoldable pub sum_of : (FbEntry → ℕ) → List FbEntry → ℕ
sum_of size [] = 0
sum_of size (e ∷ es) = size e + sum_of size es

-- The statistics count these files, and add their sizes up modulo 2^64.
pub record Counts (stats : DirStats) (files : List FbEntry) : Type 0 where
  pub count : stats.file_count ≡ length files
  pub total : stats.total_bytes ≡ sum_of (λ e. e.original_size) files % two64
  pub compressed : stats.compressed_bytes ≡ sum_of (λ e. e.data_size) files % two64

-- From some statistics on.
record Adds (s t : DirStats) (files : List FbEntry) : Type 0 where
  count : t.file_count ≡ s.file_count + length files
  total : t.total_bytes ≡ (s.total_bytes + sum_of (λ e. e.original_size) files) % two64
  compressed : t.compressed_bytes ≡ (s.compressed_bytes + sum_of (λ e. e.data_size) files) % two64

record Small (s : DirStats) : Type 0 where
  total : s.total_bytes < two64
  compressed : s.compressed_bytes < two64

stats_loop-Adds :
    (s : DirStats) (es : List FbEntry) → Small s → Adds s (stats_loop s es) (regular es)
unfolding stats_loop regular sum_of
stats_loop-Adds s [] h = record {
  count = omega arith;
  total = omega (arith, h.total);
  compressed = omega (arith, h.compressed);
}
stats_loop-Adds s (e ∷ es) h = elim (Bool-cases (is_regular e.mode)) [
  | inl r ↦
      let rest =
        stats_loop-Adds
          (record {
            file_count = s.file_count + 1;
            total_bytes = add_u64 s.total_bytes e.original_size;
            compressed_bytes = add_u64 s.compressed_bytes e.data_size;
          })
          es (record { total = omega arith; compressed = omega arith }) in
      rw (r, stats_loop, regular)
        (record {
          count = omega (arith, rest.count);
          total = omega (arith, rest.total);
          compressed = omega (arith, rest.compressed);
        })
  | inr r ↦ rw (r, stats_loop, regular) (stats_loop-Adds s es h)
]

-- DirStats of a valid prefix that is no file: on a sorted index it counts the regular files below the
-- prefix, and the sums of their sizes modulo 2^64.
pub dir_stats-Counts :
    (idx : Index) (prefix : Bytes)
    → IsSorted idx.entries
    → valid_path (normalize_path prefix) ≡ true
    → (equal (normalize_path prefix) dot_path ≡ true)
      ⊎ (file_stats (lookup_view idx (normalize_path prefix)) ≡ none)
    → Counts
        (dir_stats idx prefix)
        (regular (with_prefix (dir_prefix (normalize_path prefix)) idx.entries))
unfolding dir_stats
dir_stats-Counts idx prefix sorted good none_exact =
    rw (good, dir_stats)
      (subst (λ o. Counts (stats_below idx (normalize_path prefix) o) files)
        (sym (no_file none_exact))
        (subst (λ es. Counts (stats_loop no_dir_stats es) files)
          (sym (entries_with_prefix_complete idx (dir_prefix (normalize_path prefix)) sorted))
          (record {
            count = omega (arith, all.count);
            total = omega (arith, all.total);
            compressed = omega (arith, all.compressed);
          })))
  where
    files : List FbEntry
    files = regular (with_prefix (dir_prefix (normalize_path prefix)) idx.entries)

    all :
        Adds no_dir_stats
          (stats_loop no_dir_stats (with_prefix (dir_prefix (normalize_path prefix)) idx.entries))
          files
    all =
        stats_loop-Adds no_dir_stats (with_prefix (dir_prefix (normalize_path prefix)) idx.entries)
          (record { total = omega arith; compressed = omega arith })

    no_file :
        (equal (normalize_path prefix) dot_path ≡ true)
          ⊎ (file_stats (lookup_view idx (normalize_path prefix)) ≡ none)
        → (if equal (normalize_path prefix) dot_path
            then none
            else file_stats (lookup_view idx (normalize_path prefix)))
          ≡ none
    no_file (inl h) = rw h
    no_file (inr h) = ground arith

-- What CopyDir takes of a sorted index for a valid prefix, or for all of the archive: exactly the
-- entries below it, in the order of the index.
pub collect_prefix_entries-all :
    (idx : Index) (prefix : Bytes)
    → IsSorted idx.entries
    → (is_root prefix ≡ true) ⊎ (valid_path prefix ≡ true)
    → collect_prefix_entries idx prefix
      ≡ entries_of (with_prefix (if is_root prefix then [] else dir_prefix prefix) idx.entries)
unfolding collect_prefix_entries
collect_prefix_entries-all idx prefix sorted h = rw (guard (is_root prefix) (valid_path prefix) h) (
    ap entries_of
      (entries_with_prefix_complete idx (if is_root prefix then [] else dir_prefix prefix) sorted))
  where
    guard : (b c : Bool) → (b ≡ true) ⊎ (c ≡ true) → (not b && not c) ≡ false
    guard true c h = refl
    guard false true h = refl
    guard false false h = ground arith
