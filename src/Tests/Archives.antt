-- ===== src/Tests/Archives.antt =====
-- Queries of an archive on concrete data.
use blob.Prelude.{◌≡◌, refl, true, false, Option, none, some}
use blob.Prelude.Bytes.{Bytes, equal, compare_bytes}
use blob.FilePath.{
  dot_path, normalize_path, valid_path, valid_string, split, join, non_empty, trim_left, trim_right,
  lead, valid_from,
}
use blob.Index.{lookup_view, lookup_loop}
use blob.Archive.{CacheView, file_stats, read_file}
use blob.Archive.Contents.{IsGood, cached_content, read_file-IsGood}
use blob.Tests.Samples.{three_index, view_c, path_b, path_c, toy_reader, toy_sum}

b-not_root : equal path_b dot_path ≡ false
unfolding equal
b-not_root = refl

b-valid : valid_path (normalize_path path_b) ≡ true
unfolding valid_path normalize_path equal valid_string valid_from trim_right trim_left non_empty
    split join lead
b-valid = refl

b-no_file : file_stats (lookup_view three_index (normalize_path path_b)) ≡ none
unfolding lookup_view normalize_path compare_bytes lookup_loop trim_right trim_left non_empty split
    join
b-no_file = refl

b-valid_path : valid_path path_b ≡ true
unfolding valid_path equal valid_string valid_from lead split
b-valid_path = refl

-- An empty cache
abbrev empty_cache : Bytes → Option CacheView
empty_cache hash = some (record { before = none; inside = none })

c-valid : valid_path path_c ≡ true
unfolding valid_path equal valid_string valid_from lead split
c-valid = refl

c-found : lookup_view three_index path_c ≡ some view_c
unfolding lookup_view compare_bytes lookup_loop
c-found = refl

read_file-IsGood_example :
    IsGood toy_sum view_c.hash
      (cached_content (empty_cache view_c.hash))
      (read_file three_index toy_reader empty_cache path_c)
read_file-IsGood_example =
    read_file-IsGood three_index toy_reader empty_cache path_c view_c c-valid c-found (λ h. refl)
