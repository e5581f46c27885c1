-- ===== src/Tests/Caches.antt =====
-- The disk cache on concrete data.
use blob.Prelude.{
  ℕ, ◌≡◌, refl, arith, inr, false, none, some, List, [], ◌∷◌, pos, not_exist, ok, err,
}
use blob.Prelude.Bytes.{Bytes, equal}
use blob.Cache.Disk.{
  DiskFile, Cache, no_faults, hex_encode, path_of, find_file, size_of, prune_dir, prune, get, put,
}
use blob.Cache.Disk.Files.{Distinct}
use blob.Cache.Disk.Pruning.{IsPruned, prune_dir-IsPruned}
use blob.Cache.Disk.Accounts.{IsCounted, Pruning, HasRoom, prune-Pruning, put-IsCounted}
use blob.Cache.Disk.Faulty.{IsLarge, put-loses}

abbrev old_file : DiskFile
old_file = record { path = b'/' ∷ b'0' ∷ b'1' ∷ []; content = 1 ∷ 2 ∷ 3 ∷ []; mod_time = 1 }

abbrev young_file : DiskFile
young_file = record { path = b'/' ∷ b'0' ∷ b'2' ∷ []; content = 4 ∷ 5 ∷ []; mod_time = 2 }

abbrev two_files : List DiskFile
two_files = young_file ∷ old_file ∷ []

abbrev temp_path : Bytes
temp_path = b'/' ∷ b't' ∷ []

-- A flat cache of 5 bytes under the root, of at most `max` bytes
abbrev sample_cache : ℕ → Cache
sample_cache max = record {
  dir = [];
  shard_prefix_len = 0;
  max_bytes = max;
  bytes = pos 5;
  files = two_files;
}

two-Distinct : Distinct two_files
unfolding equal
two-Distinct = ((refl, tt), (tt, tt))

prune_dir-IsPruned_example : IsPruned 2 (size_of two_files) (prune_dir no_faults 2 two_files)
prune_dir-IsPruned_example = prune_dir-IsPruned 2 two_files two-Distinct

prune-Pruning_example : Pruning 2 (sample_cache 9) (prune no_faults (pos 2) (sample_cache 9))
prune-Pruning_example = prune-Pruning 2 (sample_cache 9) two-Distinct

sample-IsCounted : (max : ℕ) → IsCounted (sample_cache max)
unfolding size_of
sample-IsCounted max = record { distinct = two-Distinct; counted = refl }

abbrev new_path : Bytes
new_path = b'/' ∷ b'0' ∷ b'3' ∷ []

path-new : (max : ℕ) → path_of (sample_cache max) (3 ∷ []) ≡ ok new_path
unfolding path_of hex_encode
path-new max = refl

new-absent : find_file new_path two_files ≡ none
unfolding find_file equal
new-absent = refl

temp-absent : find_file temp_path two_files ≡ none
unfolding find_file equal
temp-absent = refl

nine-HasRoom : HasRoom (sample_cache 9) 3
unfolding size_of
nine-HasRoom = record { room = inr (omega arith) }

put-IsCounted_example :
    ((put no_faults temp_path 7 (sample_cache 9) (3 ∷ []) (7 ∷ 8 ∷ 9 ∷ [])).0 ≡ ok tt)
    × IsCounted (put no_faults temp_path 7 (sample_cache 9) (3 ∷ []) (7 ∷ 8 ∷ 9 ∷ [])).1
    × (get (put no_faults temp_path 7 (sample_cache 9) (3 ∷ []) (7 ∷ 8 ∷ 9 ∷ [])).1 (3 ∷ [])
        ≡ some (7 ∷ 8 ∷ 9 ∷ []))
put-IsCounted_example =
    put-IsCounted (sample_cache 9) temp_path 7 (3 ∷ []) new_path (7 ∷ 8 ∷ 9 ∷ [])
      (sample-IsCounted 9) (path-new 9) new-absent temp-absent nine-HasRoom

temp-other : equal temp_path new_path ≡ false
unfolding equal
temp-other = refl

five-IsLarge : IsLarge (sample_cache 5) 3
unfolding size_of
five-IsLarge = record { fits = omega arith; full = omega arith; large = omega arith }

put-loses_example :
    (put no_faults temp_path 7 (sample_cache 5) (3 ∷ []) (7 ∷ 8 ∷ 9 ∷ [])).0 ≡ err not_exist
put-loses_example =
    put-loses (sample_cache 5) temp_path 7 (3 ∷ []) new_path (7 ∷ 8 ∷ 9 ∷ []) (sample-IsCounted 5)
      (path-new 5) new-absent temp-absent temp-other five-IsLarge
