-- ===== src/Tests/Blocks.antt =====
-- The block cache on concrete data.
use blob.Prelude.{
  ℕ, zero, suc, ◌*◌, ◌<◌, ◌≡◌, refl, arith, inr, false, none, some, [], ◌∷◌, pos, drop, length, ok,
  eof,
}
use blob.Prelude.Bytes.{Bytes, equal, equal_iff}
use blob.Cache.Disk.{DiskFile, Cache, no_faults, hex_encode, find_file, size_of}
use blob.Cache.Block.{
  World, CachedSource, put_uint64, block_key_hex, path_for_key, block_path, block_len, get_block,
  read_at,
}
use blob.ByteSource.{ByteSource, direct_read, Holds}
use blob.Cache.Block.Through.{block_of, Suits, Coherent, read_at-direct}
use blob.Cache.Block.Counts.{IsSound, get_block-IsSound}

abbrev pub five_bytes : Bytes
five_bytes = 1 ∷ 2 ∷ 3 ∷ 4 ∷ 5 ∷ []

abbrev five_source : ByteSource
five_source = record {
  size = 5;
  source_id = 7 ∷ [];
  read_at = direct_read five_bytes;
  read_range = none;
}

-- Blocks of two bytes, read through the cache without a limit
abbrev by_twos : CachedSource
by_twos = record { src = five_source; source_id = 7 ∷ []; block_size = 2; max_blocks_per_read = 0 }

-- The hash is the last byte, which is the index of the block.
abbrev small_world : World
small_world = record {
  faults = no_faults;
  unreadable = λ path. none;
  temp = λ i. b't' ∷ [];
  now = 3;
  sha256 = drop 16;
}

-- The second block is cached, and a file of a wrong length lies under the name of the third.
abbrev second_block : DiskFile
second_block = record { path = b'/' ∷ b'0' ∷ b'1' ∷ []; content = 3 ∷ 4 ∷ []; mod_time = 1 }

abbrev torn_block : DiskFile
torn_block = record { path = b'/' ∷ b'0' ∷ b'2' ∷ []; content = 9 ∷ 9 ∷ 9 ∷ []; mod_time = 2 }

abbrev block_cache : Cache
block_cache = record {
  dir = [];
  shard_prefix_len = 0;
  max_bytes = 6;
  bytes = pos 5;
  files = second_block ∷ torn_block ∷ [];
}

five-Holds : Holds five_source five_bytes
five-Holds = record { size = refl; reads = λ p off full inside. refl; ranges = λ r off n e. cc }

below_three : (i : ℕ) → i * 2 < 5 → i < 3
below_three i h = omega arith

no_path : (x y : Bytes) → equal x y ≡ false → x ≡ y → ⊥
no_path x y h e = cc ((equal_iff x y).1 e)

small-apart :
    (i j : ℕ)
    → i < 3
    → j < 3
    → block_path small_world by_twos [] 0 i ≡ block_path small_world by_twos [] 0 j
    → i ≡ j
unfolding block_path block_key_hex path_for_key put_uint64 hex_encode equal
small-apart zero zero h k e = refl
small-apart (suc zero) (suc zero) h k e = refl
small-apart (suc (suc zero)) (suc (suc zero)) h k e = refl
small-apart zero (suc zero) h k e = absurd (no_path _ _ refl e)
small-apart zero (suc (suc zero)) h k e = absurd (no_path _ _ refl e)
small-apart (suc zero) zero h k e = absurd (no_path _ _ refl e)
small-apart (suc zero) (suc (suc zero)) h k e = absurd (no_path _ _ refl e)
small-apart (suc (suc zero)) zero h k e = absurd (no_path _ _ refl e)
small-apart (suc (suc zero)) (suc zero) h k e = absurd (no_path _ _ refl e)
small-apart (suc (suc (suc i))) j h k e = absurd (omega arith)
small-apart zero (suc (suc (suc j))) h k e = absurd (omega arith)
small-apart (suc zero) (suc (suc (suc j))) h k e = absurd (omega arith)
small-apart (suc (suc zero)) (suc (suc (suc j))) h k e = absurd (omega arith)

small-Suits : Suits small_world by_twos five_bytes [] 0
unfolding block_path path_for_key equal
small-Suits = record {
  sized = omega arith;
  holds = five-Holds;
  apart = λ i j h k e. small-apart i j (below_three i h) (below_three j k) e;
  temps = λ i j. refl;
  readable = λ i. refl;
}

coherent_blocks :
    (i : ℕ) (f : DiskFile)
    → i < 3
    → find_file (block_path small_world by_twos [] 0 i) block_cache.files ≡ some f
    → length f.content ≡ block_len by_twos i
    → f.content ≡ block_of by_twos five_bytes i
unfolding find_file equal block_path block_key_hex path_for_key put_uint64 hex_encode
coherent_blocks zero f h e k = cc
coherent_blocks (suc zero) f h e k = ground arith
coherent_blocks (suc (suc zero)) f h e k = absurd (ground arith)
coherent_blocks (suc (suc (suc i))) f h e k = absurd (omega arith)

small-Coherent : Coherent small_world by_twos five_bytes [] 0 block_cache
small-Coherent = record {
  dir_eq = refl;
  shard_eq = refl;
  blocks = λ i f h e k. coherent_blocks i f (below_three i h) e k;
}

read_at-direct_example :
    ((read_at small_world by_twos (0 ∷ 0 ∷ 0 ∷ 0 ∷ 0 ∷ []) (pos 1) block_cache).0
      ≡ direct_read five_bytes (0 ∷ 0 ∷ 0 ∷ 0 ∷ 0 ∷ []) 1)
    × Coherent small_world by_twos five_bytes [] 0
        (read_at small_world by_twos (0 ∷ 0 ∷ 0 ∷ 0 ∷ 0 ∷ []) (pos 1) block_cache).1
read_at-direct_example =
    read_at-direct small_world by_twos five_bytes [] 0 small-Suits 0 (0 ∷ 0 ∷ 0 ∷ 0 ∷ []) 1
      block_cache small-Coherent

two-blocks_read :
    direct_read five_bytes (0 ∷ 0 ∷ 0 ∷ 0 ∷ 0 ∷ []) 1
    ≡ record { count = 4; buffer = 2 ∷ 3 ∷ 4 ∷ 5 ∷ 0 ∷ []; error = some eof }
two-blocks_read = refl

block_cache-IsSound : IsSound block_cache
unfolding size_of equal
block_cache-IsSound = record {
  counted = record { distinct = ((refl, tt), (tt, tt)); counted = refl };
  bounded = inr (omega arith);
}

temp-absent : find_file (small_world.temp 2) block_cache.files ≡ none
unfolding find_file equal
temp-absent = refl

get_block-IsSound_example : IsSound (get_block small_world by_twos 2 1 (ok (5 ∷ [])) block_cache).1
get_block-IsSound_example =
    get_block-IsSound small_world by_twos 2 1 (ok (5 ∷ [])) block_cache refl block_cache-IsSound
      temp-absent
