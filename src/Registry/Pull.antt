-- ===== src/Registry/Pull.antt =====
-- The index of an archive in registry/pull.go: from the cache or the registry, verified by its digest.
-- The algorithm of a digest is a parameter, as the digests are.
pub mod Matches
use blob.Prelude.{
  ℕ, ◌+◌, Bool, true, false, not, ◌&&◌, ◌||◌, Option, none, some, List, [], ◌∷◌, ltb, leb, ◌==◌,
  if◌then◌else◌, length, ℤ, pos, negsuc, Error, external, hash_mismatch, Result, ok, err, ◌>>=◌,
  ◌>>◌, reject_if,
}
use blob.Prelude.Bytes.{Bytes, equal}
use blob.Stream.{Reader, limit_reader, read_to_end}
use blob.Cache.Disk.{Cache}
use blob.Registry.IndexCache.{get_index, put_index, delete_index}
use blob.Registry.Manifest.{Descriptor, BlobManifest, invalid_manifest}
use blob.Registry.Fetch.{Client, Caches, map_oci, fetch}

-- pullConfig, as far as the index is concerned
pub record PullConfig : Type 0 where
  pub skip_cache : Bool
  pub max_index_size : ℤ

-- `a > b`, of integers
abbrev pub exceeds : ℤ → ℤ → Bool
exceeds (pos a) (pos b) = ltb b a
exceeds (pos a) (negsuc b) = true
exceeds (negsuc a) (pos b) = false
exceeds (negsuc a) (negsuc b) = ltb a b

abbrev pub is_positive : ℤ → Bool
is_positive (pos n) = ltb 0 n
is_positive (negsuc n) = false

abbrev pub too_large : Error
too_large = external 80

-- A limit that is set and exceeded
abbrev pub over_limit : ℤ → ℤ → Bool
over_limit max size = is_positive max && exceeds size max

abbrev pub has_digest : Client → (Bytes → Bytes) → Descriptor → Bytes → Bool
has_digest cl algorithm desc raw =
    equal (cl.digests.from_bytes (algorithm desc.digest) raw) desc.digest

-- `size > 0 && size != length`
abbrev pub differs : ℤ → ℕ → Bool
differs (pos n) m = ltb 0 n && not (n == m)
differs (negsuc n) m = false

abbrev pub digest_valid : Client → (Bytes → Bytes) → Bytes → Descriptor → Result (Unit {0}) → Bool
digest_valid cl algorithm cached desc (err e) = false
digest_valid cl algorithm cached desc (ok u) = has_digest cl algorithm desc cached

-- validateCachedIndex
unfoldable pub validate_cached_index : Client → (Bytes → Bytes) → Bytes → Descriptor → Bool
validate_cached_index cl algorithm cached desc =
    if differs desc.size (length cached)
    then false
    else digest_valid cl algorithm cached desc (cl.digests.validate desc.digest)

-- verifyIndexDigest
unfoldable pub verify_index_digest :
    Client → (Bytes → Bytes) → Bytes → Descriptor → Result (Unit {0})
verify_index_digest cl algorithm index_data desc = elim (cl.digests.validate desc.digest) [
  | err e ↦ err invalid_manifest
  | ok u ↦ reject_if (not (has_digest cl algorithm desc index_data)) hash_mismatch
]

abbrev pub limited : ℤ → Reader → Reader
limited (pos n) r = if ltb 0 n then limit_reader (n + 1) r else r
limited (negsuc n) r = r

-- readIndexData
unfoldable pub read_index_data : Reader → ℤ → ℤ → Result Bytes
read_index_data r expected_size max_size = do
  reject_if (over_limit max_size expected_size) too_large
  raw ← read_to_end (limited max_size r)
  reject_if (over_limit max_size (pos (length raw))) too_large
  ok raw

-- What is made of a cached index: one that does not match is deleted.
abbrev pub cached_index :
    Client → (Bytes → Bytes) → Descriptor → PullConfig → Option Bytes × Cache → Option Bytes × Cache
cached_index cl algorithm desc config (none, store) = (none, store)
cached_index cl algorithm desc config (some cached, store) =
    if over_limit config.max_index_size (pos (length cached))
    then (none, store)
    else if not (validate_cached_index cl algorithm cached desc)
    then (none, (delete_index cl.world store desc.digest).1)
    else (some cached, store)

abbrev pub with_index : Caches → Option Bytes × Cache → Option Bytes × Caches
with_index c (found, store) = (found, record c { indexes = some store })

abbrev pub try_store :
    Client
    → (Bytes → Bytes)
    → Descriptor
    → PullConfig
    → Caches
    → Option Cache
    → Option Bytes × Caches
try_store cl algorithm desc config c none = (none, c)
try_store cl algorithm desc config c (some store) =
    with_index c
      (cached_index cl algorithm desc config (get_index cl.world cl.digests store desc.digest))

-- tryIndexCache
unfoldable pub try_index_cache :
    Client → (Bytes → Bytes) → Descriptor → PullConfig → Caches → Option Bytes × Caches
unfolding get_index delete_index validate_cached_index
try_index_cache cl algorithm desc config c =
    if config.skip_cache then (none, c) else try_store cl algorithm desc config c c.indexes

-- The index from the registry, verified
unfoldable pub fetch_remote_index :
    Client → (Bytes → Bytes) → Bytes → Descriptor → PullConfig → Result Bytes
unfolding read_index_data verify_index_digest
fetch_remote_index cl algorithm ref desc config = do
  reader ← map_oci (cl.oci.fetch_blob ref desc)
  index_data ← read_index_data reader desc.size config.max_index_size
  verify_index_digest cl algorithm index_data desc
  ok index_data

abbrev pub keep_index : Client → Descriptor → Bytes → Caches → Option Cache → Result Bytes × Caches
keep_index cl desc index_data c none = (ok index_data, c)
keep_index cl desc index_data c (some store) =
    let put = put_index cl.world cl.digests store desc.digest index_data in
    (put.0 >> ok index_data, record c { indexes = some put.1 })

abbrev pub kept_index : Client → Descriptor → Caches → Result Bytes → Result Bytes × Caches
kept_index cl desc c (err e) = (err e, c)
kept_index cl desc c (ok index_data) = keep_index cl desc index_data c c.indexes

abbrev pub found_index :
    Client
    → (Bytes → Bytes)
    → Bytes
    → Descriptor
    → PullConfig
    → Option Bytes × Caches
    → Result Bytes × Caches
found_index cl algorithm ref desc config (some index_data, c) = (ok index_data, c)
found_index cl algorithm ref desc config (none, c) =
    kept_index cl desc c (fetch_remote_index cl algorithm ref desc config)

-- fetchIndexBlob
unfoldable pub fetch_index_blob :
    Client → (Bytes → Bytes) → Bytes → Descriptor → PullConfig → Caches → Result Bytes × Caches
unfolding try_index_cache fetch_remote_index put_index
fetch_index_blob cl algorithm ref desc config c =
    if over_limit config.max_index_size desc.size
    then (err too_large, c)
    else found_index cl algorithm ref desc config (try_index_cache cl algorithm desc config c)

-- InspectResult
pub record InspectResult : Type 0 where
  pub manifest : BlobManifest
  pub index_data : Bytes

abbrev pub inspected : BlobManifest → Result Bytes × Caches → Result InspectResult × Caches
inspected m (err e, c) = (err e, c)
inspected m (ok raw, c) = (ok (record { manifest = m; index_data = raw }), c)

abbrev pub inspect_fetched :
    Client
    → (Bytes → Bytes)
    → Bytes
    → PullConfig
    → Result BlobManifest × Caches
    → Result InspectResult × Caches
inspect_fetched cl algorithm ref config (err e, c) = (err e, c)
inspect_fetched cl algorithm ref config (ok m, c) =
    inspected m (fetch_index_blob cl algorithm ref m.index_desc config c)

-- Inspect
unfoldable pub inspect :
    Client → (Bytes → Bytes) → PullConfig → Bytes → Caches → Result InspectResult × Caches
unfolding fetch fetch_index_blob
inspect cl algorithm config ref c =
    inspect_fetched cl algorithm ref config (fetch cl config.skip_cache ref c)
