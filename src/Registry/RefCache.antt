-- ===== src/Registry/RefCache.antt =====
-- RefCache of registry/cache/disk/cache.go: from references to digests.
pub mod Digests
use blob.Prelude.{
  ℕ, ◌+◌, ◌-◌, Bool, true, false, not, ◌&&◌, ◌||◌, Option, none, some, List, [], ◌∷◌, ltb, leb,
  ◌==◌, if◌then◌else◌, length, take, drop, ℤ, is_negative, Result, ok, err, ◌>>=◌, ◌>>◌, reject_if,
}
use blob.Prelude.Bytes.{Bytes, equal}
use blob.Cache.Disk.{DiskFile, Cache, hex_encode, prune, ensure_capacity}
use blob.Registry.Store.{
  World, Config, Stat, missing, failed, found, new_store, count_of, invalid_cache, path_of,
  stat_file, delete_by_path, read_file, put_entry, index_colon, is_hex, all_of,
}

pub record RefCache : Type 0 where
  pub store : Cache
  pub ttl : ℕ

-- NewRefCache
unfoldable pub new_ref_cache : World → Bytes → Config → List DiskFile → Result RefCache
unfolding new_store
new_ref_cache w dir config files = do
  reject_if (equal dir []) invalid_cache
  reject_if (is_negative config.shard_prefix_len) invalid_cache
  reject_if (is_negative config.max_bytes) invalid_cache
  reject_if (is_negative config.ref_ttl) invalid_cache
  store ← new_store w dir config files
  ok (record { store = store; ttl = count_of config.ref_ttl })

-- isValidAlgoChar
unfoldable pub is_valid_algo_char : ℕ → Bool
is_valid_algo_char b =
    (leb b'a' b && leb b b'z')
    || (leb b'A' b && leb b b'Z')
    || (leb b'0' b && leb b b'9')
    || (b == b'+' || b == b'-' || b == b'.' || b == b'_')

-- isHexChar
unfoldable pub is_hex_char : ℕ → Bool
is_hex_char b =
    (leb b'0' b && leb b b'9') || (leb b'a' b && leb b b'f') || (leb b'A' b && leb b b'F')

abbrev pub valid_at : Bytes → Option ℕ → Bool
valid_at s none = false
valid_at s (some i) =
    if ltb i 1 || i == length s - 1
    then false
    else all_of is_valid_algo_char (take i s)
      && all_of is_hex_char (drop (i + 1) s)
      && not (equal (drop (i + 1) s) [])

-- isValidDigestFormat
unfoldable pub is_valid_digest_format : Bytes → Bool
unfolding index_colon is_valid_algo_char is_hex_char
is_valid_digest_format s = valid_at s (index_colon s)

-- A reference's key is its SHA-256 in hexadecimal digits.
unfoldable pub ref_key : (Bytes → Bytes) → Bytes → Bytes
unfolding hex_encode
ref_key sha256 ref = hex_encode (sha256 ref)

-- RefCache.path
unfoldable pub ref_path : (Bytes → Bytes) → RefCache → Bytes → Bytes
unfolding ref_key path_of
ref_path sha256 c ref = path_of c.store (ref_key sha256 ref)

abbrev pub with_store : RefCache → Cache → RefCache
with_store c store = record c { store = store }

-- deleteByPath, whose error GetDigest does not look at
abbrev pub dropped : World → Bytes → RefCache → RefCache
dropped w path c = with_store c (delete_by_path w path c.store).1

-- The file's content, where it has the form of a digest.
abbrev pub checked_digest : World → Bytes → RefCache → Option Bytes → Option Bytes × RefCache
checked_digest w path c none = (none, c)
checked_digest w path c (some dgst) =
    if is_valid_digest_format dgst then (some dgst, c) else (none, dropped w path c)

abbrev pub read_digest : World → Bytes → RefCache → Option Bytes × RefCache
read_digest w path c = checked_digest w path c (read_file w path c.store)

-- time.Since(info.ModTime()) > c.ttl
abbrev pub is_expired : World → RefCache → DiskFile → Bool
is_expired w c f = ltb c.ttl (w.now - f.mod_time)

abbrev pub fresh_digest : World → Bytes → RefCache → Stat → Option Bytes × RefCache
fresh_digest w path c (found f) =
    if is_expired w c f then (none, dropped w path c) else read_digest w path c
fresh_digest w path c s = (none, c)

-- GetDigest. Without a TTL no age is looked at.
unfoldable pub get_digest : (Bytes → Bytes) → World → RefCache → Bytes → Option Bytes × RefCache
unfolding ref_path delete_by_path is_valid_digest_format stat_file
get_digest sha256 w c ref =
    let path = ref_path sha256 c ref in
    elim w.open_root [
      | some e ↦ (none, c)
      | none ↦
          (if ltb 0 c.ttl
            then fresh_digest w path c (stat_file w path c.store)
            else read_digest w path c)
    ]

-- "ref-"
abbrev pub ref_stem : Bytes
ref_stem = b'r' ∷ b'e' ∷ b'f' ∷ b'-' ∷ []

-- PutDigest
unfoldable pub put_digest :
    (Bytes → Bytes) → World → RefCache → Bytes → Bytes → Result (Unit {0}) × RefCache
unfolding ref_key put_entry
put_digest sha256 w c ref dgst =
    let put = put_entry w ref_stem (ref_key sha256 ref) dgst (ok tt) c.store in
    (put.0, with_store c put.1)

-- RefCache.Delete
unfoldable pub delete_digest :
    (Bytes → Bytes) → World → RefCache → Bytes → Result (Unit {0}) × RefCache
unfolding ref_path delete_by_path
delete_digest sha256 w c ref =
    let done = delete_by_path w (ref_path sha256 c ref) c.store in (done.0, with_store c done.1)

-- RefCache.Prune
unfoldable pub prune_digests : World → ℤ → RefCache → Result ℕ × RefCache
unfolding prune
prune_digests w target c = let done = prune w.faults target c.store in (done.0, with_store c done.1)

-- RefCache.ensureCapacity
unfoldable pub ensure_digest_capacity : World → ℕ → RefCache → Result Bool × RefCache
unfolding ensure_capacity
ensure_digest_capacity w need c =
    let done = ensure_capacity w.faults need c.store in (done.0, with_store c done.1)
