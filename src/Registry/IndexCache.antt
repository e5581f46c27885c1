-- ===== src/Registry/IndexCache.antt =====
-- IndexCache of registry/cache/disk/cache.go: from digests to index blobs.
use blob.Prelude.{
  ℕ, Bool, true, false, Option, none, some, List, [], ◌∷◌, ℤ, Result, ok, err, ◌>>=◌,
}
use blob.Prelude.Bytes.{Bytes}
use blob.Cache.Disk.{DiskFile, Cache, prune, ensure_capacity}
use blob.Registry.Store.{
  World, Digests, Config, new_store, digest_mismatch, path_of, delete_by_path, read_file, put_entry,
  digest_matches, sanitize_hex_digest,
}

abbrev pub IndexCache : Type 0
IndexCache = Cache

-- NewIndexCache
unfoldable pub new_index_cache : World → Bytes → Config → List DiskFile → Result IndexCache
unfolding new_store
new_index_cache w dir config files = new_store w dir config files

-- IndexCache.path
unfoldable pub index_path : IndexCache → Bytes → Result Bytes
unfolding sanitize_hex_digest path_of
index_path c dgst = do hex_hash ← sanitize_hex_digest dgst; ok (path_of c hex_hash)

-- The content, where it has the digest; else the entry is deleted.
abbrev pub matched_index :
    World → Bytes → Bytes → IndexCache → Result Bool → Option Bytes × IndexCache
matched_index w path raw c (ok true) = (some raw, c)
matched_index w path raw c r = (none, (delete_by_path w path c).1)

abbrev pub checked_index :
    World → Digests → Bytes → Bytes → IndexCache → Option Bytes → Option Bytes × IndexCache
checked_index w d dgst path c none = (none, c)
checked_index w d dgst path c (some raw) = matched_index w path raw c (digest_matches d dgst raw)

abbrev pub get_index_at :
    World → Digests → Bytes → IndexCache → Result Bytes → Option Bytes × IndexCache
get_index_at w d dgst c (err e) = (none, c)
get_index_at w d dgst c (ok path) = elim w.open_root [
  | some e ↦ (none, c)
  | none ↦ checked_index w d dgst path c (read_file w path c)
]

-- GetIndex
unfoldable pub get_index : World → Digests → IndexCache → Bytes → Option Bytes × IndexCache
unfolding index_path digest_matches delete_by_path
get_index w d c dgst = get_index_at w d dgst c (index_path c dgst)

-- "index-"
abbrev pub index_stem : Bytes
index_stem = b'i' ∷ b'n' ∷ b'd' ∷ b'e' ∷ b'x' ∷ b'-' ∷ []

-- What PutIndex asks of a new entry.
abbrev pub require_match : Result Bool → Result (Unit {0})
require_match (ok true) = ok tt
require_match (ok false) = err digest_mismatch
require_match (err e) = err e

abbrev pub put_index_at :
    World → Digests → Bytes → Bytes → IndexCache → Result Bytes → Result (Unit {0}) × IndexCache
put_index_at w d dgst raw c (err e) = (err e, c)
put_index_at w d dgst raw c (ok hex_hash) =
    put_entry w index_stem hex_hash raw (require_match (digest_matches d dgst raw)) c

-- PutIndex
unfoldable pub put_index :
    World → Digests → IndexCache → Bytes → Bytes → Result (Unit {0}) × IndexCache
unfolding sanitize_hex_digest digest_matches put_entry
put_index w d c dgst raw = put_index_at w d dgst raw c (sanitize_hex_digest dgst)

abbrev pub delete_index_at : World → IndexCache → Result Bytes → Result (Unit {0}) × IndexCache
delete_index_at w c (err e) = (err e, c)
delete_index_at w c (ok path) = delete_by_path w path c

-- IndexCache.Delete
unfoldable pub delete_index : World → IndexCache → Bytes → Result (Unit {0}) × IndexCache
unfolding index_path delete_by_path
delete_index w c dgst = delete_index_at w c (index_path c dgst)

-- IndexCache.Prune
unfoldable pub prune_indexes : World → ℤ → IndexCache → Result ℕ × IndexCache
unfolding prune
prune_indexes w target c = prune w.faults target c

-- IndexCache.ensureCapacity
unfoldable pub ensure_index_capacity : World → ℕ → IndexCache → Result Bool × IndexCache
unfolding ensure_capacity
ensure_index_capacity w need c = ensure_capacity w.faults need c
