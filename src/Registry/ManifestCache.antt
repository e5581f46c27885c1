-- ===== src/Registry/ManifestCache.antt =====
-- ManifestCache of registry/cache/disk/cache.go: from digests to manifests. The type of the
-- manifests and json.Unmarshal are parameters.
use blob.Prelude.{
  ℕ, Bool, true, false, Option, none, some, List, [], ◌∷◌, ℤ, Result, ok, err, ◌>>=◌,
}
use blob.Prelude.Bytes.{Bytes}
use blob.Cache.Disk.{DiskFile, Cache, prune, ensure_capacity}
use blob.Registry.Store.{
  World, Digests, Config, new_store, digest_mismatch, path_of, delete_by_path, read_file, put_entry,
  digest_matches, sanitize_hex_digest,
}

abbrev pub ManifestCache : Type 0
ManifestCache = Cache

-- NewManifestCache
unfoldable pub new_manifest_cache : World → Bytes → Config → List DiskFile → Result ManifestCache
unfolding new_store
new_manifest_cache w dir config files = new_store w dir config files

-- ManifestCache.path
unfoldable pub manifest_path : ManifestCache → Bytes → Result Bytes
unfolding sanitize_hex_digest path_of
manifest_path c dgst = do hex_hash ← sanitize_hex_digest dgst; ok (path_of c hex_hash)

-- The content that json.Unmarshal reads, beside the manifest; else the entry is deleted.
abbrev pub parsed_manifest {ℓ} :
    {M : Type ℓ}
    → World
    → Bytes
    → Bytes
    → ManifestCache
    → Result M
    → Option (M × Bytes) × ManifestCache
parsed_manifest w path raw c (ok m) = (some (m, raw), c)
parsed_manifest w path raw c (err e) = (none, (delete_by_path w path c).1)

abbrev pub matched_manifest {ℓ} :
    {M : Type ℓ}
    → World
    → (Bytes → Result M)
    → Bytes
    → Bytes
    → ManifestCache
    → Result Bool
    → Option (M × Bytes) × ManifestCache
matched_manifest w unmarshal path raw c (ok true) = parsed_manifest w path raw c (unmarshal raw)
matched_manifest w unmarshal path raw c r = (none, (delete_by_path w path c).1)

abbrev pub checked_manifest {ℓ} :
    {M : Type ℓ}
    → World
    → Digests
    → (Bytes → Result M)
    → Bytes
    → Bytes
    → ManifestCache
    → Option Bytes
    → Option (M × Bytes) × ManifestCache
checked_manifest w d unmarshal dgst path c none = (none, c)
checked_manifest w d unmarshal dgst path c (some raw) =
    matched_manifest w unmarshal path raw c (digest_matches d dgst raw)

abbrev pub get_manifest_at {ℓ} :
    {M : Type ℓ}
    → World
    → Digests
    → (Bytes → Result M)
    → Bytes
    → ManifestCache
    → Result Bytes
    → Option (M × Bytes) × ManifestCache
get_manifest_at w d unmarshal dgst c (err e) = (none, c)
get_manifest_at w d unmarshal dgst c (ok path) = elim w.open_root [
  | some e ↦ (none, c)
  | none ↦ checked_manifest w d unmarshal dgst path c (read_file w path c)
]

-- GetManifest
unfoldable pub get_manifest {ℓ} :
    {M : Type ℓ}
    → World
    → Digests
    → (Bytes → Result M)
    → ManifestCache
    → Bytes
    → Option (M × Bytes) × ManifestCache
unfolding manifest_path digest_matches delete_by_path
get_manifest w d unmarshal c dgst = get_manifest_at w d unmarshal dgst c (manifest_path c dgst)

-- "manifest-"
abbrev pub manifest_stem : Bytes
manifest_stem = b'm' ∷ b'a' ∷ b'n' ∷ b'i' ∷ b'f' ∷ b'e' ∷ b's' ∷ b't' ∷ b'-' ∷ []

-- What PutManifest asks of a new entry.
abbrev pub require_match : Result Bool → Result (Unit {0})
require_match (ok true) = ok tt
require_match (ok false) = err digest_mismatch
require_match (err e) = err e

abbrev pub put_manifest_at :
    World
    → Digests
    → Bytes
    → Bytes
    → ManifestCache
    → Result Bytes
    → Result (Unit {0}) × ManifestCache
put_manifest_at w d dgst raw c (err e) = (err e, c)
put_manifest_at w d dgst raw c (ok hex_hash) =
    put_entry w manifest_stem hex_hash raw (require_match (digest_matches d dgst raw)) c

-- PutManifest
unfoldable pub put_manifest :
    World → Digests → ManifestCache → Bytes → Bytes → Result (Unit {0}) × ManifestCache
unfolding sanitize_hex_digest digest_matches put_entry
put_manifest w d c dgst raw = put_manifest_at w d dgst raw c (sanitize_hex_digest dgst)

abbrev pub delete_manifest_at :
    World → ManifestCache → Result Bytes → Result (Unit {0}) × ManifestCache
delete_manifest_at w c (err e) = (err e, c)
delete_manifest_at w c (ok path) = delete_by_path w path c

-- ManifestCache.Delete
unfoldable pub delete_manifest : World → ManifestCache → Bytes → Result (Unit {0}) × ManifestCache
unfolding manifest_path delete_by_path
delete_manifest w c dgst = delete_manifest_at w c (manifest_path c dgst)

-- ManifestCache.Prune
unfoldable pub prune_manifests : World → ℤ → ManifestCache → Result ℕ × ManifestCache
unfolding prune
prune_manifests w target c = prune w.faults target c

-- ManifestCache.ensureCapacity
unfoldable pub ensure_manifest_capacity : World → ℕ → ManifestCache → Result Bool × ManifestCache
unfolding ensure_capacity
ensure_manifest_capacity w need c = ensure_capacity w.faults need c
