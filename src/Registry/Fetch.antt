-- ===== src/Registry/Fetch.antt =====
-- registry/fetch.go, with registry/ref.go, registry/policy.go and registry/oci_errors.go: a reference is
-- resolved to a digest and a manifest, through the caches. The OCI client, the policies, the parser of
-- references and the digests are parameters.
pub mod Accepted
use blob.Prelude.{
  ℕ, Bool, true, false, not, ◌&&◌, Option, none, some, List, [], ◌∷◌, ◌==◌, if◌then◌else◌, length,
  ℤ, pos, Error, external, Result, ok, err, ◌>>=◌, ◌>>◌, reject_if,
}
use blob.Prelude.Bytes.{Bytes, equal}
use blob.Stream.{Reader}
use blob.Cache.Disk.{Cache}
use blob.Registry.Store.{World, Digests, index_colon}
use blob.Registry.RefCache.{RefCache, get_digest, put_digest}
use blob.Registry.ManifestCache.{get_manifest, put_manifest, delete_manifest}
use blob.Registry.Manifest.{Descriptor, Manifest, BlobManifest, parse_blob_manifest}

-- PolicyRequest, without the client
pub record PolicyRequest : Type 0 where
  pub ref : Bytes
  pub digest : Bytes
  pub manifest : BlobManifest
  pub subject : Descriptor

-- OCIClient, as far as it is read from.
pub record OciClient : Type 0 where
  pub resolve : Bytes → Bytes → Result Descriptor
  pub fetch_manifest : Bytes → Descriptor → Result (Manifest × Bytes)
  pub fetch_blob : Bytes → Descriptor → Result Reader

-- Client, and what it calls: registry.ParseReference with the tag or digest of a reference,
-- json.Unmarshal, time.Parse, SHA-256, and the calls of the system.
pub record Client : Type 0 where
  pub oci : OciClient
  pub policies : List (PolicyRequest → Result (Unit {0}))
  pub parse_reference : Bytes → Result Bytes
  pub unmarshal : Bytes → Result Manifest
  pub parse_time : Bytes → Option ℕ
  pub sha256 : Bytes → Bytes
  pub digests : Digests
  pub world : World

-- The caches that the client has, as they stand.
pub record Caches : Type 0 where
  pub refs : Option RefCache
  pub manifests : Option Cache
  pub indexes : Option Cache

-- The sentinel errors of the client and of the OCI client below
abbrev pub invalid_reference : Error
invalid_reference = external 60

abbrev pub not_found : Error
not_found = external 61

abbrev pub referrers_unsupported : Error
referrers_unsupported = external 62

abbrev pub policy_violation : Error
policy_violation = external 63

abbrev pub oras_not_found : ℕ
oras_not_found = 70

abbrev pub oras_referrers_unsupported : ℕ
oras_referrers_unsupported = 71

-- mapOCIError
unfoldable pub map_oci_error : Error → Error
map_oci_error (external n) =
    if n == oras_not_found
    then not_found
    else if n == oras_referrers_unsupported
    then referrers_unsupported
    else external n
map_oci_error e = e

-- parseClientRef
abbrev pub parse_client_ref : Client → Bytes → Result Bytes
parse_client_ref cl ref = elim (cl.parse_reference ref) [
  | err e ↦ err invalid_reference
  | ok reference ↦ ok reference
]

-- isDigest
unfoldable pub is_digest : Bytes → Bool
unfolding index_colon
is_digest reference = elim (index_colon reference) [ none ↦ false | some i ↦ true ]

-- descriptorFromDigest
abbrev pub descriptor_from_digest : Client → Bytes → Result Descriptor
descriptor_from_digest cl dgst = elim (cl.digests.parse dgst) [
  | err e ↦ err invalid_reference
  | ok algorithm ↦ ok (record { media_type = []; digest = dgst; size = pos 0 })
]

-- The digest that the registry resolved, put into the cache of references.
abbrev pub keep_digest : Client → Bytes → Bytes → Caches → Option RefCache → Result Bytes × Caches
keep_digest cl ref digest c none = (ok digest, c)
keep_digest cl ref digest c (some refs) =
    let put = put_digest cl.sha256 cl.world refs ref digest in
    (put.0 >> ok digest, record c { refs = some put.1 })

abbrev pub resolved : Client → Bytes → Caches → Result Descriptor → Result Bytes × Caches
resolved cl ref c (err e) = (err (map_oci_error e), c)
resolved cl ref c (ok desc) = keep_digest cl ref desc.digest c c.refs

abbrev pub resolve_remote : Client → Bytes → Bytes → Caches → Result Bytes × Caches
resolve_remote cl ref reference c = resolved cl ref c (cl.oci.resolve ref reference)

abbrev pub use_digest :
    Client → Bytes → Bytes → Caches → Option Bytes × RefCache → Result Bytes × Caches
use_digest cl ref reference c (some digest, refs) = (ok digest, record c { refs = some refs })
use_digest cl ref reference c (none, refs) =
    resolve_remote cl ref reference (record c { refs = some refs })

abbrev pub resolve_tag : Client → Bytes → Bytes → Caches → Option RefCache → Result Bytes × Caches
resolve_tag cl ref reference c none = resolve_remote cl ref reference c
resolve_tag cl ref reference c (some refs) =
    use_digest cl ref reference c (get_digest cl.sha256 cl.world refs ref)

-- resolveDigest
unfoldable pub resolve_digest : Client → Bool → Bytes → Bytes → Caches → Result Bytes × Caches
unfolding get_digest put_digest is_digest map_oci_error
resolve_digest cl skip_cache ref reference c =
    if is_digest reference
    then (ok reference, c)
    else if skip_cache
    then resolve_remote cl ref reference c
    else resolve_tag cl ref reference c c.refs

-- A manifest with its bytes, and whether it comes from the cache.
pub record Fetched : Type 0 where
  pub manifest : BlobManifest
  pub raw : Bytes
  pub from_cache : Bool

abbrev pub parsed : Client → Bytes → Bool → Manifest × Bytes → Result Fetched
parsed cl dgst from_cache (m, raw) = do
  b ← parse_blob_manifest cl.parse_time m dgst
  ok (record { manifest = b; raw = raw; from_cache = from_cache })

abbrev pub map_oci {ℓ} : {A : Type ℓ} → Result A → Result A
map_oci (ok a) = ok a
map_oci (err e) = err (map_oci_error e)

abbrev pub fetch_remote : Client → Bytes → Bytes → Result Fetched
fetch_remote cl ref dgst = do
  desc ← descriptor_from_digest cl dgst
  answer ← map_oci (cl.oci.fetch_manifest ref desc)
  parsed cl dgst false answer

abbrev pub use_manifest :
    Client → Bytes → Bytes → Caches → Option (Manifest × Bytes) × Cache → Result Fetched × Caches
use_manifest cl ref dgst c (some cached, store) =
    (parsed cl dgst true cached, record c { manifests = some store })
use_manifest cl ref dgst c (none, store) =
    (fetch_remote cl ref dgst, record c { manifests = some store })

abbrev pub fetch_cached : Client → Bytes → Bytes → Caches → Option Cache → Result Fetched × Caches
fetch_cached cl ref dgst c none = (fetch_remote cl ref dgst, c)
fetch_cached cl ref dgst c (some store) =
    use_manifest cl ref dgst c (get_manifest cl.world cl.digests cl.unmarshal store dgst)

-- fetchManifestByDigest
unfoldable pub fetch_manifest_by_digest :
    Client → Bool → Bytes → Bytes → Caches → Result Fetched × Caches
unfolding get_manifest parse_blob_manifest map_oci_error
fetch_manifest_by_digest cl skip_cache ref dgst c =
    if skip_cache then (fetch_remote cl ref dgst, c) else fetch_cached cl ref dgst c c.manifests

-- The policies in their order, up to the first that rejects.
unfoldable pub evaluate_each :
    List (PolicyRequest → Result (Unit {0})) → PolicyRequest → Result (Unit {0})
evaluate_each [] q = ok tt
evaluate_each (p ∷ ps) q = elim (p q) [ err e ↦ err policy_violation | ok u ↦ evaluate_each ps q ]

abbrev pub policy_request : Bytes → Bytes → BlobManifest → Bytes → PolicyRequest
policy_request ref dgst m raw = record {
  ref = ref;
  digest = dgst;
  manifest = m;
  subject = record { media_type = m.raw.media_type; digest = dgst; size = pos (length raw) };
}

abbrev pub evaluate_parsed :
    Client → Bytes → Bytes → BlobManifest → Bytes → Result Bytes → Result (Unit {0})
evaluate_parsed cl ref dgst m raw (err e) = err invalid_reference
evaluate_parsed cl ref dgst m raw (ok algorithm) =
    evaluate_each cl.policies (policy_request ref dgst m raw)

abbrev pub evaluate_some :
    Client
    → Bytes
    → Bytes
    → BlobManifest
    → Bytes
    → List (PolicyRequest → Result (Unit {0}))
    → Result (Unit {0})
evaluate_some cl ref dgst m raw [] = ok tt
evaluate_some cl ref dgst m raw (p ∷ ps) = evaluate_parsed cl ref dgst m raw (cl.digests.parse dgst)

-- evaluatePolicies
unfoldable pub evaluate_policies : Client → Bytes → Bytes → BlobManifest → Bytes → Result (Unit {0})
unfolding evaluate_each
evaluate_policies cl ref dgst m raw = evaluate_some cl ref dgst m raw cl.policies

-- A manifest that the policies reject is deleted from the cache.
abbrev pub evict : Client → Bytes → Caches → Bool → Option Cache → Caches
evict cl dgst c true (some store) = record c {
  manifests = some (delete_manifest cl.world store dgst).1;
}
evict cl dgst c from_cache store = c

-- A manifest from the registry is put into the cache, except where caches are skipped.
abbrev pub keep_manifest :
    Client → Bytes → Fetched → Caches → Bool → Option Cache → Result BlobManifest × Caches
keep_manifest cl dgst f c true (some store) =
    let put = put_manifest cl.world cl.digests store dgst f.raw in
    (put.0 >> ok f.manifest, record c { manifests = some put.1 })
keep_manifest cl dgst f c from_remote store = (ok f.manifest, c)

abbrev pub judged :
    Client → Bool → Bytes → Fetched → Caches → Result (Unit {0}) → Result BlobManifest × Caches
judged cl skip_cache dgst f c (err e) = (err e, evict cl dgst c f.from_cache c.manifests)
judged cl skip_cache dgst f c (ok u) =
    keep_manifest cl dgst f c (not f.from_cache && not skip_cache) c.manifests

abbrev pub accept :
    Client → Bool → Bytes → Bytes → Result Fetched × Caches → Result BlobManifest × Caches
accept cl skip_cache ref dgst (err e, c) = (err e, c)
accept cl skip_cache ref dgst (ok f, c) =
    judged cl skip_cache dgst f c (evaluate_policies cl ref dgst f.manifest f.raw)

abbrev pub fetch_resolved :
    Client → Bool → Bytes → Result Bytes × Caches → Result BlobManifest × Caches
fetch_resolved cl skip_cache ref (err e, c) = (err e, c)
fetch_resolved cl skip_cache ref (ok dgst, c) =
    accept cl skip_cache ref dgst (fetch_manifest_by_digest cl skip_cache ref dgst c)

abbrev pub fetch_reference :
    Client → Bool → Bytes → Caches → Result Bytes → Result BlobManifest × Caches
fetch_reference cl skip_cache ref c (err e) = (err e, c)
fetch_reference cl skip_cache ref c (ok []) = (err invalid_reference, c)
fetch_reference cl skip_cache ref c (ok (b ∷ bs)) =
    fetch_resolved cl skip_cache ref (resolve_digest cl skip_cache ref (b ∷ bs) c)

-- Fetch
unfoldable pub fetch : Client → Bool → Bytes → Caches → Result BlobManifest × Caches
unfolding resolve_digest fetch_manifest_by_digest evaluate_policies delete_manifest put_manifest
fetch cl skip_cache ref c = fetch_reference cl skip_cache ref c (parse_client_ref cl ref)
