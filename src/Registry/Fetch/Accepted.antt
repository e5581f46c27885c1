-- ===== src/Registry/Fetch/Accepted.antt =====
-- The manifest that Fetch of registry/fetch.go returns: where it comes from, and what the policies say.
use blob.Prelude.{
  if◌then◌else◌, ◌>>◌, ◌≡◌, refl, sym, ap, ◌∙◌, Bool, true, false, ◌⊎◌, inl, inr, Option, none,
  some, List, [], ◌∷◌, arith, Error, Result, ok, err, >>=-eq-ok, All,
}
use mathlib.Core.Path.{subst}
use blob.Prelude.Bytes.{Bytes}
use blob.Cache.Disk.{Cache}
use blob.Registry.Store.{World, Digests, read_file, digest_matches}
use blob.Registry.RefCache.{RefCache, ref_path, get_digest, put_digest}
use blob.Registry.RefCache.Digests.{IsAnswer, get_digest-IsAnswer}
use blob.Registry.ManifestCache.{
  manifest_path, parsed_manifest, matched_manifest, checked_manifest, get_manifest_at, get_manifest,
  put_manifest,
}
use blob.Registry.Manifest.{Descriptor, Manifest, BlobManifest, parse_blob_manifest}
use blob.Registry.Fetch.{
  PolicyRequest, Client, Caches, Fetched, parsed, map_oci, descriptor_from_digest, fetch_remote,
  use_manifest, fetch_cached, fetch_manifest_by_digest, evaluate_each, policy_request,
  evaluate_parsed, evaluate_some, evaluate_policies, keep_manifest, judged, accept, fetch_resolved,
  fetch_reference, resolve_digest, fetch, is_digest, keep_digest, resolved, resolve_remote,
  use_digest, resolve_tag, invalid_reference,
}

module _ {ℓ} {M : Type ℓ} (w : World) (d : Digests) (unmarshal : Bytes → Result M) (dgst : Bytes)
    (m : M) (raw : Bytes) where
  -- Bytes with the digest, read as a manifest.
  abbrev pub Matches : Type ℓ
  Matches = (unmarshal raw ≡ ok m) × (digest_matches d dgst raw ≡ ok true)

  parsed_manifest-Matches :
      (path bytes : Bytes) (c : Cache) (r : Result M)
      → unmarshal bytes ≡ r
      → digest_matches d dgst bytes ≡ ok true
      → (parsed_manifest w path bytes c r).0 ≡ some (m, raw)
      → (bytes ≡ raw) × Matches
  parsed_manifest-Matches path bytes c (err e) u e' h = cc
  parsed_manifest-Matches path bytes c (ok n) u match h =
      let same : bytes ≡ raw = cc in
      let read : n ≡ m = cc in
      (
        same,
        (
          subst (λ b. unmarshal b ≡ ok m) same (u ∙ ap ok read),
          subst (λ b. digest_matches d dgst b ≡ ok true) same match,
        ),
      )

  matched_manifest-Matches :
      (path bytes : Bytes) (c : Cache) (r : Result Bool)
      → digest_matches d dgst bytes ≡ r
      → (matched_manifest w unmarshal path bytes c r).0 ≡ some (m, raw)
      → (bytes ≡ raw) × Matches
  matched_manifest-Matches path bytes c (err e) r h = cc
  matched_manifest-Matches path bytes c (ok false) r h = cc
  matched_manifest-Matches path bytes c (ok true) r h =
      parsed_manifest-Matches path bytes c (unmarshal bytes) refl r h

  -- The bytes stand in the cache at the path of the digest, and match it.
  abbrev pub Stands : Cache → Type ℓ
  Stands c =
      (path : Bytes) × (manifest_path c dgst ≡ ok path)
      × ((read_file w path c ≡ some raw) × Matches)

  checked_manifest-Matches :
      (path : Bytes) (c : Cache) (o : Option Bytes)
      → read_file w path c ≡ o
      → (checked_manifest w d unmarshal dgst path c o).0 ≡ some (m, raw)
      → (read_file w path c ≡ some raw) × Matches
  checked_manifest-Matches path c none e h = cc
  checked_manifest-Matches path c (some bytes) e h =
      let (same, match) =
        matched_manifest-Matches path bytes c (digest_matches d dgst bytes) refl h in
      (e ∙ ap some same, match)

  get_manifest_at-Stands :
      (c : Cache) (r : Result Bytes)
      → manifest_path c dgst ≡ r
      → (get_manifest_at w d unmarshal dgst c r).0 ≡ some (m, raw)
      → Stands c
  get_manifest_at-Stands c (err e) at h = cc
  get_manifest_at-Stands c (ok path) at h = go w.open_root refl
    where
      go : (o : Option Error) → w.open_root ≡ o → Stands c
      go (some e) r = absurd (ground arith)
      go none r =
          (path, at, checked_manifest-Matches path c (read_file w path c) refl (ground arith))

  -- What GetManifest answers stood in the cache under the digest that is asked for, and has it.
  get_manifest-Stands :
      (c : Cache) → (get_manifest w d unmarshal c dgst).0 ≡ some (m, raw) → Stands c
  unfolding get_manifest
  get_manifest-Stands c h = get_manifest_at-Stands c (manifest_path c dgst) refl h

-- The policies accept a request.
abbrev pub Accepts : Client → PolicyRequest → Type 0
Accepts cl q = All (λ p. p q ≡ ok tt) cl.policies

-- The digest that a reference means: its own, the one that the registry resolves, or, where caches are not
-- skipped, a fresh one of the reference that stands in the cache of references.
abbrev pub Resolves : Client → Bool → Caches → Bytes → Bytes → Bytes → Type 0
Resolves cl skip_cache c ref reference dgst =
    ((is_digest reference ≡ true) × (reference ≡ dgst))
    ⊎ (((desc : Descriptor) × (cl.oci.resolve ref reference ≡ ok desc) × (desc.digest ≡ dgst))
        ⊎ ((skip_cache ≡ false)
            × (refs : RefCache) × (c.refs ≡ some refs)
            × IsAnswer cl.world (ref_path cl.sha256 refs ref) refs dgst))

-- A manifest that the registry answered for a digest, or, where caches are not skipped, one that stands in
-- the cache under the digest and has it.
abbrev pub Origin : Client → Bool → Caches → Bytes → Bytes → Manifest → Bytes → Type 0
Origin cl skip_cache c ref dgst m raw =
    ((desc : Descriptor) × (desc.digest ≡ dgst) × (cl.oci.fetch_manifest ref desc ≡ ok (m, raw)))
    ⊎ ((skip_cache ≡ false)
        × (kept : Cache) × (c.manifests ≡ some kept)
        × Stands cl.world cl.digests cl.unmarshal dgst m raw kept)

-- A manifest that may be returned for a reference, with the caches that there are.
pub record IsAccepted (cl : Client) (skip_cache : Bool) (c : Caches) (ref : Bytes)
    (b : BlobManifest) : Type 0 where
  pub reference : Bytes
  pub parses : cl.parse_reference ref ≡ ok reference
  pub dgst : Bytes
  pub resolves : Resolves cl skip_cache c ref reference dgst
  pub raw : Bytes
  pub manifest : Manifest
  pub reads : parse_blob_manifest cl.parse_time manifest dgst ≡ ok b
  pub origin : Origin cl skip_cache c ref dgst manifest raw
  pub accepted : Accepts cl (policy_request ref dgst b raw)

evaluate_each-All :
    (ps : List (PolicyRequest → Result (Unit {0}))) (q : PolicyRequest) (u : Unit)
    → evaluate_each ps q ≡ ok u
    → All (λ p. p q ≡ ok tt) ps
unfolding evaluate_each
evaluate_each-All [] q u h = tt
evaluate_each-All (p ∷ ps) q u h = go (p q) refl (evaluate_each-All ps q u)
  where
    go :
        (r : Result (Unit {0}))
        → p q ≡ r
        → (evaluate_each ps q ≡ ok u → All (λ f. f q ≡ ok tt) ps)
        → All (λ f. f q ≡ ok tt) (p ∷ ps)
    go (err e) r rest = absurd (ground arith)
    go (ok t) r rest = (r, rest (ground arith))

module _ (cl : Client) (ref : Bytes) where
  evaluate_policies-Accepts :
      (dgst : Bytes) (b : BlobManifest) (raw : Bytes) (u : Unit)
      → evaluate_policies cl ref dgst b raw ≡ ok u
      → Accepts cl (policy_request ref dgst b raw)
  unfolding evaluate_policies
  evaluate_policies-Accepts dgst b raw u h = go cl.policies refl
    where
      q : PolicyRequest
      q = policy_request ref dgst b raw

      judge :
          (r : Result Bytes)
          → evaluate_parsed cl ref dgst b raw r ≡ ok u
          → All (λ p. p q ≡ ok tt) cl.policies
      judge (err e) k = cc
      judge (ok algorithm) k = evaluate_each-All cl.policies q u k

      go :
          (ps : List (PolicyRequest → Result (Unit {0})))
          → cl.policies ≡ ps
          → All (λ p. p q ≡ ok tt) cl.policies
      go [] e = subst (All (λ p. p q ≡ ok tt)) (sym e) tt
      go (p ∷ ps) e =
          judge (cl.digests.parse dgst) (ap (evaluate_some cl ref dgst b raw) (sym e) ∙ h)

  -- A manifest that was fetched, with its origin.
  record IsSourced (skip_cache : Bool) (c : Caches) (dgst : Bytes) (f : Fetched) : Type 0 where
    manifest : Manifest
    reads : parse_blob_manifest cl.parse_time manifest dgst ≡ ok f.manifest
    origin : Origin cl skip_cache c ref dgst manifest f.raw

  parsed-IsSourced :
      (skip_cache : Bool) (c : Caches) (dgst : Bytes) (from_cache : Bool) (m : Manifest)
      (raw : Bytes) (f : Fetched)
      → Origin cl skip_cache c ref dgst m raw
      → parsed cl dgst from_cache (m, raw) ≡ ok f
      → IsSourced skip_cache c dgst f
  parsed-IsSourced skip_cache c dgst from_cache m raw f origin h =
      let (b, reads, e) = >>=-eq-ok (parse_blob_manifest cl.parse_time m dgst) _ h in
      let manifest : b ≡ f.manifest = cc in
      let bytes : raw ≡ f.raw = cc in
      record {
        manifest = m;
        reads = reads ∙ ap ok manifest;
        origin = subst (Origin cl skip_cache c ref dgst m) bytes origin;
      }

  descriptor-digest :
      (dgst : Bytes) (desc : Descriptor)
      → descriptor_from_digest cl dgst ≡ ok desc
      → desc.digest ≡ dgst
  descriptor-digest dgst desc h = go (cl.digests.parse dgst) refl
    where
      go : (r : Result Bytes) → cl.digests.parse dgst ≡ r → desc.digest ≡ dgst
      go (err e) p = absurd (ground arith)
      go (ok algorithm) p = ground arith

  map_oci-ok {ℓ} : {A : Type ℓ} (r : Result A) (a : A) → map_oci r ≡ ok a → r ≡ ok a
  map_oci-ok (err e) a h = cc
  map_oci-ok (ok b) a h = h

  fetch_remote-IsSourced :
      (skip_cache : Bool) (c : Caches) (dgst : Bytes) (f : Fetched)
      → fetch_remote cl ref dgst ≡ ok f
      → IsSourced skip_cache c dgst f
  fetch_remote-IsSourced skip_cache c dgst f h =
      let (desc, d, h1) = >>=-eq-ok (descriptor_from_digest cl dgst) _ h in
      let (got, answer, h2) = >>=-eq-ok (map_oci (cl.oci.fetch_manifest ref desc)) _ h1 in
      parsed-IsSourced skip_cache c dgst false got.0 got.1 f
        (inl (desc, descriptor-digest dgst desc d, map_oci-ok _ got answer)) h2

  fetch_cached-IsSourced :
      (dgst : Bytes) (c now : Caches) (o : Option Cache) (f : Fetched)
      → c.manifests ≡ o
      → (fetch_cached cl ref dgst now o).0 ≡ ok f
      → IsSourced false c dgst f
  fetch_cached-IsSourced dgst c now none f e h = fetch_remote-IsSourced false c dgst f h
  fetch_cached-IsSourced dgst c now (some kept) f e h =
      go (get_manifest cl.world cl.digests cl.unmarshal kept dgst) refl h
    where
      go :
          (r : Option (Manifest × Bytes) × Cache)
          → get_manifest cl.world cl.digests cl.unmarshal kept dgst ≡ r
          → (use_manifest cl ref dgst now r).0 ≡ ok f
          → IsSourced false c dgst f
      go (none, rest) r k = fetch_remote-IsSourced false c dgst f k
      go (some (m, raw), rest) r k =
          parsed-IsSourced false c dgst true m raw f
            (inr (
              refl,
              kept,
              e,
              get_manifest-Stands cl.world cl.digests cl.unmarshal dgst m raw kept
                  (ap (λ (x : Option (Manifest × Bytes) × Cache). x.0) r),
            ))
            k

  fetch_manifest_by_digest-IsSourced :
      (skip_cache : Bool) (dgst : Bytes) (c now : Caches) (f : Fetched)
      → now.manifests ≡ c.manifests
      → (fetch_manifest_by_digest cl skip_cache ref dgst now).0 ≡ ok f
      → IsSourced skip_cache c dgst f
  unfolding fetch_manifest_by_digest
  fetch_manifest_by_digest-IsSourced true dgst c now f e h = fetch_remote-IsSourced true c dgst f h
  fetch_manifest_by_digest-IsSourced false dgst c now f e h =
      fetch_cached-IsSourced dgst c now now.manifests f (sym e) h

  keep_manifest-eq :
      (dgst : Bytes) (f : Fetched) (c : Caches) (keep : Bool) (o : Option Cache) (b : BlobManifest)
      → (keep_manifest cl dgst f c keep o).0 ≡ ok b
      → f.manifest ≡ b
  keep_manifest-eq dgst f c false none b h = cc
  keep_manifest-eq dgst f c true none b h = cc
  keep_manifest-eq dgst f c false (some store) b h = cc
  keep_manifest-eq dgst f c true (some store) b h =
      let (u, a, e) = >>=-eq-ok (put_manifest cl.world cl.digests store dgst f.raw).0 _ h in cc

  -- A manifest, its digest and its bytes, and what the policies say.
  record IsJudged (skip_cache : Bool) (c : Caches) (dgst : Bytes) (b : BlobManifest) : Type 0 where
    raw : Bytes
    manifest : Manifest
    reads : parse_blob_manifest cl.parse_time manifest dgst ≡ ok b
    origin : Origin cl skip_cache c ref dgst manifest raw
    accepted : Accepts cl (policy_request ref dgst b raw)

  accept-IsJudged :
      (skip_cache : Bool) (c : Caches) (dgst : Bytes) (r : Result Fetched × Caches)
      (b : BlobManifest)
      → ((f : Fetched) → r.0 ≡ ok f → IsSourced skip_cache c dgst f)
      → (accept cl skip_cache ref dgst r).0 ≡ ok b
      → IsJudged skip_cache c dgst b
  accept-IsJudged skip_cache c dgst (err e, now) b sourced h = cc
  accept-IsJudged skip_cache c dgst (ok f, now) b sourced h =
      go (evaluate_policies cl ref dgst f.manifest f.raw) refl h
    where
      go :
          (r : Result (Unit {0}))
          → evaluate_policies cl ref dgst f.manifest f.raw ≡ r
          → (judged cl skip_cache dgst f now r).0 ≡ ok b
          → IsJudged skip_cache c dgst b
      go (err e) r k = cc
      go (ok u) r k =
          let same = keep_manifest-eq dgst f now _ now.manifests b k in
          let from = sourced f refl in
          record {
            raw = f.raw;
            manifest = from.manifest;
            reads = from.reads ∙ ap ok same;
            origin = from.origin;
            accepted =
                subst (λ m. Accepts cl (policy_request ref dgst m f.raw)) same
                  (evaluate_policies-Accepts dgst f.manifest f.raw u r);
          }

  -- A digest that is resolved, and the cache of manifests as it was
  abbrev Resolved : Bool → Caches → Bytes → Result Bytes × Caches → Type 0
  Resolved skip_cache c reference (err e, now) = now.manifests ≡ c.manifests
  Resolved skip_cache c reference (ok dgst, now) =
      (now.manifests ≡ c.manifests) × Resolves cl skip_cache c ref reference dgst

  resolve_remote-Resolved :
      (skip_cache : Bool) (c now : Caches) (reference : Bytes)
      → now.manifests ≡ c.manifests
      → Resolved skip_cache c reference (resolve_remote cl ref reference now)
  resolve_remote-Resolved skip_cache c now reference same = go (cl.oci.resolve ref reference) refl
    where
      put :
          (desc : Descriptor) (r : Result (Unit {0}) × RefCache)
          → cl.oci.resolve ref reference ≡ ok desc
          → Resolved skip_cache c reference (r.0 >> ok desc.digest, record now { refs = some r.1 })
      put desc (err e, refs) answer = same
      put desc (ok u, refs) answer = (same, inr (inl (desc, answer, refl)))

      kept :
          (desc : Descriptor) (o : Option RefCache)
          → cl.oci.resolve ref reference ≡ ok desc
          → Resolved skip_cache c reference (keep_digest cl ref desc.digest now o)
      kept desc none answer = (same, inr (inl (desc, answer, refl)))
      kept desc (some refs) answer =
          put desc (put_digest cl.sha256 cl.world refs ref desc.digest) answer

      go :
          (r : Result Descriptor)
          → cl.oci.resolve ref reference ≡ r
          → Resolved skip_cache c reference (resolved cl ref now r)
      go (err e) answer = same
      go (ok desc) answer = kept desc now.refs answer

  resolve_tag-Resolved :
      (c : Caches) (reference : Bytes) (o : Option RefCache)
      → c.refs ≡ o
      → Resolved false c reference (resolve_tag cl ref reference c o)
  resolve_tag-Resolved c reference none e = resolve_remote-Resolved false c c reference refl
  resolve_tag-Resolved c reference (some refs) e = go (get_digest cl.sha256 cl.world refs ref) refl
    where
      go :
          (r : Option Bytes × RefCache)
          → get_digest cl.sha256 cl.world refs ref ≡ r
          → Resolved false c reference (use_digest cl ref reference c r)
      go (none, rest) a =
          resolve_remote-Resolved false c (record c { refs = some rest }) reference refl
      go (some dgst, rest) a = (
        refl,
        inr (
            inr (
              refl,
              refs,
              e,
              get_digest-IsAnswer cl.sha256 cl.world refs ref dgst
                  (ap (λ (x : Option Bytes × RefCache). x.0) a),
            )),
      )

  resolve_digest-Resolved :
      (skip_cache : Bool) (c : Caches) (reference : Bytes)
      → Resolved skip_cache c reference (resolve_digest cl skip_cache ref reference c)
  unfolding resolve_digest
  resolve_digest-Resolved skip_cache c reference = go (is_digest reference) refl skip_cache
    where
      go :
          (b : Bool)
          → is_digest reference ≡ b
          → (skip : Bool)
          → Resolved skip c reference (
              if b
              then (ok reference, c)
              else if skip
              then resolve_remote cl ref reference c
              else resolve_tag cl ref reference c c.refs)
      go true e skip = (refl, inl (e, refl))
      go false e true = resolve_remote-Resolved true c c reference refl
      go false e false = resolve_tag-Resolved c reference c.refs refl

  fetch_resolved-IsAccepted :
      (skip_cache : Bool) (c : Caches) (reference : Bytes) (r : Result Bytes × Caches)
      (b : BlobManifest)
      → cl.parse_reference ref ≡ ok reference
      → Resolved skip_cache c reference r
      → (fetch_resolved cl skip_cache ref r).0 ≡ ok b
      → IsAccepted cl skip_cache c ref b
  fetch_resolved-IsAccepted skip_cache c reference (err e, now) b parses res h = cc
  fetch_resolved-IsAccepted skip_cache c reference (ok dgst, now) b parses res h =
      let j =
        accept-IsJudged skip_cache c dgst (fetch_manifest_by_digest cl skip_cache ref dgst now) b
          (λ f e. fetch_manifest_by_digest-IsSourced skip_cache dgst c now f res.0 e) h in
      record {
        reference = reference;
        parses = parses;
        dgst = dgst;
        resolves = res.1;
        raw = j.raw;
        manifest = j.manifest;
        reads = j.reads;
        origin = j.origin;
        accepted = j.accepted;
      }

  -- A manifest that Fetch returns is that of a digest which the reference means: its own one, the one that
  -- the registry resolves, or the one in the cache of references, where it has the form of a digest and is
  -- not older than the cache allows. It is read from bytes that the registry answered for that digest, or
  -- that stood in the cache of manifests at the path of the digest and have it. Caches that are skipped
  -- give neither. Every policy of the client accepts the manifest with the digest and the size of the bytes.
  pub fetch-IsAccepted :
      (skip_cache : Bool) (c : Caches) (b : BlobManifest)
      → (fetch cl skip_cache ref c).0 ≡ ok b
      → IsAccepted cl skip_cache c ref b
  unfolding fetch
  fetch-IsAccepted skip_cache c b h = go (cl.parse_reference ref) refl h
    where
      go :
          (r : Result Bytes)
          → cl.parse_reference ref ≡ r
          → (let p : Result Bytes = elim r [
            | err e ↦ err invalid_reference
            | ok reference ↦ ok reference
          ] in
              fetch_reference cl skip_cache ref c p).0
            ≡ ok b
          → IsAccepted cl skip_cache c ref b
      go (err e) p k = cc
      go (ok []) p k = cc
      go (ok (x ∷ xs)) p k =
          fetch_resolved-IsAccepted skip_cache c (x ∷ xs)
            (resolve_digest cl skip_cache ref (x ∷ xs) c) b p
            (resolve_digest-Resolved skip_cache c (x ∷ xs)) k
