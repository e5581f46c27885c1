-- ===== src/Registry/Pull/Matches.antt =====
-- The index that registry/pull.go returns, against its descriptor.
use blob.Prelude.{
  ◌≡◌, refl, ap, ◌∙◌, Bool, true, false, Option, none, some, arith, length, pos, Error, Result, ok,
  err, >>=-eq-ok, reject_if, Bool-cases, inl, inr,
}
use mathlib.Core.Path.{subst}
use blob.Prelude.Bytes.{Bytes}
use blob.Stream.{read_to_end}
use blob.Cache.Disk.{Cache}
use blob.Registry.IndexCache.{get_index, put_index}
use blob.Registry.Manifest.{Descriptor}
use blob.Registry.Fetch.{Client, Caches, map_oci}
use blob.Registry.Pull.{
  PullConfig, over_limit, has_digest, differs, validate_cached_index, verify_index_digest, limited,
  read_index_data, cached_index, try_index_cache, fetch_remote_index, keep_index, kept_index,
  found_index, fetch_index_blob, too_large,
}

-- An index with the digest of its descriptor, of a size within the limit.
pub record IsIndex (cl : Client) (algorithm : Bytes → Bytes) (desc : Descriptor)
    (config : PullConfig) (raw : Bytes) : Type 0 where
  pub valid : cl.digests.validate desc.digest ≡ ok tt
  pub hashed : has_digest cl algorithm desc raw ≡ true
  pub fits : over_limit config.max_index_size (pos (length raw)) ≡ false

reject_if-ok : (b : Bool) (e : Error) (u : Unit) → reject_if b e ≡ ok u → b ≡ false
reject_if-ok true e u h = cc
reject_if-ok false e u h = refl

module _ (cl : Client) (algorithm : Bytes → Bytes) (desc : Descriptor) (config : PullConfig) where
  abbrev Index : Bytes → Type 0
  Index raw = IsIndex cl algorithm desc config raw

  abbrev Validated : Bytes → Type 0
  Validated raw =
      (cl.digests.validate desc.digest ≡ ok tt) × (has_digest cl algorithm desc raw ≡ true)

  -- Where the descriptor's digest is valid, and the content has it
  validate-Validated :
      (raw : Bytes) → validate_cached_index cl algorithm raw desc ≡ true → Validated raw
  unfolding validate_cached_index
  validate-Validated raw h =
      go (differs desc.size (length raw)) refl (cl.digests.validate desc.digest) refl
    where
      go :
          (x : Bool)
          → differs desc.size (length raw) ≡ x
          → (r : Result (Unit {0})) → cl.digests.validate desc.digest ≡ r
          → Validated raw
      go true e r v = absurd (ground arith)
      go false e (err x) v = absurd (ground arith)
      go false e (ok t) v = (v, ground arith)

  verify-Validated :
      (raw : Bytes) (u : Unit) → verify_index_digest cl algorithm raw desc ≡ ok u → Validated raw
  unfolding verify_index_digest
  verify-Validated raw u h = go (cl.digests.validate desc.digest) refl
    where
      go : (r : Result (Unit {0})) → cl.digests.validate desc.digest ≡ r → Validated raw
      go (err e) v = ground arith
      go (ok t) v = (v, ground arith)

  cached_index-Index :
      (o : Option Bytes) (store : Cache) (raw : Bytes)
      → (cached_index cl algorithm desc config (o, store)).0 ≡ some raw
      → Index raw
  cached_index-Index none store raw h = cc
  cached_index-Index (some cached) store raw h =
      go (over_limit config.max_index_size (pos (length cached))) refl
        (validate_cached_index cl algorithm cached desc) refl
    where
      go :
          (x : Bool)
          → over_limit config.max_index_size (pos (length cached)) ≡ x
          → (y : Bool) → validate_cached_index cl algorithm cached desc ≡ y
          → Index raw
      go true e y f = absurd (ground arith)
      go false e false f = absurd (ground arith)
      go false e true f =
          let same : cached ≡ raw = ground arith in
          let (valid, hashed) = validate-Validated cached f in
          subst Index same (record { valid = valid; hashed = hashed; fits = e })

  fetch_remote_index-Index :
      (ref raw : Bytes) → fetch_remote_index cl algorithm ref desc config ≡ ok raw → Index raw
  unfolding fetch_remote_index read_index_data
  fetch_remote_index-Index ref raw h =
      let (reader, a, h1) = >>=-eq-ok (map_oci (cl.oci.fetch_blob ref desc)) _ h in
      let (got, b, h2) = >>=-eq-ok (read_index_data reader desc.size config.max_index_size) _ h1 in
      let (u, v, h3) = >>=-eq-ok (verify_index_digest cl algorithm got desc) _ h2 in
      let (u1, c1, b1) =
        >>=-eq-ok (reject_if (over_limit config.max_index_size desc.size) too_large) _ b in
      let (all, c2, b2) = >>=-eq-ok (read_to_end (limited config.max_index_size reader)) _ b1 in
      let (u3, c3, b3) =
        >>=-eq-ok (reject_if (over_limit config.max_index_size (pos (length all))) too_large) _
          b2 in
      let same : got ≡ raw = cc in
      let read : all ≡ raw = cc in
      let (valid, hashed) = verify-Validated got u v in
      record {
        valid = valid;
        hashed = subst (λ x. has_digest cl algorithm desc x ≡ true) same hashed;
        fits =
            subst (λ x. over_limit config.max_index_size (pos (length x)) ≡ false) read
              (reject_if-ok _ too_large u3 c3);
      }

  keep_index-eq :
      (got : Bytes) (c : Caches) (o : Option Cache) (raw : Bytes)
      → (keep_index cl desc got c o).0 ≡ ok raw
      → got ≡ raw
  keep_index-eq got c none raw h = cc
  keep_index-eq got c (some store) raw h =
      let (u, a, e) = >>=-eq-ok (put_index cl.world cl.digests store desc.digest got).0 _ h in cc

  found_index-Index :
      (ref : Bytes) (r : Option Bytes × Caches) (raw : Bytes)
      → ((b : Bytes) → r.0 ≡ some b → Index b)
      → (found_index cl algorithm ref desc config r).0 ≡ ok raw
      → Index raw
  found_index-Index ref (some got, c) raw cached h =
      let same : got ≡ raw = cc in subst Index same (cached got refl)
  found_index-Index ref (none, c) raw cached h =
      go (fetch_remote_index cl algorithm ref desc config) refl h
    where
      go :
          (r : Result Bytes)
          → fetch_remote_index cl algorithm ref desc config ≡ r
          → (kept_index cl desc c r).0 ≡ ok raw
          → Index raw
      go (err e) r k = cc
      go (ok got) r k =
          fetch_remote_index-Index ref raw (r ∙ ap ok (keep_index-eq got c c.indexes raw k))

  try_index_cache-Index :
      (c : Caches) (raw : Bytes)
      → (try_index_cache cl algorithm desc config c).0 ≡ some raw
      → Index raw
  unfolding try_index_cache
  try_index_cache-Index c raw h = go config.skip_cache refl c.indexes refl
    where
      go : (b : Bool) → config.skip_cache ≡ b → (o : Option Cache) → c.indexes ≡ o → Index raw
      go true s o e = absurd (ground arith)
      go false s none e = absurd (ground arith)
      go false s (some store) e =
          let got = get_index cl.world cl.digests store desc.digest in
          cached_index-Index got.0 got.1 raw (ground arith)

  -- The index that is returned, from the cache or the registry, has the digest of its descriptor, which
  -- is valid, and is not larger than the limit, whatever lies in the cache and whatever the registry
  -- answers.
  pub fetch_index_blob-IsIndex :
      (ref : Bytes) (c : Caches) (raw : Bytes)
      → (fetch_index_blob cl algorithm ref desc config c).0 ≡ ok raw
      → IsIndex cl algorithm desc config raw
  unfolding fetch_index_blob
  fetch_index_blob-IsIndex ref c raw h =
      elim (Bool-cases (over_limit config.max_index_size desc.size)) [
        | inl e ↦ absurd (ground arith)
        | inr e ↦
            found_index-Index ref (try_index_cache cl algorithm desc config c) raw
              (try_index_cache-Index c) (ground arith)
      ]
