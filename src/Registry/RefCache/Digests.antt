-- ===== src/Registry/RefCache/Digests.antt =====
-- What the cache of references in registry/cache/disk/cache.go answers.
use mathlib.Core.Path.{subst}
use blob.Prelude.{
  ◌+◌, ◌≤◌, ◌<◌, ◌≡◌, refl, ap, ◌∙◌, Bool, true, false, ◌⊎◌, inl, inr, Option, none, some, arith,
  ltb, length, Error, ok, Bool-cases, if◌then◌else◌,
}
use blob.Prelude.Bytes.{Bytes}
use blob.Cache.Disk.{DiskFile, find_file}
use blob.Cache.Disk.Accounts.{IsCounted, HasRoom, with_file, temp_file}
use blob.Cache.Disk.Files.{find_file_self}
use blob.Registry.Store.{World, Stat, missing, failed, found, path_of, stat_file, read_file}
use blob.Registry.Store.Entries.{
  IsCalm, stat_file-found, put_entry-kept, delete_by_path-gone, first_temp, put_entry-new,
  put_entry-IsCounted,
}
use blob.Registry.RefCache.{
  RefCache, is_valid_digest_format, ref_key, ref_path, with_store, dropped, checked_digest,
  read_digest, is_expired, fresh_digest, get_digest, ref_stem, put_digest,
}

-- An answer that is as the file says, has the form of a digest, and is not too old.
pub record IsAnswer (w : World) (path : Bytes) (c : RefCache) (dgst : Bytes) : Type 0 where
  pub valid : is_valid_digest_format dgst ≡ true
  pub stored : read_file w path c.store ≡ some dgst
  pub fresh :
      (c.ttl ≡ 0)
      ⊎ ((f : DiskFile) × (stat_file w path c.store ≡ found f) × (w.now ≤ f.mod_time + c.ttl))

module _ (w : World) (path : Bytes) (c : RefCache) (dgst : Bytes) where
  abbrev Fresh : Type 0
  Fresh =
      (c.ttl ≡ 0)
      ⊎ ((f : DiskFile) × (stat_file w path c.store ≡ found f) × (w.now ≤ f.mod_time + c.ttl))

  read_digest-IsAnswer : Fresh → (read_digest w path c).0 ≡ some dgst → IsAnswer w path c dgst
  read_digest-IsAnswer fresh = go (read_file w path c.store) refl
    where
      checked :
          (raw : Bytes) (b : Bool)
          → is_valid_digest_format raw ≡ b
          → read_file w path c.store ≡ some raw
          → (if b then some raw else none) ≡ some dgst
          → IsAnswer w path c dgst
      checked raw true v e h =
          let same : raw ≡ dgst = cc in
          record {
            valid = subst (λ x. is_valid_digest_format x ≡ true) same v;
            stored = e ∙ h;
            fresh = fresh;
          }
      checked raw false v e h = cc

      go :
          (o : Option Bytes)
          → read_file w path c.store ≡ o
          → (checked_digest w path c o).0 ≡ some dgst
          → IsAnswer w path c dgst
      go none e h = cc
      go (some raw) e h = elim (Bool-cases (is_valid_digest_format raw)) [
        | inl v ↦ checked raw true v e (ground arith)
        | inr v ↦ checked raw false v e (ground arith)
      ]

  fresh_digest-IsAnswer :
      (s : Stat)
      → stat_file w path c.store ≡ s
      → (fresh_digest w path c s).0 ≡ some dgst
      → IsAnswer w path c dgst
  fresh_digest-IsAnswer missing e h = cc
  fresh_digest-IsAnswer (failed x) e h = cc
  fresh_digest-IsAnswer (found f) e h = elim (Bool-cases (is_expired w c f)) [
    | inl old ↦ absurd (ground arith)
    | inr young ↦
        let age : w.now ≤ f.mod_time + c.ttl = ground arith in
        read_digest-IsAnswer (inr (f, e, age)) (ground arith)
  ]

-- What GetDigest answers stands in the reference's file, has the form of a digest, and is not older than
-- the TTL, where there is one, whatever lies on the disk and whatever calls fail.
pub get_digest-IsAnswer :
    (sha256 : Bytes → Bytes) (w : World) (c : RefCache) (ref dgst : Bytes)
    → (get_digest sha256 w c ref).0 ≡ some dgst
    → IsAnswer w (ref_path sha256 c ref) c dgst
unfolding get_digest
get_digest-IsAnswer sha256 w c ref dgst h = go w.open_root refl (ltb 0 c.ttl) refl
  where
    go :
        (o : Option Error)
        → w.open_root ≡ o
        → (b : Bool) → ltb 0 c.ttl ≡ b
        → IsAnswer w (ref_path sha256 c ref) c dgst
    go (some e) r b t = cc
    go none r true t =
        fresh_digest-IsAnswer w (ref_path sha256 c ref) c dgst
          (stat_file w (ref_path sha256 c ref) c.store) refl (ground arith)
    go none r false t =
        read_digest-IsAnswer w (ref_path sha256 c ref) c dgst (inl (ground arith)) (ground arith)

-- An entry that GetDigest does not accept: too old, or not of the form of a digest.
abbrev pub IsBad : World → RefCache → DiskFile → Type 0
IsBad w c f =
    ((0 < c.ttl) × (f.mod_time + c.ttl < w.now)) ⊎ (is_valid_digest_format f.content ≡ false)

-- No answer, and no entry.
abbrev pub Refused : Bytes → Option Bytes × RefCache → Type 0
Refused path r = (r.0 ≡ none) × (find_file path r.1.store.files ≡ none)

module _ (w : World) (path : Bytes) (c : RefCache) (f : DiskFile) (calm : IsCalm w)
    (there : find_file path c.store.files ≡ some f) where
  dropped-Refused : Refused path (none, dropped w path c)
  dropped-Refused = (refl, delete_by_path-gone w path c.store calm)

  read_digest-Refused :
      is_valid_digest_format f.content ≡ false → Refused path (read_digest w path c)
  read_digest-Refused bad =
      rw (calm.unreadable path, read_file)
        (rw (there, read_file) (rw (bad, checked_digest) dropped-Refused))

  get_digest-at :
      IsBad w c f
      → Refused path (if ltb 0 c.ttl then fresh_digest w path c (found f) else read_digest w path c)
  get_digest-at bad = go (ltb 0 c.ttl) refl (is_expired w c f) refl bad
    where
      go :
          (x : Bool)
          → ltb 0 c.ttl ≡ x
          → (y : Bool) → is_expired w c f ≡ y
          → IsBad w c f
          → Refused path (if x then fresh_digest w path c (found f) else read_digest w path c)
      go true t true e b = rw (e, fresh_digest) dropped-Refused
      go true t false e (inl (limited, old)) = absurd (ground arith)
      go true t false e (inr bad) = rw (e, fresh_digest) (read_digest-Refused bad)
      go false t y e (inl (limited, old)) = absurd (ground arith)
      go false t y e (inr bad) = read_digest-Refused bad

-- Where no call fails, GetDigest answers nothing for an entry that is older than the TTL or has not the
-- form of a digest, and the entry is gone.
pub get_digest-Refused :
    (sha256 : Bytes → Bytes) (w : World) (c : RefCache) (ref : Bytes) (f : DiskFile)
    → IsCalm w
    → find_file (ref_path sha256 c ref) c.store.files ≡ some f
    → IsBad w c f
    → Refused (ref_path sha256 c ref) (get_digest sha256 w c ref)
unfolding get_digest
get_digest-Refused sha256 w c ref f calm there bad =
    let path = ref_path sha256 c ref in
    rw (calm.open_root, get_digest)
      (rw (stat_file-found w path c.store (some f) (calm.stat path) there)
        (get_digest-at w path c f calm there bad))

-- PutDigest of a reference that has an entry changes nothing, so that GetDigest goes on to answer the
-- old digest, whatever digest is put.
pub put_digest-kept :
    (sha256 : Bytes → Bytes) (w : World) (c : RefCache) (ref dgst : Bytes) (f : DiskFile)
    → w.stat (ref_path sha256 c ref) ≡ none
    → find_file (ref_path sha256 c ref) c.store.files ≡ some f
    → get_digest sha256 w (put_digest sha256 w c ref dgst).1 ref ≡ get_digest sha256 w c ref
unfolding put_digest ref_path
put_digest-kept sha256 w c ref dgst f s there =
    ap (λ store. get_digest sha256 w (with_store c store) ref)
      (put_entry-kept w ref_stem (ref_key sha256 ref) dgst (ok tt) c.store f s there)

-- An entry that is neither too old nor of another form is answered.
get_digest-found :
    (sha256 : Bytes → Bytes) (w : World) (c : RefCache) (ref : Bytes) (f : DiskFile)
    → IsCalm w
    → find_file (ref_path sha256 c ref) c.store.files ≡ some f
    → is_valid_digest_format f.content ≡ true
    → w.now ≤ f.mod_time
    → (get_digest sha256 w c ref).0 ≡ some f.content
unfolding get_digest
get_digest-found sha256 w c ref f calm there valid young =
    let path = ref_path sha256 c ref in
    rw (calm.open_root, get_digest)
      (rw (stat_file-found w path c.store (some f) (calm.stat path) there) (go (ltb 0 c.ttl)))
  where
    in_time : is_expired w c f ≡ false
    in_time = ground arith

    read : (read_digest w (ref_path sha256 c ref) c).0 ≡ some f.content
    read =
        rw (calm.unreadable (ref_path sha256 c ref), read_file)
          (rw (there, read_file) (rw (valid, checked_digest)))

    go :
        (b : Bool)
        → (if b
            then fresh_digest w (ref_path sha256 c ref) c (found f)
            else read_digest w (ref_path sha256 c ref) c).0
          ≡ some f.content
    go true = rw (in_time, fresh_digest) read
    go false = read

-- A digest that is put for a reference without an entry, where no call fails, there is room and the
-- first name for the temporary file is free, is what GetDigest then answers; the counter stays right.
pub put_digest-get_digest :
    (sha256 : Bytes → Bytes) (w : World) (c : RefCache) (ref dgst : Bytes)
    → IsCalm w
    → is_valid_digest_format dgst ≡ true
    → HasRoom c.store (length dgst)
    → IsCounted c.store
    → find_file (ref_path sha256 c ref) c.store.files ≡ none
    → find_file (first_temp w ref_stem (ref_key sha256 ref) c.store) c.store.files ≡ none
    → ((put_digest sha256 w c ref dgst).0 ≡ ok tt)
      × ((get_digest sha256 w (put_digest sha256 w c ref dgst).1 ref).0 ≡ some dgst)
      × IsCounted (put_digest sha256 w c ref dgst).1.store
unfolding put_digest ref_path path_of
put_digest-get_digest sha256 w c ref dgst calm valid room counted absent free =
    rw (put_entry-new w ref_stem (ref_key sha256 ref) dgst c.store calm room counted absent free) (
      refl,
      got,
      put_entry-IsCounted w ref_stem (ref_key sha256 ref) dgst c.store calm room counted absent
          free,
    )
  where
    got :
        (get_digest sha256 w
          (with_store c (with_file c.store (ref_path sha256 c ref) dgst w.now))
          ref).0
        ≡ some dgst
    got =
        get_digest-found sha256 w
          (with_store c (with_file c.store (ref_path sha256 c ref) dgst w.now)) ref
          (temp_file (ref_path sha256 c ref) dgst w.now) calm
          (find_file_self (temp_file (ref_path sha256 c ref) dgst w.now) c.store.files) valid
          (omega arith)
