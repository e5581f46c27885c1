-- ===== src/Registry/Store/Entries.antt =====
-- Entries of the caches of registry/cache/disk/cache.go that are put, read and deleted.
use blob.Prelude.{
  ℕ, suc, ◌≡◌, refl, ap, ◌∙◌, true, Option, none, some, ◌∷◌, ◌++◌, length, Error, Result, ok,
}
use blob.Prelude.Bytes.{Bytes}
use blob.Cache.Disk.{
  DiskFile, Cache, Faults, no_faults, find_file, deleted, ensure_capacity, rename_file, renamed,
  or_else,
}
use blob.Cache.Disk.Files.{find_file_self, find_file-drop_self}
use blob.Cache.Disk.Accounts.{
  IsCounted, HasRoom, with_file, temp_file, ensure_capacity-room, rename_file-free,
  with_file-IsCounted,
}
use blob.Registry.Store.{
  World, found, shard_of, in_shard, path_of, stat_file, found_file, delete_by_path, read_file,
  create_temp, create_temp_loop, mkdir_fault, rename_entry, write_temp, write_entry, checked_entry,
  put_entry,
}

-- No call fails.
pub record IsCalm (w : World) : Type 0 where
  pub faults : w.faults ≡ no_faults
  pub open_root : w.open_root ≡ none
  pub stat : (p : Bytes) → w.stat p ≡ none
  pub unreadable : (p : Bytes) → w.unreadable p ≡ none

pub stat_file-found :
    (w : World) (path : Bytes) (c : Cache) (o : Option DiskFile)
    → w.stat path ≡ none
    → find_file path c.files ≡ o
    → stat_file w path c ≡ found_file o
unfolding stat_file
stat_file-found w path c o s e = rw (s, stat_file) (ap found_file e)

-- An entry that is there is kept, whatever is put.
pub put_entry-kept :
    (w : World) (stem key raw : Bytes) (check : Result (Unit {0})) (c : Cache) (f : DiskFile)
    → w.stat (path_of c key) ≡ none
    → find_file (path_of c key) c.files ≡ some f
    → (put_entry w stem key raw check c).1 ≡ c
unfolding put_entry
put_entry-kept w stem key raw check c f s e = go w.open_root refl
  where
    there : stat_file w (path_of c key) c ≡ found f
    there = stat_file-found w (path_of c key) c (some f) s e

    go : (o : Option Error) → w.open_root ≡ o → (put_entry w stem key raw check c).1 ≡ c
    go (some x) h = rw (h, put_entry) refl
    go none h = rw (h, put_entry) (rw there refl)

-- Deleting an entry takes it away.
pub delete_by_path-gone :
    (w : World) (path : Bytes) (c : Cache)
    → IsCalm w
    → find_file path (delete_by_path w path c).1.files ≡ none
unfolding delete_by_path
delete_by_path-gone w path c calm = go (find_file path c.files) refl
  where
    go :
        (o : Option DiskFile)
        → find_file path c.files ≡ o
        → find_file path (delete_by_path w path c).1.files ≡ none
    go none e = rw (stat_file-found w path c none (calm.stat path) e, delete_by_path) e
    go (some f) e =
        rw (stat_file-found w path c (some f) (calm.stat path) e, delete_by_path)
          (rw (ap (λ (x : Faults). x.remove path) calm.faults, deleted)
            (find_file-drop_self path c.files))

-- The name of the first temporary file for a key.
abbrev pub first_temp : World → Bytes → Bytes → Cache → Bytes
first_temp w stem key c = in_shard (shard_of c key) (stem ++ w.random 0)

module _ (w : World) (stem key raw : Bytes) (c : Cache) (calm : IsCalm w)
    (room : HasRoom c (length raw)) (counted : IsCounted c)
    (absent : find_file (path_of c key) c.files ≡ none)
    (free : find_file (first_temp w stem key c) c.files ≡ none) where
  capacity-ok : ensure_capacity w.faults (length raw) c ≡ (ok true, c)
  capacity-ok =
      ap (λ faults. ensure_capacity faults (length raw) c) calm.faults
      ∙ ensure_capacity-room c c.files (length raw) counted room

  create_temp_loop-first :
      (k : ℕ) → create_temp_loop (suc k) 0 w (shard_of c key) stem c ≡ ok (first_temp w stem key c)
  unfolding create_temp_loop
  create_temp_loop-first k =
      rw (free, create_temp_loop)
        (rw (ap (λ (x : Faults). x.create_temp) calm.faults, create_temp_loop))

  create_temp-first : create_temp w (shard_of c key) stem c ≡ ok (first_temp w stem key c)
  unfolding create_temp
  create_temp-first = create_temp_loop-first 9_999

  rename_entry-ok :
      rename_entry w (first_temp w stem key c) (path_of c key) raw c
      ≡ (ok tt, with_file c (path_of c key) raw w.now)
  unfolding rename_entry
  rename_entry-ok =
      rw (ap (λ (x : Faults). or_else x.copy x.close) calm.faults, rename_entry)
        (ap
          (renamed (first_temp w stem key c) (path_of c key) (length raw)
            (record c { files = temp_file (first_temp w stem key c) raw w.now ∷ c.files }))
          (ap
              (λ faults.
                rename_file faults (first_temp w stem key c) (path_of c key)
                  (temp_file (first_temp w stem key c) raw w.now ∷ c.files))
              calm.faults
            ∙ rename_file-free (first_temp w stem key c) (path_of c key) raw w.now c.files free
                absent))

  mkdir-ok : mkdir_fault w (shard_of c key) ≡ none
  mkdir-ok = go (shard_of c key)
    where
      go : (o : Option Bytes) → mkdir_fault w o ≡ none
      go none = refl
      go (some dir) = ap (λ (x : Faults). x.mkdir) calm.faults

  -- A new entry is written, where there is room for it.
  pub put_entry-new :
      put_entry w stem key raw (ok tt) c ≡ (ok tt, with_file c (path_of c key) raw w.now)
  unfolding put_entry write_entry
  put_entry-new =
      rw (calm.open_root, put_entry)
        (rw (stat_file-found w (path_of c key) c none (calm.stat (path_of c key)) absent, put_entry)
          (rw (capacity-ok, checked_entry)
            (rw (mkdir-ok, write_entry) (rw (create_temp-first, write_temp) rename_entry-ok))))

  pub put_entry-read :
      read_file w (path_of c key) (with_file c (path_of c key) raw w.now) ≡ some raw
  put_entry-read =
      rw (calm.unreadable (path_of c key), read_file)
        (rw (find_file_self (temp_file (path_of c key) raw w.now) c.files))

  pub put_entry-IsCounted : IsCounted (with_file c (path_of c key) raw w.now)
  put_entry-IsCounted = with_file-IsCounted c (path_of c key) raw w.now counted absent
