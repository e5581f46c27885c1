-- ===== src/Cache/Disk/Accounts.antt =====
-- The counter of bytes of the disk cache (core/cache/disk/cache.go) against the files on the disk.
use blob.Prelude.{
  ℕ, ◌+◌, ◌≤◌, ◌≡◌, refl, sym, ap, ◌∙◌, true, false, ◌⊎◌, Option, none, some, List, [], ◌∷◌, arith,
  length, pos, raise, Error, Result, ok,
}
use blob.Prelude.Bytes.{Bytes}
use blob.Cache.Disk.{
  DiskFile, Cache, Pruned, no_faults, find_file, exists_file, size_of, prune_dir, prune,
  store_pruned, ensure_capacity, path_of, get, put, put_at, store_temp, rename_file, place, renamed,
  delete, deleted,
}
use blob.Cache.Disk.Files.{
  Distinct, find_file_self, Distinct-drop, size_of-drop, find_file-drop_self, Apart-of_none,
  drop_file_self, drop_file-absent,
}
use blob.Cache.Disk.Pruning.{IsPruned, prune_dir-IsPruned}

-- The files have distinct paths, and the counter is the sum of their sizes.
pub record IsCounted (c : Cache) : Type 0 where
  pub distinct : Distinct c.files
  pub counted : c.bytes ≡ pos (size_of c.files)

-- After a Prune to a target without failing calls.
pub record Pruning (target : ℕ) (c : Cache) (r : Result ℕ × Cache) : Type 0 where
  pub freed : ℕ
  pub reports : r.0 ≡ ok freed
  pub adds_up : freed + size_of (r.1).files ≡ size_of c.files
  pub fits : size_of (r.1).files ≤ target
  pub valid : IsCounted r.1
  pub limit : (r.1).max_bytes ≡ c.max_bytes

store_pruned-Pruning :
    (target : ℕ) (c : Cache) (p : Pruned) (e : Option Error)
    → e ≡ none
    → IsPruned target (size_of c.files) p
    → Pruning target c (store_pruned e p c)
store_pruned-Pruning target c p (some x) h q = cc
store_pruned-Pruning target c p none h q = record {
  freed = p.freed;
  reports = refl;
  adds_up = omega (arith, q.adds_up, q.counted);
  fits = omega (arith, q.fits, q.counted);
  valid = record { distinct = q.distinct; counted = ap pos (sym q.counted) };
  limit = refl;
}

-- Where no call fails, Prune reports the bytes that it freed, leaves at most the target on the disk,
-- and makes the counter right, whatever the counter was.
pub prune-Pruning :
    (target : ℕ) (c : Cache) → Distinct c.files → Pruning target c (prune no_faults (pos target) c)
unfolding prune
prune-Pruning target c d =
    let q = prune_dir-IsPruned target c.files d in
    store_pruned-Pruning target c (prune_dir no_faults target c.files) _ q.no_error q

-- Delete keeps the counter right.
delete-IsCounted :
    (c : Cache) (hash path : Bytes)
    → IsCounted c
    → path_of c hash ≡ ok path
    → (IsCounted (delete no_faults c hash).1)
      × (find_file path (delete no_faults c hash).1.files ≡ none)
unfolding delete
delete-IsCounted c hash path v h = rw (h, delete) (go (find_file path c.files) refl)
  where
    go :
        (found : Option DiskFile)
        → find_file path c.files ≡ found
        → (IsCounted (deleted path found none c).1)
          × (find_file path (deleted path found none c).1.files ≡ none)
    go none e = (v, e)
    go (some f) e = (
      record {
        distinct = Distinct-drop path c.files v.distinct;
        counted = ground (arith, size_of-drop path c.files f v.distinct e, v.counted);
      },
      find_file-drop_self path c.files,
    )

-- Put where nothing has to be pruned.
pub record HasRoom (c : Cache) (n : ℕ) : Type 0 where
  pub room : c.max_bytes ≡ 0 ⊎ (size_of c.files + n ≤ c.max_bytes)

pub ensure_capacity-room :
    (c : Cache) (files : List DiskFile) (n : ℕ)
    → IsCounted c
    → HasRoom c n
    → ensure_capacity no_faults n (record c { files = files })
      ≡ (ok true, record c { files = files })
unfolding ensure_capacity
ensure_capacity-room c files n v r = ground (arith, v.counted, r.room)

-- A cache with one more file.
abbrev pub with_file : Cache → Bytes → Bytes → ℕ → Cache
with_file c path content now = record c {
  bytes = raise c.bytes (length content);
  files = record { path = path; content = content; mod_time = now } ∷ c.files;
}

abbrev pub temp_file : Bytes → Bytes → ℕ → DiskFile
temp_file path content now = record { path = path; content = content; mod_time = now }

-- The rename of a temporary file over a path that is free.
pub rename_file-free :
    (tmp path content : Bytes) (now : ℕ) (fs : List DiskFile)
    → find_file tmp fs ≡ none
    → find_file path fs ≡ none
    → rename_file no_faults tmp path (temp_file tmp content now ∷ fs)
      ≡ ok (temp_file path content now ∷ fs)
unfolding rename_file
rename_file-free tmp path content now fs free absent =
    let temp = temp_file tmp content now in
    rw (find_file_self temp fs, rename_file)
      (rw (
        drop_file_self temp fs free,
        drop_file-absent (temp_file path content now) fs
            (Apart-of_none (temp_file path content now) fs absent),
      ))

store_temp-room :
    (c : Cache) (tmp : Bytes) (now : ℕ) (path content : Bytes)
    → IsCounted c
    → find_file path c.files ≡ none
    → find_file tmp c.files ≡ none
    → HasRoom c (length content)
    → store_temp no_faults tmp now c path content ≡ (ok tt, with_file c path content now)
unfolding store_temp
store_temp-room c tmp now path content v absent free r =
    rw (ensure_capacity-room c (temp_file tmp content now ∷ c.files) (length content) v r, place)
      (ap
        (renamed tmp path (length content)
          (record c { files = temp_file tmp content now ∷ c.files }))
        (rename_file-free tmp path content now c.files free absent))

pub put_at-new :
    (c : Cache) (tmp : Bytes) (now : ℕ) (path content : Bytes)
    → exists_file path c.files ≡ false
    → put_at no_faults tmp now c path content ≡ store_temp no_faults tmp now c path content
unfolding put_at
put_at-new c tmp now path content new = rw new refl

put-room :
    (c : Cache) (tmp : Bytes) (now : ℕ) (hash path content : Bytes)
    → IsCounted c
    → path_of c hash ≡ ok path
    → find_file path c.files ≡ none
    → find_file tmp c.files ≡ none
    → HasRoom c (length content)
    → put no_faults tmp now c hash content ≡ (ok tt, with_file c path content now)
unfolding put
put-room c tmp now hash path content v p absent free r =
    let new : exists_file path c.files ≡ false =
      ap (λ (o : Option DiskFile). elim o [ none ↦ false | some f ↦ true ]) absent in
    rw (p, put)
      (put_at-new c tmp now path content new
        ∙ store_temp-room c tmp now path content v absent free r)

path_of-with_file :
    (c : Cache) (hash path content : Bytes) (now : ℕ)
    → path_of (with_file c path content now) hash ≡ path_of c hash
unfolding path_of
path_of-with_file c [] path content now = refl
path_of-with_file c (b ∷ bs) path content now = refl

get-with_file :
    (c : Cache) (hash path content : Bytes) (now : ℕ)
    → path_of c hash ≡ ok path
    → get (with_file c path content now) hash ≡ some content
unfolding get
get-with_file c hash path content now p =
    rw (path_of-with_file c hash path content now ∙ p, get)
      (rw (find_file_self (temp_file path content now) c.files))

pub with_file-IsCounted :
    (c : Cache) (path content : Bytes) (now : ℕ)
    → IsCounted c
    → find_file path c.files ≡ none
    → IsCounted (with_file c path content now)
unfolding size_of
with_file-IsCounted c path content now v absent = record {
  distinct = (Apart-of_none (temp_file path content now) c.files absent, v.distinct);
  counted = ground (arith, v.counted);
}

-- Put of a content that is not cached, where no call fails and nothing has to be pruned, keeps the
-- counter right, and Get then returns the content.
pub put-IsCounted :
    (c : Cache) (tmp : Bytes) (now : ℕ) (hash path content : Bytes)
    → IsCounted c
    → path_of c hash ≡ ok path
    → find_file path c.files ≡ none
    → find_file tmp c.files ≡ none
    → HasRoom c (length content)
    → ((put no_faults tmp now c hash content).0 ≡ ok tt)
      × IsCounted (put no_faults tmp now c hash content).1
      × (get (put no_faults tmp now c hash content).1 hash ≡ some content)
put-IsCounted c tmp now hash path content v p absent free r =
    rw (put-room c tmp now hash path content v p absent free r) (
      refl,
      with_file-IsCounted c path content now v absent,
      get-with_file c hash path content now p,
    )
