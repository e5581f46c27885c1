-- ===== src/Cache/Disk/Faulty.antt =====
-- Put of the disk cache (core/cache/disk/cache.go) where it has to prune: the temporary file is one of
-- the files that it prunes.
use blob.Prelude.{
  ℕ, ◌+◌, ◌-◌, ◌≤◌, ◌<◌, ◌≡◌, refl, ap, ◌∙◌, true, false, inl, inr, Option, none, some, ◌∷◌, arith,
  length, Option-cases, pos, raise, leb_ℤ, Error, not_exist, Result, ok, err,
}
use blob.Prelude.Bytes.{Bytes, equal}
use blob.Cache.Disk.{
  DiskFile, Cache, no_faults, find_file, exists_file, size_of, prune_dir, prune, store_pruned,
  after_prune, ensure_capacity, path_of, put, store_temp, rename_file, place, renamed,
}
use blob.Cache.Disk.Files.{Distinct, find_file_self, size_of-find, Apart-of_none}
use blob.Cache.Disk.Pruning.{prune_dir-IsPruned, prune_dir-within}
use blob.Cache.Disk.Accounts.{IsCounted, Pruning, prune-Pruning, temp_file, put_at-new}

-- A content that fits the cache, has no room there now, and is larger than what may stay beside it.
pub record IsLarge (c : Cache) (n : ℕ) : Type 0 where
  pub fits : n ≤ c.max_bytes
  pub full : c.max_bytes < size_of c.files + n
  pub large : c.max_bytes < n + n

-- A cache with the temporary file in its directory.
abbrev with_temp : Cache → Bytes → Bytes → ℕ → Cache
with_temp c tmp content now = record c { files = temp_file tmp content now ∷ c.files }

-- What is found after a pruning without failing calls was there before.
prune-within :
    (target : ℕ) (c : Cache) (q : Bytes) (f : DiskFile)
    → Distinct c.files
    → find_file q (prune no_faults (pos target) c).1.files ≡ some f
    → find_file q c.files ≡ some f
unfolding prune
prune-within target c q f d h =
    go (prune_dir no_faults target c.files).error (prune_dir-IsPruned target c.files d).no_error h
  where
    go :
        (e : Option Error)
        → e ≡ none
        → find_file q (store_pruned e (prune_dir no_faults target c.files) c).1.files ≡ some f
        → find_file q c.files ≡ some f
    go none n h = prune_dir-within no_faults target c.files q f h
    go (some x) n h = absurd (ground arith)

-- The rename of a temporary file that is gone.
place-gone :
    (tmp path : Bytes) (n : ℕ) (c : Cache)
    → find_file tmp c.files ≡ none
    → find_file path c.files ≡ none
    → (place no_faults tmp path n (ok true, c)).0 ≡ err not_exist
unfolding place rename_file
place-gone tmp path n c gone absent =
    let new : exists_file path c.files ≡ false =
      ap (λ (o : Option DiskFile). elim o [ none ↦ false | some f ↦ true ]) absent in
    rw (gone, rename_file) (rw (new, renamed) refl)

ensure_capacity-prunes :
    (c : Cache) (n : ℕ)
    → n ≤ c.max_bytes
    → 0 < n
    → leb_ℤ (raise c.bytes n) c.max_bytes ≡ false
    → ensure_capacity no_faults n c ≡ after_prune n (prune no_faults (pos (c.max_bytes - n)) c)
unfolding ensure_capacity
ensure_capacity-prunes c n le positive over = ground arith

-- What comes of a pruning that took the temporary file.
place-pruned :
    (tmp path : Bytes) (n : ℕ) (r : Result ℕ × Cache) (freed : ℕ)
    → r.0 ≡ ok freed
    → leb_ℤ (raise (r.1).bytes n) (r.1).max_bytes ≡ true
    → find_file tmp (r.1).files ≡ none
    → find_file path (r.1).files ≡ none
    → (place no_faults tmp path n (after_prune n r)).0 ≡ err not_exist
place-pruned tmp path n (ok f, c) freed q room gone absent =
    rw (room, after_prune) (place-gone tmp path n c gone absent)
place-pruned tmp path n (err e, c) freed q room gone absent = cc

module _ (c : Cache) (tmp : Bytes) (now : ℕ) (path content : Bytes) (v : IsCounted c)
    (absent : find_file path c.files ≡ none) (free : find_file tmp c.files ≡ none)
    (other : equal tmp path ≡ false) (large : IsLarge c (length content)) where
  abbrev held : Cache
  held = with_temp c tmp content now

  abbrev pruned : Result ℕ × Cache
  pruned = prune no_faults (pos (c.max_bytes - length content)) held

  held-Distinct : Distinct held.files
  held-Distinct = (Apart-of_none (temp_file tmp content now) c.files free, v.distinct)

  pruned-Pruning : Pruning (c.max_bytes - length content) held pruned
  pruned-Pruning = prune-Pruning (c.max_bytes - length content) held held-Distinct

  -- The temporary file is too large to be spared.
  temp-gone : find_file tmp (pruned.1).files ≡ none
  temp-gone = elim (Option-cases (find_file tmp (pruned.1).files)) [
    | inl e ↦ e
    | inr (f, e) ↦
        let was : find_file tmp held.files ≡ some f =
          prune-within (c.max_bytes - length content) held tmp f held-Distinct e in
        let same : temp_file tmp content now ≡ f =
          ground (arith, find_file_self (temp_file tmp content now) c.files) in
        absurd (
          omega (
            arith,
            ap (λ (x : DiskFile). length x.content) same,
            large.large,
            large.fits,
            pruned-Pruning.fits,
            size_of-find tmp (pruned.1).files f e,
          ))
  ]

  path-gone : find_file path (pruned.1).files ≡ none
  unfolding find_file
  path-gone = elim (Option-cases (find_file path (pruned.1).files)) [
    | inl e ↦ e
    | inr (f, e) ↦
        let was : find_file path held.files ≡ some f =
          prune-within (c.max_bytes - length content) held path f held-Distinct e in
        absurd (ground (arith, other))
  ]

  store_temp-large : (store_temp no_faults tmp now c path content).0 ≡ err not_exist
  unfolding store_temp
  store_temp-large =
      rw
        (ensure_capacity-prunes held (length content) large.fits
          (omega (arith, large.fits, large.large)) (ground (arith, v.counted, large.full)))
        (place-pruned tmp path (length content) pruned pruned-Pruning.freed pruned-Pruning.reports
          (ground (
            arith, pruned-Pruning.fits, pruned-Pruning.valid.counted, pruned-Pruning.limit,
            large.fits,
          ))
          temp-gone path-gone)

-- Put of a content that is not cached and fits the limit, where what is cached leaves no room for it and
-- it is larger than half of the limit, fails with the error of a file that does not exist, although no
-- call of the system fails by itself: its own pruning removes the temporary file.
pub put-loses :
    (c : Cache) (tmp : Bytes) (now : ℕ) (hash path content : Bytes)
    → IsCounted c
    → path_of c hash ≡ ok path
    → find_file path c.files ≡ none
    → find_file tmp c.files ≡ none
    → equal tmp path ≡ false
    → IsLarge c (length content)
    → (put no_faults tmp now c hash content).0 ≡ err not_exist
unfolding put
put-loses c tmp now hash path content v p absent free other large =
    let new : exists_file path c.files ≡ false =
      ap (λ (o : Option DiskFile). elim o [ none ↦ false | some f ↦ true ]) absent in
    rw (p, put)
      (ap (λ (r : Result (Unit {0}) × Cache). r.0) (put_at-new c tmp now path content new)
        ∙ store_temp-large c tmp now path content v absent free other large)
