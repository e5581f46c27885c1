-- ===== src/Cache/Block/Coherent.antt =====
-- Which files getBlock of core/cache/disk/blockcache.go leaves behind, whatever calls of the system fail.
use mathlib.Core.Path.{subst}
use blob.Prelude.{
  ℕ, ◌-◌, ◌≡◌, refl, sym, ap, ◌∙◌, Bool, true, false, ◌⊎◌, inl, inr, Option, none, some, List, [],
  ◌∷◌, arith, ltb, ◌==◌, length, ℤ, pos, raise, leb_ℤ, Error, Result, ok, err, Bool-cases,
}
use blob.Prelude.Bytes.{Bytes, equal, equal_iff}
use blob.Cache.Disk.{
  DiskFile, Cache, Faults, find_file, drop_file, exists_file, prune_dir, prune, target_of,
  store_pruned, after_prune, ensure_capacity, rename_file, renamed, is_not_exist,
}
use blob.Cache.Disk.Files.{find_file_self}
use blob.Cache.Disk.Pruning.{prune_dir-within, find_file-drop}
use blob.Cache.Block.{
  World, CachedSource, write_block, place_block, rename_block, write_fault, store_block, use_file,
  open_block, remove_block, get_block, block_path,
}

-- The same cache with no more files.
pub record Keeps (c c' : Cache) : Type 0 where
  pub dir : c'.dir ≡ c.dir
  pub shard : c'.shard_prefix_len ≡ c.shard_prefix_len
  pub within :
      (q : Bytes) (f : DiskFile) → find_file q c'.files ≡ some f → find_file q c.files ≡ some f

Keeps-refl : (c : Cache) → Keeps c c
Keeps-refl c = record { dir = refl; shard = refl; within = λ q f h. h }

prune-Keeps : (faults : Faults) (target : ℤ) (c : Cache) → Keeps c (prune faults target c).1
unfolding prune
prune-Keeps faults target c = go (prune_dir faults (target_of target) c.files).error
  where
    go :
        (e : Option Error)
        → Keeps c (store_pruned e (prune_dir faults (target_of target) c.files) c).1
    go none = record {
      dir = refl;
      shard = refl;
      within = prune_dir-within faults (target_of target) c.files;
    }
    go (some x) = record {
      dir = refl;
      shard = refl;
      within = prune_dir-within faults (target_of target) c.files;
    }

after_prune-same : (need : ℕ) (r : Result ℕ × Cache) → (after_prune need r).1 ≡ r.1
after_prune-same need (err e, c) = refl
after_prune-same need (ok n, c) = refl

pub ensure_capacity-Keeps :
    (faults : Faults) (need : ℕ) (c : Cache) → Keeps c (ensure_capacity faults need c).1
unfolding ensure_capacity
ensure_capacity-Keeps faults need c =
    go (c.max_bytes == 0) (ltb c.max_bytes need) (leb_ℤ (raise c.bytes need) c.max_bytes) refl refl
      refl
  where
    pruned : Keeps c (after_prune need (prune faults (pos (c.max_bytes - need)) c)).1
    pruned =
        subst (Keeps c) (sym (after_prune-same need (prune faults (pos (c.max_bytes - need)) c)))
          (prune-Keeps faults (pos (c.max_bytes - need)) c)

    go :
        (x y z : Bool)
        → (c.max_bytes == 0) ≡ x
        → ltb c.max_bytes need ≡ y
        → leb_ℤ (raise c.bytes need) c.max_bytes ≡ z
        → Keeps c (ensure_capacity faults need c).1
    go true y z e f g = rw (e, ensure_capacity) (Keeps-refl c)
    go false true z e f g = rw (e, f, ensure_capacity) (Keeps-refl c)
    go false false true e f g = rw (e, f, g, ensure_capacity) (Keeps-refl c)
    go false false false e f g = rw (e, f, g, ensure_capacity) pruned

-- The cache with no more files, but one at `path` with the content `block`, and those at `tmp`.
pub record Adds (tmp path block : Bytes) (c c' : Cache) : Type 0 where
  pub dir : c'.dir ≡ c.dir
  pub shard : c'.shard_prefix_len ≡ c.shard_prefix_len
  pub found :
      (q : Bytes) (f : DiskFile)
      → equal tmp q ≡ false
      → find_file q c'.files ≡ some f
      → (find_file q c.files ≡ some f) ⊎ ((path ≡ q) × (f.content ≡ block))

module _ (tmp path block : Bytes) where
  Adds-of_Keeps : (c c' : Cache) → Keeps c c' → Adds tmp path block c c'
  Adds-of_Keeps c c' k = record {
    dir = k.dir;
    shard = k.shard;
    found = λ q f t h. inl (k.within q f h);
  }

  Adds-behind : (c d e : Cache) → Keeps c d → Adds tmp path block d e → Adds tmp path block c e
  Adds-behind c d e k a = record {
    dir = a.dir ∙ k.dir;
    shard = a.shard ∙ k.shard;
    found =
        λ q f t h. elim (a.found q f t h) [ inl old ↦ inl (k.within q f old) | inr new ↦ inr new ];
  }

  module _ (now : ℕ) where
    abbrev temp : DiskFile
    temp = record { path = tmp; content = block; mod_time = now }

    abbrev target : DiskFile
    target = record { path = path; content = block; mod_time = now }

    found-temp :
        (q : Bytes) (f : DiskFile) (fs : List DiskFile)
        → equal tmp q ≡ false
        → find_file q (temp ∷ fs) ≡ some f
        → find_file q fs ≡ some f
    unfolding find_file
    found-temp q f fs t h = ground arith

    found-target :
        (q : Bytes) (f : DiskFile) (fs : List DiskFile)
        → find_file q (target ∷ fs) ≡ some f
        → (find_file q fs ≡ some f) ⊎ ((path ≡ q) × (f.content ≡ block))
    unfolding find_file
    found-target q f fs h = elim (Bool-cases (equal path q)) [
      | inl e ↦
          let same : target ≡ f = ground arith in
          inr ((equal_iff path q).0 e, sym (ap (λ (x : DiskFile). x.content) same))
      | inr e ↦ inl (ground arith)
    ]

    found-renamed :
        (c : Cache) (q : Bytes) (f : DiskFile)
        → equal tmp q ≡ false
        → find_file q (target ∷ drop_file path (drop_file tmp (temp ∷ c.files))) ≡ some f
        → (find_file q c.files ≡ some f) ⊎ ((path ≡ q) × (f.content ≡ block))
    found-renamed c q f t h =
        elim (found-target q f (drop_file path (drop_file tmp (temp ∷ c.files))) h) [
          | inl old ↦ inl (
              found-temp q f c.files t (
                find_file-drop tmp q (temp ∷ c.files) f
                  (find_file-drop path q (drop_file tmp (temp ∷ c.files)) f old)))
          | inr new ↦ inr new
        ]

    -- The temporary file is there to be renamed.
    rename_file-cases :
        (faults : Faults) (fs : List DiskFile)
        → ((e : Error) × (rename_file faults tmp path (temp ∷ fs) ≡ err e))
          ⊎ (rename_file faults tmp path (temp ∷ fs)
              ≡ ok (target ∷ drop_file path (drop_file tmp (temp ∷ fs))))
    unfolding rename_file
    rename_file-cases faults fs = go faults.rename refl
      where
        go :
            (o : Option Error)
            → faults.rename ≡ o
            → ((e : Error) × (rename_file faults tmp path (temp ∷ fs) ≡ err e))
              ⊎ (rename_file faults tmp path (temp ∷ fs)
                  ≡ ok (target ∷ drop_file path (drop_file tmp (temp ∷ fs))))
        go (some e) r = inl (e, rw (r, rename_file))
        go none r = inr (rw (r, rename_file) (rw (find_file_self temp fs)))

    renamed-Adds :
        (faults : Faults) (c : Cache)
        → Adds tmp path block c
            (renamed tmp path
              (length block)
              (record c { files = temp ∷ c.files })
              (rename_file faults tmp path (temp ∷ c.files))).1
    renamed-Adds faults c = elim (rename_file-cases faults c.files) [
      | inl (e, r) ↦
          rw (r, renamed)
            (record {
              dir = refl;
              shard = refl;
              found = λ q f t h.
                  inl (found-temp q f c.files t (find_file-drop tmp q (temp ∷ c.files) f h));
            })
      | inr r ↦ rw (r, renamed) (record { dir = refl; shard = refl; found = found-renamed c })
    ]

module _ (w : World) (index : ℕ) (path : Bytes) where
  place_block-Adds :
      (block : Bytes) (r : Result Bool × Cache)
      → Adds (w.temp index) path block r.1 (place_block w index path block r).1
  unfolding place_block rename_block
  place_block-Adds block (err e, c) = Adds-of_Keeps _ _ _ c c (Keeps-refl c)
  place_block-Adds block (ok false, c) = Adds-of_Keeps _ _ _ c c (Keeps-refl c)
  place_block-Adds block (ok true, c) = go (write_fault w.faults) refl
    where
      go :
          (o : Option Error)
          → write_fault w.faults ≡ o
          → Adds (w.temp index) path block c (place_block w index path block (ok true, c)).1
      go (some e) h = rw (h, place_block) (Adds-of_Keeps _ _ _ c c (Keeps-refl c))
      go none h = rw (h, place_block) (renamed-Adds (w.temp index) path block w.now w.faults c)

  pub write_block-Adds :
      (block : Bytes) (c : Cache)
      → Adds (w.temp index) path block c (write_block w index path block c).1
  unfolding write_block
  write_block-Adds [] c = Adds-of_Keeps _ _ _ c c (Keeps-refl c)
  write_block-Adds (b ∷ bs) c = elim (Bool-cases (exists_file path c.files)) [
    | inl e ↦ rw (e, write_block) (Adds-of_Keeps _ _ _ c c (Keeps-refl c))
    | inr e ↦
        let room = ensure_capacity w.faults (length (b ∷ bs)) c in
        rw (e, write_block)
          (Adds-behind _ _ _ c room.1 _ (ensure_capacity-Keeps w.faults (length (b ∷ bs)) c)
            (place_block-Adds (b ∷ bs) room))
  ]

  remove_block-Keeps : (n : ℕ) (c : Cache) → Keeps c (remove_block w.faults path n c)
  remove_block-Keeps n c = go (w.faults.remove path) refl
    where
      go : (o : Option Error) → w.faults.remove path ≡ o → Keeps c (remove_block w.faults path n c)
      go (some e) h =
          rw (h, remove_block) (record { dir = refl; shard = refl; within = λ q f k. k })
      go none h =
          rw (h, remove_block)
            (record {
              dir = refl;
              shard = refl;
              within = λ q f k. find_file-drop path q c.files f k;
            })

  module _ (n : ℕ) (block : Bytes) where
    store_block-Adds :
        (fetched : Result Bytes) (c : Cache)
        → ((b : Bytes) → fetched ≡ ok b → b ≡ block)
        → Adds (w.temp index) path block c (store_block w index path n fetched c).1
    store_block-Adds (err e) c right = Adds-of_Keeps _ _ _ c c (Keeps-refl c)
    store_block-Adds (ok b) c right = elim (Bool-cases (length b == n)) [
      | inl e ↦ rw e (
          subst (λ x. Adds (w.temp index) path x c (write_block w index path b c).1) (right b refl)
            (write_block-Adds b c))
      | inr e ↦ rw e (Adds-of_Keeps _ _ _ c c (Keeps-refl c))
    ]

    use_file-Adds :
        (fetched : Result Bytes) (c : Cache) (found : Option DiskFile)
        → ((b : Bytes) → fetched ≡ ok b → b ≡ block)
        → Adds (w.temp index) path block c (use_file w index path n fetched c found).1
    use_file-Adds fetched c none right = store_block-Adds fetched c right
    use_file-Adds fetched c (some f) right = elim (Bool-cases (length f.content == n)) [
      | inl e ↦ rw e (Adds-of_Keeps _ _ _ c c (Keeps-refl c))
      | inr e ↦
          let less = remove_block w.faults path (length f.content) c in
          rw e (
            Adds-behind _ _ _ c less _ (remove_block-Keeps (length f.content) c)
              (store_block-Adds fetched less right))
    ]

    open_block-Adds :
        (fetched : Result Bytes) (c : Cache) (o : Option Error)
        → ((b : Bytes) → fetched ≡ ok b → b ≡ block)
        → Adds (w.temp index) path block c (open_block w index path n fetched c o).1
    open_block-Adds fetched c none right = use_file-Adds fetched c (find_file path c.files) right
    open_block-Adds fetched c (some e) right = elim (Bool-cases (is_not_exist e)) [
      | inl g ↦ rw g (store_block-Adds fetched c right)
      | inr g ↦ rw g (Adds-of_Keeps _ _ _ c c (Keeps-refl c))
    ]

-- getBlock adds at most the block that was fetched, under its own path.
pub get_block-Adds :
    (w : World) (s : CachedSource) (index n : ℕ) (fetched : Result Bytes) (c : Cache)
    (block : Bytes)
    → ((b : Bytes) → fetched ≡ ok b → b ≡ block)
    → Adds
        (w.temp index)
        (block_path w s c.dir c.shard_prefix_len index)
        block
        c
        (get_block w s index n fetched c).1
unfolding get_block
get_block-Adds w s index n fetched c block right =
    let path = block_path w s c.dir c.shard_prefix_len index in
    open_block-Adds w index path n block fetched c (w.unreadable path) right
