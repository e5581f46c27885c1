-- ===== src/Cache/Block/Counts.antt =====
-- The counter and the limit of the block cache (core/cache/disk/blockcache.go), where no call fails.
use mathlib.Core.Path.{subst}
use blob.Prelude.{
  ℕ, ◌+◌, ◌-◌, ◌≤◌, ◌≡◌, refl, sym, ap, ◌∙◌, Bool, true, false, ◌⊎◌, inl, inr, Option, none, some,
  List, [], ◌∷◌, arith, ltb, ◌==◌, length, raise, leb_ℤ, Error, Result, ok, err, Bool-cases,
  Option-cases,
}
use blob.Prelude.Bytes.{Bytes}
use blob.Cache.Disk.{
  DiskFile, Cache, Faults, no_faults, find_file, drop_file, exists_file, size_of, after_prune,
  ensure_capacity, rename_file, renamed, is_not_exist,
}
use blob.Cache.Disk.Files.{Distinct-drop, size_of-drop}
use blob.Cache.Disk.Pruning.{find_file-drop}
use blob.Cache.Disk.Accounts.{
  IsCounted, Pruning, prune-Pruning, temp_file, rename_file-free, with_file-IsCounted,
}
use blob.Cache.Block.{
  World, CachedSource, write_fault, write_block, place_block, rename_block, store_block, use_file,
  open_block, remove_block, get_block, block_path,
}
use blob.Cache.Block.Coherent.{Keeps, ensure_capacity-Keeps}

-- At most `max` bytes, where there is a limit.
abbrev pub Fits : ℕ → ℕ → Type 0
Fits max n = (max ≡ 0) ⊎ (n ≤ max)

-- The counter is right, and the files are within the limit.
pub record IsSound (c : Cache) : Type 0 where
  pub counted : IsCounted c
  pub bounded : Fits c.max_bytes (size_of c.files)

-- What the check for `n` bytes more leaves and reports.
record Room (n : ℕ) (c : Cache) (r : Result Bool × Cache) : Type 0 where
  sound : IsSound r.1
  limit : (r.1).max_bytes ≡ c.max_bytes
  reports : (r.0 ≡ ok false) ⊎ ((r.0 ≡ ok true) × Fits (r.1).max_bytes (size_of (r.1).files + n))

after_prune-Room :
    (n target : ℕ) (c : Cache) (r : Result ℕ × Cache)
    → target ≤ c.max_bytes
    → Pruning target c r
    → Room n c (after_prune n r)
after_prune-Room n target c (err e, d) le p = cc p.reports
after_prune-Room n target c (ok k, d) le p = record {
  sound = record { counted = p.valid; bounded = inr (omega (arith, p.fits, p.limit)) };
  limit = p.limit;
  reports = elim (Bool-cases (leb_ℤ (raise d.bytes n) d.max_bytes)) [
    | inl e ↦ inr (ap ok e, inr (ground (arith, p.valid.counted)))
    | inr e ↦ inl (ap ok e)
  ];
}

ensure_capacity-Room : (n : ℕ) (c : Cache) → IsSound c → Room n c (ensure_capacity no_faults n c)
unfolding ensure_capacity
ensure_capacity-Room n c sound =
    go (c.max_bytes == 0) (ltb c.max_bytes n) (leb_ℤ (raise c.bytes n) c.max_bytes) refl refl refl
  where
    go :
        (x y z : Bool)
        → (c.max_bytes == 0) ≡ x
        → ltb c.max_bytes n ≡ y
        → leb_ℤ (raise c.bytes n) c.max_bytes ≡ z
        → Room n c (ensure_capacity no_faults n c)
    go true y z e f g =
        rw (e, ensure_capacity)
          (record { sound = sound; limit = refl; reports = inr (refl, inl (ground arith)) })
    go false true z e f g =
        rw (e, f, ensure_capacity) (record { sound = sound; limit = refl; reports = inl refl })
    go false false true e f g =
        rw (e, f, g, ensure_capacity)
          (record {
            sound = sound;
            limit = refl;
            reports = inr (refl, inr (ground (arith, sound.counted.counted)));
          })
    go false false false e f g =
        rw (e, f, g, ensure_capacity)
          (after_prune-Room n (c.max_bytes - n) c _ (omega arith)
            (prune-Pruning (c.max_bytes - n) c sound.counted.distinct))

absent-Keeps :
    (c d : Cache) (q : Bytes) → Keeps c d → find_file q c.files ≡ none → find_file q d.files ≡ none
absent-Keeps c d q k h = elim (Option-cases (find_file q d.files)) [
  | inl e ↦ e
  | inr (f, e) ↦ cc (k.within q f e)
]

exists_file-none :
    (q : Bytes) (fs : List DiskFile) → exists_file q fs ≡ false → find_file q fs ≡ none
exists_file-none q fs h = elim (Option-cases (find_file q fs)) [
  | inl e ↦ e
  | inr (f, e) ↦ ground arith
]

module _ (w : World) (none_fails : w.faults ≡ no_faults) (index : ℕ) (path : Bytes) where
  place_block-IsSound :
      (block : Bytes) (c : Cache) (r : Result Bool × Cache)
      → Room (length block) c r
      → find_file path (r.1).files ≡ none
      → find_file (w.temp index) (r.1).files ≡ none
      → IsSound (place_block w index path block r).1
  unfolding place_block rename_block size_of
  place_block-IsSound block c (err e, d) room absent free = room.sound
  place_block-IsSound block c (ok false, d) room absent free = room.sound
  place_block-IsSound block c (ok true, d) room absent free =
      rw (ap write_fault none_fails, place_block)
        (rw
          (
            ap
                  (λ faults.
                    rename_file faults (w.temp index) path
                      (temp_file (w.temp index) block w.now ∷ d.files))
                  none_fails
                ∙ rename_file-free (w.temp index) path block w.now d.files free absent,
            renamed,
          )
          (record {
            counted = with_file-IsCounted d path block w.now room.sound.counted absent;
            bounded = ground (arith, room.reports);
          }))

  write_block-IsSound :
      (block : Bytes) (c : Cache)
      → IsSound c
      → find_file (w.temp index) c.files ≡ none
      → IsSound (write_block w index path block c).1
  unfolding write_block
  write_block-IsSound [] c sound free = sound
  write_block-IsSound (b ∷ bs) c sound free = elim (Bool-cases (exists_file path c.files)) [
    | inl e ↦ rw (e, write_block) sound
    | inr e ↦
        let n = length (b ∷ bs) in
        let keeps = ensure_capacity-Keeps w.faults n c in
        let room = ensure_capacity w.faults n c in
        rw (e, write_block)
          (place_block-IsSound (b ∷ bs) c room
            (subst (λ faults. Room n c (ensure_capacity faults n c)) (sym none_fails)
              (ensure_capacity-Room n c sound))
            (absent-Keeps c room.1 path keeps (exists_file-none path c.files e))
            (absent-Keeps c room.1 (w.temp index) keeps free))
  ]

  remove_block-IsSound :
      (c : Cache) (f : DiskFile)
      → IsSound c
      → find_file path c.files ≡ some f
      → IsSound (remove_block w.faults path (length f.content) c)
  remove_block-IsSound c f sound e =
      let less = size_of-drop path c.files f sound.counted.distinct e in
      rw (ap (λ (faults : Faults). faults.remove path) none_fails, remove_block)
        (record {
          counted = record {
            distinct = Distinct-drop path c.files sound.counted.distinct;
            counted = ground (arith, less, sound.counted.counted);
          };
          bounded = ground (arith, less, sound.bounded);
        })

  remove_block-absent :
      (c : Cache) (n : ℕ) (q : Bytes)
      → find_file q c.files ≡ none
      → find_file q (remove_block w.faults path n c).files ≡ none
  remove_block-absent c n q h =
      rw (ap (λ (faults : Faults). faults.remove path) none_fails, remove_block)
        (elim (Option-cases (find_file q (drop_file path c.files))) [
          | inl e ↦ e
          | inr (f, e) ↦ cc (find_file-drop path q c.files f e)
        ])

  module _ (n : ℕ) (fetched : Result Bytes) where
    store_block-IsSound :
        (c : Cache)
        → IsSound c
        → find_file (w.temp index) c.files ≡ none
        → IsSound (store_block w index path n fetched c).1
    store_block-IsSound c sound free = go fetched
      where
        go : (r : Result Bytes) → IsSound (store_block w index path n r c).1
        go (err e) = sound
        go (ok b) = elim (Bool-cases (length b == n)) [
          | inl e ↦ rw e (write_block-IsSound b c sound free)
          | inr e ↦ rw e sound
        ]

    use_file-IsSound :
        (c : Cache) (found : Option DiskFile)
        → IsSound c
        → find_file (w.temp index) c.files ≡ none
        → find_file path c.files ≡ found
        → IsSound (use_file w index path n fetched c found).1
    use_file-IsSound c none sound free e = store_block-IsSound c sound free
    use_file-IsSound c (some f) sound free e = elim (Bool-cases (length f.content == n)) [
      | inl same ↦ rw same sound
      | inr other ↦ rw other (
          store_block-IsSound (remove_block w.faults path (length f.content) c)
            (remove_block-IsSound c f sound e)
            (remove_block-absent c (length f.content) (w.temp index) free))
    ]

    open_block-IsSound :
        (c : Cache) (o : Option Error)
        → IsSound c
        → find_file (w.temp index) c.files ≡ none
        → IsSound (open_block w index path n fetched c o).1
    open_block-IsSound c none sound free =
        use_file-IsSound c (find_file path c.files) sound free refl
    open_block-IsSound c (some e) sound free = elim (Bool-cases (is_not_exist e)) [
      | inl gone ↦ rw gone (store_block-IsSound c sound free)
      | inr other ↦ rw other sound
    ]

-- Where no call that changes files fails and the name of the temporary file is free, getBlock keeps
-- the counter right and the files within the limit, whatever the fetch answers: also when it removes
-- a file of a wrong length, prunes for room, or finds none and does not write the block.
pub get_block-IsSound :
    (w : World) (s : CachedSource) (index n : ℕ) (fetched : Result Bytes) (c : Cache)
    → w.faults ≡ no_faults
    → IsSound c
    → find_file (w.temp index) c.files ≡ none
    → IsSound (get_block w s index n fetched c).1
unfolding get_block
get_block-IsSound w s index n fetched c none_fails sound free =
    let path = block_path w s c.dir c.shard_prefix_len index in
    open_block-IsSound w none_fails index path n fetched c (w.unreadable path) sound free
