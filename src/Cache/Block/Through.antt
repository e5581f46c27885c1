-- ===== src/Cache/Block/Through.antt =====
-- Reads through the block cache (core/cache/disk/blockcache.go) against reads of the source.
use mathlib.Core.Path.{subst, ap₂}
use native.Mathlib.Nat.{
  div-mul-le_self, lt-div-mul-add, le-div_iff_mul-le, add-mul, mul-le-mul_right, one-mul,
}
use blob.Prelude.{
  ℕ, zero, suc, ◌+◌, ◌-◌, ◌*◌, ◌/◌, ◌≤◌, ◌<◌, ◌≡◌, refl, sym, ap, ◌∙◌, min, max, Bool, true, false,
  inl, inr, Option, none, some, ◌∷◌, arith, leb, ltb, ◌==◌, length, take, drop, slice, pos, eof,
  Result, ok, Bool-cases, if◌then◌else◌, length-take, length-drop, length-append, ◌&&◌,
}
use blob.Prelude.Bytes.{Bytes, equal}
use blob.Prelude.Copies.{copy_into, filled, copy_into-filled, slice-slice, length-slice}
use blob.Cache.Disk.{DiskFile, Cache, find_file}
use blob.Cache.Block.{
  World, CachedSource, read_block_from_source, store_block, use_file, open_block, get_block,
  block_path, block_start, block_end, block_len, copy_block, after_block, blocks_loop, available,
  read_blocks, read_from, read_at,
}
use blob.Cache.Block.Coherent.{Adds, get_block-Adds}
use blob.ByteSource.{Read, direct_read, Holds}
use blob.Cache.Block.Direct.{read_block_from_source-Holds}

-- The block of `content` with an index.
abbrev pub block_of : CachedSource → Bytes → ℕ → Bytes
block_of s content i = slice (block_start s i) (block_end s i) content

-- What the cache relies on: the source holds `content`, the keys of the blocks of the source differ
-- (SHA-256 tells them apart), temporary files have other names, and files can be read.
pub record Suits (w : World) (s : CachedSource) (content dir : Bytes) (shard : ℕ) : Type 0 where
  pub sized : 0 < s.block_size
  pub holds : Holds s.src content
  pub apart :
      (i j : ℕ)
      → block_start s i < length content
      → block_start s j < length content
      → block_path w s dir shard i ≡ block_path w s dir shard j
      → i ≡ j
  pub temps : (i j : ℕ) → equal (w.temp i) (block_path w s dir shard j) ≡ false
  pub readable : (i : ℕ) → w.unreadable (block_path w s dir shard i) ≡ none

-- A file of a block's length under the block's name is the block.
pub record Coherent (w : World) (s : CachedSource) (content dir : Bytes) (shard : ℕ) (c : Cache)
    : Type 0 where
  pub dir_eq : c.dir ≡ dir
  pub shard_eq : c.shard_prefix_len ≡ shard
  pub blocks :
      (i : ℕ) (f : DiskFile)
      → block_start s i < length content
      → find_file (block_path w s dir shard i) c.files ≡ some f
      → length f.content ≡ block_len s i
      → f.content ≡ block_of s content i

module _ (w : World) (s : CachedSource) (content dir : Bytes) (shard : ℕ)
    (suits : Suits w s content dir shard) where
  length-block_of :
      (i : ℕ) → block_start s i < length content → length (block_of s content i) ≡ block_len s i
  length-block_of i h =
      length-slice (block_start s i) (block_end s i) content (omega (arith, suits.holds.size))
        (omega (arith, suits.holds.size))

  fetched-block :
      (i : ℕ)
      → block_start s i < length content
      → read_block_from_source s.src (block_start s i) (block_len s i) ≡ ok (block_of s content i)
  fetched-block i h =
      read_block_from_source-Holds s.src content (block_start s i) (block_len s i) suits.holds
        (omega (arith, suits.holds.size))

  abbrev fetch : ℕ → Result Bytes
  fetch i = read_block_from_source s.src (block_start s i) (block_len s i)

  abbrev got : ℕ → Cache → Result Bytes × Cache
  got i c = get_block w s i (block_len s i) (fetch i) c

  got-Coherent :
      (i : ℕ) (c : Cache)
      → block_start s i < length content
      → Coherent w s content dir shard c
      → Coherent w s content dir shard (got i c).1
  got-Coherent i c h co = record {
    dir_eq = adds.dir ∙ co.dir_eq;
    shard_eq = adds.shard ∙ co.shard_eq;
    blocks = λ j f l e k. elim (adds.found (block_path w s dir shard j) f (suits.temps i j) e) [
      | inl old ↦ co.blocks j f l old k
      | inr (p, q) ↦ q ∙ ap (block_of s content) (suits.apart i j h l (sym here ∙ p))
    ];
  }
    where
      here : block_path w s c.dir c.shard_prefix_len i ≡ block_path w s dir shard i
      here = rw (co.dir_eq, co.shard_eq)

      right : (b : Bytes) → fetch i ≡ ok b → b ≡ block_of s content i
      right b e = cc (fetched-block i h)

      adds :
          Adds
            (w.temp i)
            (block_path w s c.dir c.shard_prefix_len i)
            (block_of s content i)
            c
            (got i c).1
      adds = get_block-Adds w s i (block_len s i) (fetch i) c (block_of s content i) right

  store_block-fetched :
      (i : ℕ) (path : Bytes) (c : Cache)
      → block_start s i < length content
      → (store_block w i path (block_len s i) (fetch i) c).0 ≡ ok (block_of s content i)
  store_block-fetched i path c h =
      rw (fetched-block i h, store_block) (ground (arith, length-block_of i h))

  open_block-fetched :
      (i : ℕ) (path : Bytes) (c : Cache)
      → path ≡ block_path w s dir shard i
      → block_start s i < length content
      → Coherent w s content dir shard c
      → (open_block w i path (block_len s i) (fetch i) c (w.unreadable path)).0
        ≡ ok (block_of s content i)
  open_block-fetched i path c p h co =
      rw (ap w.unreadable p ∙ suits.readable i, open_block) (go (find_file path c.files) refl)
    where
      go :
          (o : Option DiskFile)
          → find_file path c.files ≡ o
          → (use_file w i path (block_len s i) (fetch i) c o).0 ≡ ok (block_of s content i)
      go none e = store_block-fetched i path c h
      go (some f) e = elim (Bool-cases (length f.content == block_len s i)) [
        | inl same ↦
            let here = subst (λ q. find_file q c.files ≡ some f) p e in
            rw (same, use_file) (ap ok (co.blocks i f h here (ground arith)))
        | inr other ↦ rw (other, use_file) (store_block-fetched i path _ h)
      ]

  got-block :
      (i : ℕ) (c : Cache)
      → block_start s i < length content
      → Coherent w s content dir shard c
      → (got i c).0 ≡ ok (block_of s content i)
  unfolding get_block
  got-block i c h co =
      open_block-fetched i (block_path w s c.dir c.shard_prefix_len i) c
        (rw (co.dir_eq, co.shard_eq)) h co

  -- How far the loop has come before the block with an index.
  module _ (off expected : ℕ) (p : Bytes) where
    abbrev IsAt : ℕ → ℕ → Type 0
    IsAt i n = off + n ≡ min (off + expected) (max off (block_start s i))

    start-next : (i : ℕ) → block_start s (i + 1) ≡ block_start s i + s.block_size
    start-next i = omega (arith, add-mul i 1 s.block_size, one-mul s.block_size)

    abbrev copy_start : ℕ → ℕ
    copy_start i = max off (block_start s i)

    abbrev copy_end : ℕ → ℕ
    copy_end i = min (off + expected) (block_end s i)

    -- The part of a block between two offsets, copied behind what has been filled.
    copy-part :
        (i n from upto : ℕ)
        → from ≡ off + n
        → block_start s i ≤ from
        → from ≤ upto
        → upto ≤ block_end s i
        → upto ≤ length content
        → copy_into
            (filled content off n p)
            (from - off)
            (slice (from - block_start s i) (upto - block_start s i) (block_of s content i))
          ≡ filled content off (n + (upto - from)) p
    copy-part i n from upto e low order high inside =
        let width : block_start s i
              + (upto - block_start s i)
              - (block_start s i + (from - block_start s i))
            ≡ upto - from =
          omega arith in
        let place : block_start s i + (from - block_start s i) ≡ off + n = omega arith in
        let offset : from - off ≡ n = omega arith in
        ap₂ (copy_into (filled content off n p)) offset (
          slice-slice (from - block_start s i) (upto - block_start s i) (block_start s i)
            (block_end s i) content (omega arith)
          ∙ ap₂ (λ k m. take k (drop m content)) width place)
        ∙ copy_into-filled content p off n (upto - from) (omega arith)

    -- One block is copied behind what has been filled.
    copy_block-filled :
        (i n : ℕ)
        → off + expected ≤ length content
        → block_start s i < length content
        → IsAt i n
        → record {
          after : ℕ;
          copies :
              copy_block s off expected i (block_of s content i) n (filled content off n p)
              ≡ (after, filled content off after p);
          at : IsAt (i + 1) after;
        }
    copy_block-filled i n inside h at = elim (Bool-cases (ltb (copy_start i) (copy_end i))) [
      | inl e ↦ record {
        after = n + (copy_end i - copy_start i);
        copies =
            rw (e, copy_block)
              (let lt : copy_start i < copy_end i = ground arith in
                ap (λ q. (n + (copy_end i - copy_start i), q))
                  (copy-part i n (copy_start i) (copy_end i) (omega arith) (omega arith)
                    (omega arith) (omega arith) (omega arith)));
        at = ground (arith, start-next i, suits.holds.size, suits.sized);
      }
      | inr e ↦ record {
        after = n;
        copies = rw (e, copy_block);
        at = ground (arith, start-next i, suits.holds.size, suits.sized);
      }
    ]

    length-filled :
        (n : ℕ)
        → off + n ≤ length content
        → n ≤ length p
        → length (filled content off n p) ≡ length p
    length-filled n inside fits = omega (
      arith,
      length-append (take n (drop off content)) (drop n p),
      length-take n (drop off content),
      length-drop off content,
      length-drop n p,
    )

    abbrev complete : Read
    complete = record {
      count = expected;
      buffer = filled content off expected p;
      error = if ltb expected (length p) then some eof else none;
    }

    abbrev loop : ℕ → ℕ → ℕ → Bytes → Cache → Read × Cache
    loop = blocks_loop w s off expected

    blocks_loop-step :
        (k i n after : ℕ) (c : Cache)
        → block_start s i < length content
        → Coherent w s content dir shard c
        → copy_block s off expected i (block_of s content i) n (filled content off n p)
          ≡ (after, filled content off after p)
        → loop (suc k) i n (filled content off n p) c
          ≡ loop k (i + 1) after (filled content off after p) (got i c).1
    unfolding blocks_loop
    blocks_loop-step k i n after c h co copies =
        let whole : ltb (length (block_of s content i)) (block_len s i) ≡ false =
          ground (arith, length-block_of i h) in
        rw (got-block i c h co, after_block)
          (rw whole (ap (λ q. loop k (i + 1) q.0 q.1 (got i c).1) copies))

    -- The loop up to the block `stop`, which is the first behind what is asked for.
    blocks_loop-filled :
        (k i stop n : ℕ) (c : Cache)
        → i + k ≡ stop
        → off + expected ≤ length content
        → expected ≤ length p
        → off + expected ≤ block_start s stop
        → block_start s stop < off + expected + s.block_size
        → IsAt i n
        → Coherent w s content dir shard c
        → ((loop k i n (filled content off n p) c).0 ≡ complete)
          × Coherent w s content dir shard (loop k i n (filled content off n p) c).1
    unfolding blocks_loop
    blocks_loop-filled zero i stop n c count inside fits ends starts at co =
        let same : n ≡ expected = omega (arith, ap (λ m. m * s.block_size) count) in
        (rw same (rw (length-filled expected inside fits)), co)
    blocks_loop-filled (suc k) i stop n c count inside fits ends starts at co =
        rw (blocks_loop-step k i n copied.after c h co copied.copies) (
          blocks_loop-filled k (i + 1) stop copied.after (got i c).1 (omega arith) inside fits ends
            starts copied.at (got-Coherent i c h co))
      where
        h : block_start s i < length content
        h = omega (
          arith,
          mul-le-mul_right {m = i + 1} {n = stop} s.block_size (omega arith),
          start-next i,
        )

        copied : record {
          after : ℕ;
          copies :
              copy_block s off expected i (block_of s content i) n (filled content off n p)
              ≡ (after, filled content off after p);
          at : IsAt (i + 1) after;
        }
        copied = copy_block-filled i n inside h at

  -- The result of a read: the direct one, and a cache that is coherent still.
  abbrev Agrees : Bytes → ℕ → Read × Cache → Type 0
  Agrees p off r = (r.0 ≡ direct_read content p off) × Coherent w s content dir shard r.1

  read_blocks-Agrees :
      (p : Bytes) (off : ℕ) (c : Cache)
      → 0 < length p
      → off < length content
      → Coherent w s content dir shard c
      → Agrees p off (read_blocks w s off (available s.src.size off (length p)) p c)
  read_blocks-Agrees p off c full inside co =
      go (ltb 0 s.max_blocks_per_read && ltb s.max_blocks_per_read (end + 1 - off / s.block_size))
        refl
    where
      n : ℕ
      n = available s.src.size off (length p)

      count : n ≡ min (length p) (length content - off)
      count = ground (arith, suits.holds.size)

      end : ℕ
      end = (off + n - 1) / s.block_size

      order : off / s.block_size ≤ end
      order =
          (le-div_iff_mul-le {x = off / s.block_size} {y = off + n - 1} suits.sized).1
            (omega (arith, count, div-mul-le_self off s.block_size))

      filled-loop :
          ((loop off n p
              (end + 1 - off / s.block_size)
              (off / s.block_size)
              0
              (filled content off 0 p)
              c).0
            ≡ complete off n p)
          × Coherent w s content dir shard
              (loop off n p
                (end + 1 - off / s.block_size)
                (off / s.block_size)
                0
                (filled content off 0 p)
                c).1
      filled-loop =
          blocks_loop-filled off n p (end + 1 - off / s.block_size) (off / s.block_size) (end + 1) 0
            c (omega (arith, order)) (omega (arith, count)) (omega (arith, count))
            (omega
              (arith, count, lt-div-mul-add {a = off + n - 1} suits.sized, start-next off n p end))
            (omega
              (arith, count, div-mul-le_self (off + n - 1) s.block_size, start-next off n p end))
            (omega (arith, div-mul-le_self off s.block_size)) co

      go :
          (bypass : Bool)
          → (ltb 0 s.max_blocks_per_read
              && ltb s.max_blocks_per_read (end + 1 - off / s.block_size))
            ≡ bypass
          → Agrees p off (read_blocks w s off n p c)
      go true e = rw (e, read_blocks) (suits.holds.reads p off full inside, co)
      go false e =
          rw (e, read_blocks) (filled-loop.0 ∙ ap (λ m. complete off m p) count, filled-loop.1)

  -- A read into a buffer that is not empty, through a cache whose files of a block's length are the
  -- blocks of the source, reports what a direct read of the source reports (count, buffer and error),
  -- whatever calls that write, rename, prune or remove files fail, and it leaves such a cache.
  pub read_at-direct :
      (b : ℕ) (bs : Bytes) (off : ℕ) (c : Cache)
      → Coherent w s content dir shard c
      → ((read_at w s (b ∷ bs) (pos off) c).0 ≡ direct_read content (b ∷ bs) off)
        × Coherent w s content dir shard (read_at w s (b ∷ bs) (pos off) c).1
  unfolding read_at
  read_at-direct b bs off c co = elim (Bool-cases (leb s.src.size off)) [
    | inl e ↦
        let none_left : min (length (b ∷ bs)) (length content - off) ≡ 0 =
          ground (arith, suits.holds.size) in
        rw (e, read_from) (rw none_left (ground arith, co))
    | inr e ↦
        rw (e, read_from)
          (read_blocks-Agrees (b ∷ bs) off c (omega arith) (ground (arith, suits.holds.size)) co)
  ]
