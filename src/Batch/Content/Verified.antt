-- ===== src/Batch/Content/Verified.antt =====
-- What processEntry of core/internal/batch/batch.go delivers.
use mathlib.Core.Path.{subst}
use mathlib.Core.List.{append_assoc, append-nil}
use blob.Prelude.{
  ℕ, zero, suc, ◌≡◌, refl, sym, ap, ◌∙◌, Bool, true, false, Option, none, some, List, [], ◌∷◌, ◌++◌,
  arith, length, take, drop, length-take, take-append-drop, take_of_length-le, short_write, Error,
  Result, ok, err, >>=-eq-ok, if◌then◌else◌, reject_if, not, ◌>>=◌, ◌==◌, decompression,
  size_overflow,
}
use blob.Prelude.Bytes.{Bytes, equal_iff}
use blob.Stream.{Reader, read_full, ensure_no_extra, skip}
use blob.Sizing.{to_int, to_int64}
use blob.Sizing.Bounds.{to_int64-ok}
use blob.Entry.{Entry, Compression, uncompressed, zstd, other}
use blob.Batch.Content.{
  Codec, Sink, Store, check_hash, verify_uncompressed, decompress, write_verify_uncompressed,
  push_byte, chunks, copy_n, copy_verify, stream_decompress_verify, stage_as, process_buffered,
  process_streamed, local_data, process_data, process_entry, as_decompression, map_copy_error,
  copy_write, new_entry_reader, write_all, put_buffered, commit, commit_or_discard,
}

-- The content has the size and the hash that the entry records.
pub record IsVerified (codec : Codec) (entry : Entry) (content : Bytes) : Type 0 where
  pub size : length content ≡ entry.original_size
  pub hash : codec.sha256 content ≡ entry.hash

pub read_full-length :
    (r : Reader) (n : ℕ) {content : Bytes} → read_full r n ≡ ok content → length content ≡ n
unfolding read_full
read_full-length r n h = ground (arith, length-take n r.content)

-- Where it reports no error, writeAll has got everything to the writer.
write_all-has :
    (write : Bytes → ℕ × Option Error) (fuel : ℕ) (bytes staged : Bytes) {u : Unit {0}}
    → (write_all write fuel bytes staged).0 ≡ ok u
    → (write_all write fuel bytes staged).1 ≡ staged ++ bytes
unfolding write_all
write_all-has write fuel [] staged h = sym (append-nil staged)
write_all-has write zero (b ∷ bs) staged h = cc
write_all-has write (suc fuel) (b ∷ bs) staged {u} h =
    go (write (b ∷ bs)).1 (write (b ∷ bs)).0 h
      (λ m. write_all-has write fuel (drop (suc m) (b ∷ bs)) (staged ++ take (suc m) (b ∷ bs)))
  where
    written : ℕ → Option Error → Result (Unit {0}) × Bytes
    written n o = elim o [
      | some e' ↦ (err e', staged ++ take n (b ∷ bs))
      | none ↦ elim n [
        | zero ↦ (err short_write, staged)
        | suc m ↦ write_all write fuel (drop (suc m) (b ∷ bs)) (staged ++ take (suc m) (b ∷ bs))
      ]
    ]

    go :
        (o : Option Error) (n : ℕ)
        → (written n o).0 ≡ ok u
        → ((m : ℕ)
            → (written (suc m) none).0 ≡ ok u
            → (written (suc m) none).1 ≡ (staged ++ take (suc m) (b ∷ bs)) ++ drop (suc m) (b ∷ bs))
        → (written n o).1 ≡ staged ++ (b ∷ bs)
    go (some e) n k rest = cc
    go none zero k rest = cc
    go none (suc m) k rest =
        rest m k
        ∙ append_assoc staged (take (suc m) (b ∷ bs)) (drop (suc m) (b ∷ bs))
        ∙ ap (λ xs. staged ++ xs) (take-append-drop (suc m) (b ∷ bs))

abbrev joined : List Bytes → Bytes
joined [] = []
joined (c ∷ cs) = c ++ joined cs

joined-push_byte : (b : ℕ) (cs : List Bytes) → joined (push_byte b cs) ≡ b ∷ joined cs
joined-push_byte b [] = refl
joined-push_byte b (c ∷ cs) = refl

joined-chunks :
    (pace : ℕ → ℕ) (i room : ℕ) (bytes : Bytes) → joined (chunks pace i room bytes) ≡ bytes
unfolding chunks
joined-chunks pace i room [] = refl
joined-chunks pace i zero (b ∷ bs) = ap (◌∷◌ b) (joined-chunks pace (suc i) (pace (suc i)) bs)
joined-chunks pace i (suc room) (b ∷ bs) =
    joined-push_byte b (chunks pace i room bs) ∙ ap (◌∷◌ b) (joined-chunks pace i room bs)

-- Where it reports no error, the copy has got every chunk to the writer.
copy_write-has :
    (write : Bytes → ℕ × Option Error) (cs : List Bytes) (staged : Bytes) {u : Unit {0}}
    → (copy_write write cs staged).0 ≡ ok u
    → (copy_write write cs staged).1 ≡ staged ++ joined cs
unfolding copy_write
copy_write-has write [] staged h = sym (append-nil staged)
copy_write-has write (c ∷ cs) staged {u} h =
    go (write c).1 (write c).0 h (copy_write-has write cs (staged ++ take (write c).0 c))
  where
    written : ℕ → Option Error → Result (Unit {0}) × Bytes
    written n o =
        let rest = copy_write write cs (staged ++ take n c) in
        elim o [
          | some x ↦ (err x, staged ++ take n c)
          | none ↦ if n == length c then rest else (err short_write, staged ++ take n c)
        ]

    go :
        (o : Option Error) (n : ℕ)
        → (written n o).0 ≡ ok u
        → ((copy_write write cs (staged ++ take n c)).0 ≡ ok u
            → (copy_write write cs (staged ++ take n c)).1 ≡ (staged ++ take n c) ++ joined cs)
        → (written n o).1 ≡ staged ++ (c ++ joined cs)
    go (some x) n k rest = cc
    go none n k rest = pick (n == length c) refl k
      where
        pick :
            (b : Bool)
            → (n == length c) ≡ b
            → (let r : Result (Unit {0}) × Bytes =
                  if b
                  then copy_write write cs (staged ++ take n c)
                  else (err short_write, staged ++ take n c) in
                r).0
              ≡ ok u
            → (let r : Result (Unit {0}) × Bytes =
                  if b
                  then copy_write write cs (staged ++ take n c)
                  else (err short_write, staged ++ take n c) in
                r).1
              ≡ staged ++ (c ++ joined cs)
        pick true e q =
            rest q
            ∙ append_assoc staged (take n c) (joined cs)
            ∙ ap (λ x. staged ++ (x ++ joined cs)) (take_of_length-le n c (ground arith))
        pick false e q = cc

-- A copy of so many bytes has that length, and the writer has got it.
copy_n-has :
    (pace : ℕ → ℕ) (write : Bytes → ℕ × Option Error) (r : Reader) (n : ℕ) {content : Bytes}
    → (copy_n pace write r n []).0 ≡ ok content
    → (length content ≡ n) × ((copy_n pace write r n []).1 ≡ content)
unfolding copy_n
copy_n-has pace write r n {content} h =
    let (u, p, q) =
      >>=-eq-ok (copy_write write (chunks pace 0 (pace 0) (take n r.content)) []).0 _ h in
    let all : content ≡ take n r.content = ground arith in
    (
      ground (arith, length-take n r.content),
      copy_write-has write (chunks pace 0 (pace 0) (take n r.content)) [] p
          ∙ joined-chunks pace 0 (pace 0) (take n r.content)
          ∙ sym all,
    )

module _ (codec : Codec) where
  check_hash-ok :
      (e : Entry) (content : Bytes) {u : Unit {0}}
      → check_hash codec e content ≡ ok u
      → codec.sha256 content ≡ e.hash
  unfolding check_hash
  check_hash-ok e content h = ground (arith, equal_iff (codec.sha256 content) e.hash)

  as_decompression-ok {ℓ} :
      {A : Type ℓ} (m : Result A) {a : A} → as_decompression m ≡ ok a → m ≡ ok a
  as_decompression-ok (ok b) h = h
  as_decompression-ok (err e) h = cc

  map_copy_error-ok {ℓ} : {A : Type ℓ} (m : Result A) {a : A} → map_copy_error m ≡ ok a → m ≡ ok a
  map_copy_error-ok (ok b) h = h
  map_copy_error-ok (err e) h = cc

  decompress-length :
      (c : Compression) (n : ℕ) (bytes : Bytes) {content : Bytes}
      → decompress codec c n bytes ≡ ok content
      → length content ≡ n
  unfolding decompress to_int
  decompress-length uncompressed n bytes h = ground arith
  decompress-length zstd n bytes h =
      let (s, p, h1) = >>=-eq-ok (to_int n size_overflow) _ h in
      let (r, q, h2) = >>=-eq-ok (as_decompression (codec.open_zstd bytes)) _ h1 in
      let (c, full, h3) = >>=-eq-ok (as_decompression (read_full r s)) _ h2 in
      let (u, last, h4) = >>=-eq-ok (ensure_no_extra (skip s r)) _ h3 in
      ground (arith, read_full-length r s (as_decompression-ok (read_full r s) full))
  decompress-length (other v) n bytes h = cc

  verify-IsVerified :
      (e : Entry) (bytes : Bytes) {u : Unit {0}}
      → verify_uncompressed codec e bytes ≡ ok u
      → IsVerified codec e bytes
  unfolding verify_uncompressed
  verify-IsVerified e bytes h =
      let (w, size, hash) =
        >>=-eq-ok (reject_if (not (length bytes == e.original_size)) decompression) _ h in
      record { size = ground arith; hash = check_hash-ok e bytes hash }

  -- Success adds the entry with a verified content to the store; an error leaves it as it was.
  abbrev pub Delivers : Entry → Store → Result (Unit {0}) × Store → Type 0
  Delivers e store (ok u, store') =
      (content : Bytes) × (store' ≡ store ++ (e, content) ∷ []) × IsVerified codec e content
  Delivers e store (err x, store') = store' ≡ store

  module _ (sink : Sink) where
    -- A stage that ends without an error has a verified content at the writer.
    abbrev Stages : Entry → Result (Unit {0}) × Bytes → Type 0
    Stages e (ok u, has) = IsVerified codec e has
    Stages e (err x, has) = Unit

    Stages-of :
        (e : Entry) (r : Result (Unit {0}) × Bytes)
        → ((u : Unit {0}) → r.0 ≡ ok u → IsVerified codec e r.1)
        → Stages e r
    Stages-of e (ok u, has) v = v u refl
    Stages-of e (err x, has) v = tt

    write_verify-Stages :
        (e : Entry) (bytes : Bytes) → Stages e (write_verify_uncompressed codec sink e bytes)
    unfolding write_verify_uncompressed
    write_verify-Stages e bytes = go (verify_uncompressed codec e bytes) refl
      where
        go :
            (v : Result (Unit {0}))
            → verify_uncompressed codec e bytes ≡ v
            → Stages e (
                let r : Result (Unit {0}) × Bytes = elim v [
                  | err x ↦ (err x, [])
                  | ok u ↦ write_all (sink.write e) (length bytes) bytes []
                ] in
                r)
        go (err x) p = tt
        go (ok u) p = Stages-of e (write_all (sink.write e) (length bytes) bytes []) (λ v h.
            let all = write_all-has (sink.write e) (length bytes) bytes [] h in
            subst (IsVerified codec e) (sym all) (verify-IsVerified e bytes p))

    copy_verify-Stages :
        (e : Entry) (r : Reader) (n : ℕ)
        → n ≡ e.original_size
        → Stages e (copy_verify codec sink e (ok (r, n)))
    unfolding copy_verify
    copy_verify-Stages e r n size = Stages-of e _ (λ u h.
        let copied = copy_n codec.pace (sink.write e) r n [] in
        let (c, p, h1) = >>=-eq-ok (map_copy_error copied.0) _ h in
        let (v, last, h2) = >>=-eq-ok (ensure_no_extra (skip n r)) _ h1 in
        let (long, has) = copy_n-has codec.pace (sink.write e) r n (map_copy_error-ok copied.0 p) in
        subst (IsVerified codec e) (sym has)
          (record { size = long ∙ size; hash = check_hash-ok e c h2 }))

    stream-Stages :
        (e : Entry) (bytes : Bytes) → Stages e (stream_decompress_verify codec sink e bytes)
    unfolding stream_decompress_verify copy_verify
    stream-Stages e bytes =
        go (new_entry_reader codec e.compression bytes) (to_int64 e.original_size size_overflow)
          refl
      where
        go :
            (m : Result Reader) (k : Result ℕ)
            → to_int64 e.original_size size_overflow ≡ k
            → Stages e (copy_verify codec sink e (do r ← m; expected ← k; ok (r, expected)))
        go (err x) k p = tt
        go (ok r) (err x) p = tt
        go (ok r) (ok n) p =
            copy_verify-Stages e r n (to_int64-ok e.original_size n size_overflow p).0

    stage-Stages :
        (k : Compression) (e : Entry) (bytes : Bytes) → Stages e (stage_as codec sink k e bytes)
    stage-Stages uncompressed e bytes = write_verify-Stages e bytes
    stage-Stages zstd e bytes = stream-Stages e bytes
    stage-Stages (other v) e bytes = stream-Stages e bytes

    put_buffered-Delivers :
        (e : Entry) (content : Bytes) (store : Store)
        → IsVerified codec e content
        → Delivers e store (put_buffered codec sink e content store)
    unfolding put_buffered
    put_buffered-Delivers e content store v = go (sink.put_error e)
      where
        go :
            (o : Option Error)
            → Delivers e store (
                let r : Result (Unit {0}) × Store = elim o [
                  | some x ↦ (err x, store)
                  | none ↦ (ok tt, store ++ (e, content) ∷ [])
                ] in
                r)
        go none = (content, refl, v)
        go (some x) = refl

    commit_or_discard-Delivers :
        (e : Entry) (store : Store) (r : Result (Unit {0}) × Bytes)
        → Stages e r
        → Delivers e store (commit_or_discard codec sink e store r)
    unfolding commit
    commit_or_discard-Delivers e store (err x, has) v = refl
    commit_or_discard-Delivers e store (ok u, has) v = go (sink.commit_error e)
      where
        go :
            (o : Option Error)
            → Delivers e store (
                let r : Result (Unit {0}) × Store = elim o [
                  | some x ↦ (err x, store)
                  | none ↦ (ok tt, store ++ (e, has) ∷ [])
                ] in
                r)
        go none = (has, refl, v)
        go (some x) = refl

    streamed-Delivers :
        (e : Entry) (bytes : Bytes) (store : Store)
        → Delivers e store (process_streamed codec sink e bytes store)
    unfolding process_streamed
    streamed-Delivers e bytes store = go (sink.open_error e)
      where
        go :
            (o : Option Error)
            → Delivers e store (
                let r : Result (Unit {0}) × Store = elim o [
                  | some x ↦ (err x, store)
                  | none ↦
                      commit_or_discard codec sink e store
                        (stage_as codec sink e.compression e bytes)
                ] in
                r)
        go none =
            commit_or_discard-Delivers e store (stage_as codec sink e.compression e bytes)
              (stage-Stages e.compression e bytes)
        go (some x) = refl

    buffered-Delivers :
        (e : Entry) (bytes : Bytes) (store : Store)
        → Delivers e store (process_buffered codec sink e bytes store)
    unfolding process_buffered
    buffered-Delivers e bytes store = go (decompress codec e.compression e.original_size bytes) refl
      where
        checked :
            (content : Bytes) (v : Result (Unit {0}))
            → check_hash codec e content ≡ v
            → length content ≡ e.original_size
            → Delivers e store (
                let r : Result (Unit {0}) × Store = elim v [
                  | err x ↦ (err x, store)
                  | ok u ↦ put_buffered codec sink e content store
                ] in
                r)
        checked content (err x) p size = refl
        checked content (ok u) p size =
            put_buffered-Delivers e content store
              (record { size = size; hash = check_hash-ok e content p })

        go :
            (m : Result Bytes)
            → decompress codec e.compression e.original_size bytes ≡ m
            → Delivers e store (
                let r : Result (Unit {0}) × Store = elim m [
                  | err x ↦ (err x, store)
                  | ok content ↦ elim (check_hash codec e content) [
                    | err x ↦ (err x, store)
                    | ok u ↦ put_buffered codec sink e content store
                  ]
                ] in
                r)
        go (err x) p = refl
        go (ok content) p =
            checked content (check_hash codec e content) refl
              (decompress-length e.compression e.original_size bytes p)

    mode-Delivers :
        (b : Bool) (e : Entry) (bytes : Bytes) (store : Store)
        → Delivers e store (
            if b
            then process_buffered codec sink e bytes store
            else process_streamed codec sink e bytes store)
    mode-Delivers true e bytes store = buffered-Delivers e bytes store
    mode-Delivers false e bytes store = streamed-Delivers e bytes store

    data-Delivers :
        (e : Entry) (store : Store) (m : Result Bytes)
        → Delivers e store (process_data codec sink e store m)
    data-Delivers e store (ok bytes) = mode-Delivers sink.is_buffered e bytes store
    data-Delivers e store (err x) = refl

    -- Whatever the data, the sink and the decoder do, and however its writers split the writes: where
    -- processEntry succeeds, the sink has got one more content, for this entry, and the bytes that it has
    -- got have the entry's size and hash; where processEntry fails, the sink has what it had.
    pub process_entry-Delivers :
        (e : Entry) (data_of_group : Bytes) (group_start : ℕ) (store : Store)
        → Delivers e store (process_entry codec sink e data_of_group group_start store)
    unfolding process_entry
    process_entry-Delivers e dat s store = data-Delivers e store (local_data e dat s)
