-- ===== src/File/Reads.antt =====
-- The invariant of an open file (core/internal/file/file.go) and the calls of Read.
use blob.Prelude.{
  ℕ, ◌+◌, ◌≤◌, ◌≡◌, ◌≢◌, refl, sym, ◌∙◌, Bool, true, false, inl, inr, Option, none, some, [], ◌∷◌,
  ◌++◌, arith, length, length-append, length-take, min, ◌==◌, Bool-cases, Error, eof,
}
use mathlib.Core.List.{append-nil}
use blob.Prelude.Bytes.{Bytes, equal, equal_iff}
use blob.Entry.{Entry}
use blob.File.{
  Pace, Opened, read_some, verify_hash, verify_with, or_eof, at_end, extra, read_extra, after_read,
  absorb, read_unverified, read_opened,
}

pub read_some-length :
    (pace : Pace) (room : ℕ) (bs : Bytes) (e : Error) → length ((read_some pace room bs e).0) ≤ room
read_some-length pace room [] e = omega arith
read_some-length pace room (b ∷ bs) e = omega (arith, length-take (min room pace.grant) (b ∷ bs))

module _ (sha256 : Bytes → Bytes) (entry : Entry) where
  -- What was hashed and what remains make up the entry; it was verified at its end only, and without
  -- an error only if the hash is right.
  pub record WellFormed (o : Opened) : Type 0 where
    pub total : length o.hashed + o.remaining ≡ entry.original_size
    pub ended : o.verified ≡ true → o.remaining ≡ 0
    pub good : o.verified ≡ true → o.verify_error ≡ none → sha256 o.hashed ≡ entry.hash
    pub unverified : o.verified ≡ false → o.verify_error ≡ none
    pub no_end : o.verify_error ≢ some eof

  -- A call keeps the invariant and hashes what it delivers, which is no more than there is room for;
  -- if it reports the end, all was delivered and has the hash.
  pub record Steps (room : ℕ) (o : Opened) (r : (Bytes × Option Error) × Opened) : Type 0 where
    pub valid : WellFormed (r.1)
    pub delivered : (r.1).hashed ≡ o.hashed ++ (r.0).0
    pub bounded : length ((r.0).0) ≤ room
    pub verified :
        (r.0).1 ≡ some eof
        → (length (r.1).hashed ≡ entry.original_size) × (sha256 (r.1).hashed ≡ entry.hash)

  verify_hash-WellFormed :
      (o : Opened) → WellFormed o → o.remaining ≡ 0 → WellFormed (verify_hash sha256 entry o)
  unfolding verify_hash
  verify_hash-WellFormed o v z = go o.verified (equal (sha256 o.hashed) entry.hash) refl refl
    where
      go :
          (done right : Bool)
          → o.verified ≡ done
          → equal (sha256 o.hashed) entry.hash ≡ right
          → WellFormed (verify_with sha256 entry o done right)
      go true right d r = v
      go false true d r = record {
        total = v.total;
        ended = λ h. z;
        good = λ h k. (equal_iff (sha256 o.hashed) entry.hash).0 r;
        unverified = λ h. cc;
        no_end = v.no_end;
      }
      go false false d r = record {
        total = v.total;
        ended = λ h. z;
        good = λ h k. cc;
        unverified = λ h. cc;
        no_end = λ h. cc;
      }

  -- Verification changes neither what was hashed nor what remains, and is done afterwards.
  verify_hash-keeps :
      (o : Opened)
      → ((verify_hash sha256 entry o).hashed ≡ o.hashed)
        × ((verify_hash sha256 entry o).remaining ≡ o.remaining)
        × ((verify_hash sha256 entry o).verified ≡ true)
  unfolding verify_hash
  verify_hash-keeps o = go o.verified (equal (sha256 o.hashed) entry.hash) refl
    where
      go :
          (done right : Bool)
          → o.verified ≡ done
          → ((verify_with sha256 entry o done right).hashed ≡ o.hashed)
            × ((verify_with sha256 entry o done right).remaining ≡ o.remaining)
            × ((verify_with sha256 entry o done right).verified ≡ true)
      go true right d = (refl, refl, d)
      go false true d = (refl, refl, refl)
      go false false d = (refl, refl, refl)

  at_end-Steps :
      (room : ℕ) (before o : Opened) (bytes : Bytes)
      → WellFormed o
      → o.remaining ≡ 0
      → o.hashed ≡ before.hashed ++ bytes
      → length bytes ≤ room
      → Steps room before (at_end sha256 entry bytes o)
  at_end-Steps room before o bytes v z h le =
      let (same, rest, done) = verify_hash-keeps o in
      let w = verify_hash-WellFormed o v z in
      record {
        valid = w;
        delivered = same ∙ h;
        bounded = le;
        verified = λ e.
            let fine : (verify_hash sha256 entry o).verify_error ≡ none =
              no_error (verify_hash sha256 entry o).verify_error w.no_end e in
            (omega (arith, w.total, rest, z), w.good done fine);
      }
    where
      no_error :
          (e : Option Error) → e ≢ some eof → some (or_eof sha256 entry e) ≡ some eof → e ≡ none
      no_error none ne h = refl
      no_error (some x) ne h = absurd (ne h)

  -- A call that delivers nothing and does not report the end.
  nothing-Steps :
      (room : ℕ) (o o' : Opened) (e : Option Error)
      → WellFormed o'
      → o'.hashed ≡ o.hashed
      → e ≢ some eof
      → Steps room o (([], e), o')
  nothing-Steps room o o' e v same ne = record {
    valid = v;
    delivered = same ∙ sym (append-nil o.hashed);
    bounded = omega arith;
    verified = λ h. absurd (ne h);
  }

  extra-Steps :
      (room : ℕ) (o : Opened) (got : Bytes × Option Error)
      → WellFormed o
      → o.remaining ≡ 0
      → Steps room o (extra sha256 entry o got)
  extra-Steps room o ([], none) v z = nothing-Steps room o o none v refl (λ h. cc)
  extra-Steps room o ([], some eof) v z =
      at_end-Steps room o o [] v z (sym (append-nil o.hashed)) (omega arith)
  extra-Steps room o ([], some e) v z = nothing-Steps room o o (some e) v refl (λ h. cc)
  extra-Steps room o (b ∷ bs, e) v z =
      nothing-Steps room o _ _
        (record {
          total = v.total;
          ended = v.ended;
          good = v.good;
          unverified = v.unverified;
          no_end = v.no_end;
        })
        refl (λ h. cc)

  after_read-Steps :
      (room : ℕ) (before o : Opened) (bytes : Bytes) (e : Option Error)
      → WellFormed o
      → o.hashed ≡ before.hashed ++ bytes
      → length bytes ≤ room
      → Steps room before (after_read sha256 entry bytes o e)
  after_read-Steps room before o bytes none v h le = record {
    valid = v;
    delivered = h;
    bounded = le;
    verified = λ k. cc;
  }
  after_read-Steps room before o bytes (some eof) v h le = elim (Bool-cases (o.remaining == 0)) [
    | inl z ↦ rw (z, after_read) (at_end-Steps room before o bytes v (ground arith) h le)
    | inr z ↦
        rw (z, after_read) (record { valid = v; delivered = h; bounded = le; verified = λ k. cc })
  ]
  after_read-Steps room before o bytes (some e) v h le = record {
    valid = v;
    delivered = h;
    bounded = le;
    verified = λ k. cc;
  }

  absorb-Steps :
      (room : ℕ) (o : Opened) (got : Bytes × Option Error)
      → WellFormed o
      → o.verify_error ≡ none
      → (o.remaining ≡ 0 → ⊥)
      → length (got.0) ≤ min room o.remaining
      → Steps room o (absorb sha256 entry o got)
  absorb-Steps room o (bytes, e) v fine more le =
      after_read-Steps room o _ bytes e
        (record {
          total = omega (arith, v.total, length-append o.hashed bytes);
          ended = λ h. absurd (more (v.ended h));
          good = λ h k. absurd (more (v.ended h));
          unverified = v.unverified;
          no_end = v.no_end;
        })
        refl (omega arith)

  -- Every call of Read on an open file, whatever the reader below answers.
  pub read_opened-Steps :
      (pace : Pace) (room : ℕ) (o : Opened)
      → WellFormed o
      → Steps room o (read_opened sha256 entry pace room o)
  unfolding read_opened read_extra
  read_opened-Steps pace room o v = go o.verify_error refl
    where
      go :
          (e : Option Error)
          → o.verify_error ≡ e
          → Steps room o (read_unverified sha256 entry pace room o e)
      go (some e) h = nothing-Steps room o o (some e) v refl (λ k. v.no_end (h ∙ k))
      go none h = elim (Bool-cases (room == 0)) [
        | inl p ↦ rw (p, read_unverified) (nothing-Steps room o o none v refl (λ k. cc))
        | inr p ↦ elim (Bool-cases (o.remaining == 0)) [
          | inl q ↦
              rw (p, q, read_unverified)
                (extra-Steps room o (read_some pace 1 o.reader.content o.reader.ending) v
                  (ground arith))
          | inr q ↦
              rw (p, q, read_unverified)
                (absorb-Steps room o
                  (read_some pace (min room o.remaining) o.reader.content o.reader.ending) v h
                  (λ z. ground arith)
                  (read_some-length pace (min room o.remaining) o.reader.content o.reader.ending))
        ]
      ]
