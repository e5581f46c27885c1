-- ===== src/File/Starts.antt =====
-- What init of core/internal/file/file.go sets up, and the errors that it may keep.
use blob.Prelude.{
  ℕ, ◌≡◌, ◌≢◌, refl, sym, ap, ◌∙◌, Option, none, some, [], arith, size_overflow, eof, Result, ok,
  err, ◌>>=◌, ℤ, >>=-eq-ok,
}
use mathlib.Core.Path.{subst}
use blob.Prelude.Bytes.{Bytes}
use blob.Stream.{Reader}
use blob.Sizing.{to_int64}
use blob.Entry.{Entry, Compression, uncompressed, zstd, other}
use blob.Validation.{validate_for_read, validate_hash, validate_compression}
use blob.Reading.{
  FileReader, section_reader, entry_reader, reader_of, zstd_reader, range_reader, as_decompression,
}
use blob.File.{Opened, Phase, fresh, failed, opened, start, started, phase_of}
use blob.File.Reads.{WellFormed}

-- Never io.EOF.
abbrev Safe {ℓ} : {A : Type ℓ} → Result A → Type ℓ
Safe m = m ≡ err eof → ⊥

Safe-bind {ℓ κ} :
    {A : Type ℓ} {B : Type κ} (m : Result A) (f : A → Result B)
    → Safe m
    → ((a : A) → Safe (f a))
    → Safe (m >>= f)
Safe-bind (ok a) f h k = k a
Safe-bind (err e) f h k = λ p. h (ground arith)

Safe-to_int64 : (n : ℕ) → Safe (to_int64 n size_overflow)
unfolding to_int64
Safe-to_int64 n = λ h. ground arith

Safe-as_decompression {ℓ} : {A : Type ℓ} (m : Result A) → Safe (as_decompression m)
Safe-as_decompression (ok a) = λ h. cc
Safe-as_decompression (err e) = λ h. cc

Safe-reader_of :
    (r : FileReader) (e : Entry) (section : Reader) (c : Compression)
    → Safe (reader_of r e section c)
Safe-reader_of r e section uncompressed = λ h. cc
Safe-reader_of r e section (other v) = λ h. cc
Safe-reader_of r e section zstd = go r.source.read_range
  where
    go : (range : Option (ℕ → ℕ → Result Reader)) → Safe (zstd_reader r e section range)
    go none = Safe-as_decompression (r.get_decoder section)
    go (some read_range) =
        Safe-bind (as_decompression (range_reader e read_range))
          (λ x. as_decompression (r.get_decoder x))
          (Safe-as_decompression (range_reader e read_range))
          (λ x. Safe-as_decompression (r.get_decoder x))

Safe-validate :
    (e : Entry) (size : ℤ) (limit : ℕ)
    → Safe (validate_for_read e size limit) × Safe (validate_hash e) × Safe (validate_compression e)
unfolding validate_for_read validate_hash validate_compression
Safe-validate e size limit = (λ h. ground arith, λ h. ground arith, λ h. ground arith)

Safe-section : (r : FileReader) (e : Entry) → Safe (section_reader r e)
unfolding section_reader
Safe-section r e =
    Safe-bind (to_int64 e.data_offset size_overflow) _ (Safe-to_int64 e.data_offset) (λ o.
      Safe-bind (to_int64 e.data_size size_overflow) _ (Safe-to_int64 e.data_size) (λ l. λ h. cc))

Safe-entry_reader :
    (r : FileReader) (e : Entry) (section : Reader) → Safe (entry_reader r e section)
unfolding entry_reader
Safe-entry_reader r e section = Safe-reader_of r e section e.compression

-- The errors of init are none of them io.EOF, and the file that it sets up is well-formed.
start-Safe : (r : FileReader) (e : Entry) → Safe (start r e)
unfolding start
start-Safe r e =
    let (valid, hash, raw) = Safe-validate e r.source.size r.max_file_size in
    Safe-bind (validate_for_read e r.source.size r.max_file_size) _ valid (λ u.
      Safe-bind (validate_hash e) _ hash (λ u. Safe-bind (validate_compression e) _ raw (λ u.
        Safe-bind (section_reader r e) _ (Safe-section r e) (λ section.
          Safe-bind (entry_reader r e section) _ (Safe-entry_reader r e section) (λ x. λ h. cc)))))

start-WellFormed :
    (r : FileReader) (e : Entry) {o : Opened}
    → start r e ≡ ok o
    → WellFormed r.sha256 e o × (o.hashed ≡ [])
unfolding start
start-WellFormed r e {o} h =
    let (u, p1, h1) = >>=-eq-ok (validate_for_read e r.source.size r.max_file_size) _ h in
    let (v, p2, h2) = >>=-eq-ok (validate_hash e) _ h1 in
    let (w, p3, h3) = >>=-eq-ok (validate_compression e) _ h2 in
    let (section, p4, h4) = >>=-eq-ok (section_reader r e) _ h3 in
    let (reader, p5, h5) = >>=-eq-ok (entry_reader r e section) _ h4 in
    (
      record {
        total = ground arith;
        ended = λ k. ground arith;
        good = λ k. ground arith;
        unverified = λ k. ground arith;
        no_end = λ k. ground arith;
      },
      ground arith,
    )

-- What a file has delivered so far.
abbrev pub Delivered : FileReader → Entry → Phase → Bytes → Type 0
Delivered r e fresh bytes = bytes ≡ []
Delivered r e (failed x) bytes = (bytes ≡ []) × (x ≢ eof)
Delivered r e (opened o) bytes = WellFormed r.sha256 e o × (o.hashed ≡ bytes)

-- The phase after init
abbrev pub IsStarted : Phase → Type 0
IsStarted fresh = ⊥
IsStarted _ = Unit

phase_of-Delivered :
    (r : FileReader) (e : Entry) (m : Result Opened)
    → start r e ≡ m
    → Delivered r e (phase_of m) [] × IsStarted (phase_of m)
phase_of-Delivered r e (ok o) h = (start-WellFormed r e h, tt)
phase_of-Delivered r e (err x) h = ((refl, λ k. start-Safe r e (h ∙ ap err k)), tt)

pub started-Delivered :
    (r : FileReader) (e : Entry) (p : Phase) (bytes : Bytes)
    → Delivered r e p bytes
    → Delivered r e (started r e p) bytes × IsStarted (started r e p)
started-Delivered r e fresh bytes d =
    let (x, y) = phase_of-Delivered r e (start r e) refl in
    (subst (Delivered r e (phase_of (start r e))) (sym d) x, y)
started-Delivered r e (failed x) bytes d = (d, tt)
started-Delivered r e (opened o) bytes d = (d, tt)
