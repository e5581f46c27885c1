-- ===== src/File/Closing.antt =====
-- What Close of core/internal/file/file.go says where it verifies.
use mathlib.Core.List.{append_assoc, append-nil}
use mathlib.Core.Path.{subst}
use blob.Prelude.{
  ℕ, ◌≡◌, refl, sym, ap, ◌∙◌, Bool, true, false, Option, none, some, List, [], ◌∷◌, ◌++◌, arith,
  if◌then◌else◌, Error, eof,
}
use blob.Prelude.Bytes.{Bytes}
use blob.Entry.{Entry}
use blob.Reading.{FileReader}
use blob.Reading.Verified.{HasContent}
use blob.File.{
  Pace, Opened, Phase, fresh, failed, opened, File, open_file, started, init, read_opened,
  drain_room, drained, drain, close_phase, close, read, read_phase,
}
use blob.File.Reads.{WellFormed, Steps, read_opened-Steps}
use blob.File.Starts.{Delivered, started-Delivered}
use blob.File.Delivers.{Has, reads, reads-Has}

module _ (r : FileReader) (e : Entry) where
  -- More was hashed, and all of it is the content of the entry.
  pub record Ends (o o' : Opened) : Type 0 where
    pub more : Bytes
    pub hashed : o'.hashed ≡ o.hashed ++ more
    pub content : HasContent r e o'.hashed

  drained-Ends :
      (o o' : Opened) (again : Opened → Option (Option Error × Opened))
      (step : (Bytes × Option Error) × Opened)
      → Steps r.sha256 e drain_room o step
      → ((s : Opened) → WellFormed r.sha256 e s → again s ≡ some (none, o') → Ends s o')
      → drained again step ≡ some (none, o')
      → Ends o o'
  drained-Ends o o' again ((bytes, none), s) st ih h =
      let rest = ih s st.valid h in
      record {
        more = bytes ++ rest.more;
        hashed =
            rest.hashed
            ∙ ap (λ x. x ++ rest.more) st.delivered
            ∙ append_assoc o.hashed bytes rest.more;
        content = rest.content;
      }
  drained-Ends o o' again ((bytes, some eof), s) st ih h =
      let same : s ≡ o' = cc in
      let (size, hash) = st.verified refl in
      subst (Ends o) same (record {
        more = bytes;
        hashed = st.delivered;
        content = record { size = size; hash = hash };
      })
  drained-Ends o o' again ((bytes, some x), s) st ih h = cc

  drain-Ends :
      (paces : List Pace) (o o' : Opened)
      → WellFormed r.sha256 e o
      → drain r.sha256 e paces o ≡ some (none, o')
      → Ends o o'
  unfolding drain
  drain-Ends [] o o' w h = cc
  drain-Ends (pace ∷ paces) o o' w h =
      drained-Ends o o' (drain r.sha256 e paces) (read_opened r.sha256 e pace drain_room o)
        (read_opened-Steps r.sha256 e pace drain_room o w) (λ s. drain-Ends paces s o') h

  -- The answer that Close gives of a drain
  abbrev answer : Option (Option Error × Opened) → Option (Option Error)
  answer none = none
  answer (some (x, o)) = some x

  ended :
      (paces : List Pace) (o : Opened) (bytes : Bytes)
      → WellFormed r.sha256 e o
      → o.hashed ≡ bytes
      → answer (drain r.sha256 e paces o) ≡ some none
      → (more : Bytes) × HasContent r e (bytes ++ more)
  ended paces o bytes w same h = go (drain r.sha256 e paces o) refl h
    where
      go :
          (d : Option (Option Error × Opened))
          → drain r.sha256 e paces o ≡ d
          → answer d ≡ some none
          → (more : Bytes) × HasContent r e (bytes ++ more)
      go none p q = cc
      go (some (none, o')) p q =
          let end = drain-Ends paces o o' w p in
          (end.more, subst (HasContent r e) (end.hashed ∙ ap (λ x. x ++ end.more) same) end.content)
      go (some (some x, o')) p q = cc

  opened-Ends :
      (paces : List Pace) (o : Opened) (bytes : Bytes)
      → WellFormed r.sha256 e o
      → o.hashed ≡ bytes
      → answer (if o.verified then some (o.verify_error, o) else drain r.sha256 e paces o)
        ≡ some none
      → (more : Bytes) × HasContent r e (bytes ++ more)
  opened-Ends paces o bytes w same h = go o.verified refl h
    where
      go :
          (b : Bool)
          → o.verified ≡ b
          → answer (if b then some (o.verify_error, o) else drain r.sha256 e paces o) ≡ some none
          → (more : Bytes) × HasContent r e (bytes ++ more)
      go true p q =
          let fine : o.verify_error ≡ none = cc in
          (
            [],
            subst (HasContent r e) (same ∙ sym (append-nil bytes))
                (record { size = omega (arith, w.total, w.ended p); hash = w.good p fine }),
          )
      go false p q = ended paces o bytes w same q

  phase-Ends :
      (paces : List Pace) (p : Phase) (bytes : Bytes)
      → Delivered r e p bytes
      → close_phase
          (record { file_reader = r; entry = e; verify_on_close = true; phase = p })
          paces
          p
        ≡ some none
      → (more : Bytes) × HasContent r e (bytes ++ more)
  phase-Ends paces fresh bytes d h = cc
  phase-Ends paces (failed x) bytes d h = cc
  phase-Ends paces (opened o) bytes (w, same) h = opened-Ends paces o bytes w same (go _ h)
    where
      go :
          (d : Option (Option Error × Opened))
          → (elim d [ none ↦ none | some (x, o') ↦ some x ]) ≡ some none
          → answer d ≡ some none
      go none q = cc
      go (some (x, o')) q = q

  close-Ends :
      (paces : List Pace) (p : Phase) (bytes : Bytes)
      → Delivered r e p bytes
      → close paces (record { file_reader = r; entry = e; verify_on_close = true; phase = p })
        ≡ some none
      → (more : Bytes) × HasContent r e (bytes ++ more)
  unfolding close init
  close-Ends paces p bytes d h =
      phase-Ends paces (started r e p) bytes (started-Delivered r e p bytes d).0 h

  same-Ends :
      (paces : List Pace) (f : File) (bytes : Bytes)
      → Has r e f bytes
      → f.verify_on_close ≡ true
      → close paces f ≡ some none
      → (more : Bytes) × HasContent r e (bytes ++ more)
  same-Ends paces f bytes (er, ee, d) ev h = close-Ends paces f.phase bytes d (
      subst
        (λ x.
          close paces
            (record { file_reader = x; entry = e; verify_on_close = true; phase = f.phase })
          ≡ some none)
        er
        (subst
          (λ x.
            close paces (record {
              file_reader = f.file_reader;
              entry = x;
              verify_on_close = true;
              phase = f.phase;
            })
            ≡ some none)
          ee
          (subst
            (λ x.
              close paces (record {
                file_reader = f.file_reader;
                entry = f.entry;
                verify_on_close = x;
                phase = f.phase;
              })
              ≡ some none)
            ev h)))

read_phase-verify_on_close :
    (pace : Pace) (room : ℕ) (f : File) (p : Phase)
    → (read_phase pace room f p).1.verify_on_close ≡ f.verify_on_close
read_phase-verify_on_close pace room f fresh = refl
read_phase-verify_on_close pace room f (failed x) = refl
read_phase-verify_on_close pace room f (opened o) = refl

read-verify_on_close :
    (pace : Pace) (room : ℕ) (f : File) → (read pace room f).1.verify_on_close ≡ f.verify_on_close
unfolding read init
read-verify_on_close pace room f = read_phase-verify_on_close pace room (init f) (init f).phase

reads-verify_on_close :
    (calls : List (Pace × ℕ)) (f : File) → (reads calls f).1.verify_on_close ≡ f.verify_on_close
unfolding reads
reads-verify_on_close [] f = refl
reads-verify_on_close ((pace, room) ∷ calls) f =
    reads-verify_on_close calls (read pace room f).1 ∙ read-verify_on_close pace room f

-- Where Close, with verification on close, reports no error after some calls of Read on a file that was
-- just opened, the bytes delivered by those calls are the beginning of a content with the size and the
-- hash of the entry.
pub close-HasContent :
    (r : FileReader) (e : Entry) (calls : List (Pace × ℕ)) (paces : List Pace)
    → close paces (reads calls (open_file r e true)).1 ≡ some none
    → (more : Bytes) × HasContent r e ((reads calls (open_file r e true)).0 ++ more)
unfolding open_file
close-HasContent r e calls paces h =
    same-Ends r e paces (reads calls (open_file r e true)).1 (reads calls (open_file r e true)).0
      (reads-Has r e calls (open_file r e true) [] (refl, refl, refl))
      (reads-verify_on_close calls (open_file r e true)) h
