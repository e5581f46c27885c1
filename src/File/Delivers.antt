-- ===== src/File/Delivers.antt =====
-- What the calls of Read on an open file (core/internal/file/file.go) deliver together.
use blob.Prelude.{
  ℕ, ◌≡◌, refl, sym, ap, ◌∙◌, Bool, Option, some, List, [], ◌∷◌, ◌++◌, arith, Error, eof,
}
use mathlib.Core.List.{append_assoc, append-nil}
use mathlib.Core.Path.{subst}
use blob.Prelude.Bytes.{Bytes}
use blob.Entry.{Entry}
use blob.Reading.{FileReader}
use blob.Reading.Verified.{HasContent}
use blob.File.{
  Pace, Phase, fresh, failed, opened, File, open_file, started, init, read_opened, read_phase, read,
}
use blob.File.Reads.{read_opened-Steps}
use blob.File.Starts.{Delivered, IsStarted, started-Delivered}

-- A file and what it has delivered so far.
abbrev pub Has : FileReader → Entry → File → Bytes → Type 0
Has r e f bytes = (f.file_reader ≡ r) × (f.entry ≡ e) × Delivered r e f.phase bytes

-- A call of Read that delivered more, and what its io.EOF means.
abbrev pub Continues : FileReader → Entry → Bytes → (Bytes × Option Error) × File → Type 0
Continues r e bytes ((more, end), f) =
    Has r e f (bytes ++ more) × (end ≡ some eof → HasContent r e (bytes ++ more))

read_phase-Continues :
    (r : FileReader) (e : Entry) (pace : Pace) (room : ℕ) (v : Bool) (p : Phase) (bytes : Bytes)
    → Delivered r e p bytes
    → IsStarted p
    → Continues r e bytes (
        read_phase pace room
          (record { file_reader = r; entry = e; verify_on_close = v; phase = p })
          p)
read_phase-Continues r e pace room v fresh bytes d s = absurd s
read_phase-Continues r e pace room v (failed x) bytes (none_yet, ne) s =
    ((refl, refl, (append-nil bytes ∙ none_yet, ne)), λ h. absurd (ne (ground arith)))
read_phase-Continues r e pace room v (opened o) bytes (w, same) s =
    let step = read_opened-Steps r.sha256 e pace room o w in
    let all = step.delivered ∙ ap (λ x. x ++ (read_opened r.sha256 e pace room o).0.0) same in
    (
      (refl, refl, (step.valid, all)),
      λ h.
          let (size, hash) = step.verified h in
          subst (HasContent r e) all (record { size = size; hash = hash }),
    )

-- One call of Read.
pub read-Continues :
    (r : FileReader) (e : Entry) (pace : Pace) (room : ℕ) (v : Bool) (p : Phase) (bytes : Bytes)
    → Delivered r e p bytes
    → Continues r e bytes
        (read pace room (record { file_reader = r; entry = e; verify_on_close = v; phase = p }))
unfolding read init
read-Continues r e pace room v p bytes d =
    let (d', s) = started-Delivered r e p bytes d in
    read_phase-Continues r e pace room v (started r e p) bytes d' s

Has-Continues :
    (r : FileReader) (e : Entry) (pace : Pace) (room : ℕ) (f : File) (bytes : Bytes)
    → Has r e f bytes
    → Continues r e bytes (read pace room f)
Has-Continues r e pace room f bytes (er, ee, d) =
    let here : Delivered f.file_reader f.entry f.phase bytes =
      subst (λ r'. Delivered r' f.entry f.phase bytes) (sym er)
        (subst (λ e'. Delivered r e' f.phase bytes) (sym ee) d) in
    subst (λ r'. Continues r' e bytes (read pace room f)) er
      (subst (λ e'. Continues f.file_reader e' bytes (read pace room f)) ee
        (read-Continues f.file_reader f.entry pace room f.verify_on_close f.phase bytes here))

-- Several calls of Read, with the bytes that they delivered.
unfoldable pub reads : List (Pace × ℕ) → File → Bytes × File
reads [] f = ([], f)
reads ((pace, room) ∷ calls) f =
    let (a, f') = read pace room f in let (more, f'') = reads calls f' in (a.0 ++ more, f'')

pub reads-Has :
    (r : FileReader) (e : Entry) (calls : List (Pace × ℕ)) (f : File) (bytes : Bytes)
    → Has r e f bytes
    → Has r e (reads calls f).1 (bytes ++ (reads calls f).0)
unfolding reads
reads-Has r e [] f bytes h = subst (Has r e f) (sym (append-nil bytes)) h
reads-Has r e ((pace, room) ∷ calls) f bytes h =
    let c = Has-Continues r e pace room f bytes h in
    subst (Has r e (reads calls (read pace room f).1).1)
      (append_assoc bytes (read pace room f).0.0 (reads calls (read pace room f).1).0)
      (reads-Has r e calls (read pace room f).1 (bytes ++ (read pace room f).0.0) c.0)

-- Whatever pieces are asked for, and whatever the source and the decoder do: where some calls of Read on
-- a file that was just opened are followed by one that reports io.EOF, all the bytes delivered together
-- have the size and the hash of the entry.
pub read-HasContent :
    (r : FileReader) (e : Entry) (v : Bool) (calls : List (Pace × ℕ)) (pace : Pace) (room : ℕ)
    → (read pace room (reads calls (open_file r e v)).1).0.1 ≡ some eof
    → HasContent r e (
        (reads calls (open_file r e v)).0 ++ (read pace room (reads calls (open_file r e v)).1).0.0)
unfolding open_file
read-HasContent r e v calls pace room h =
    (Has-Continues r e pace room (reads calls (open_file r e v)).1 (reads calls (open_file r e v)).0
        (reads-Has r e calls (open_file r e v) [] (refl, refl, refl))).1
      h
