-- ===== src/Batch/FileSink/Files.antt =====
-- core/internal/batch/filesink.go: the files that a path finds after a change, a removal and a write.
use blob.Prelude.{
  ℕ, ◌≡◌, refl, ap, ◌∙◌, false, inl, inr, Option, none, some, List, [], ◌∷◌, ◌++◌, take, arith,
  Error, Bool-cases,
}
use blob.Prelude.Bytes.{Bytes, equal, equal_iff, equal_refl}
use blob.Batch.FileSink.{
  OutFile, Faults, Committer, find_out, drop_out, change, write, writes, append_content,
}

pub find_out-drop_other :
    (p q : Bytes) (fs : List OutFile)
    → equal p q ≡ false
    → find_out q (drop_out p fs) ≡ find_out q fs
unfolding drop_out find_out
find_out-drop_other p q [] h = refl
find_out-drop_other p q (g ∷ fs) h =
    ground
      (arith, equal_iff g.path p, equal_iff g.path q, equal_iff p q, find_out-drop_other p q fs h)

pub find_out-drop_self : (p : Bytes) (fs : List OutFile) → find_out p (drop_out p fs) ≡ none
unfolding drop_out find_out
find_out-drop_self p [] = refl
find_out-drop_self p (g ∷ fs) = ground (arith, find_out-drop_self p fs)

pub find_out-path :
    (p : Bytes) (fs : List OutFile) (f : OutFile) → find_out p fs ≡ some f → f.path ≡ p
unfolding find_out
find_out-path p [] f h = cc
find_out-path p (g ∷ fs) f h = ground (arith, equal_iff g.path p, find_out-path p fs f)

pub find_out_self : (f : OutFile) (fs : List OutFile) → find_out f.path (f ∷ fs) ≡ some f
unfolding find_out
find_out_self f fs = rw (equal_refl f.path)

pub find_out_other :
    (f : OutFile) (p : Bytes) (fs : List OutFile)
    → equal f.path p ≡ false
    → find_out p (f ∷ fs) ≡ find_out p fs
unfolding find_out
find_out_other f p fs h = rw h

pub find_out-change_other :
    (g : OutFile → OutFile) (p q : Bytes) (fs : List OutFile)
    → equal p q ≡ false
    → find_out q (change g p fs) ≡ find_out q fs
unfolding change find_out
find_out-change_other g p q [] h = refl
find_out-change_other g p q (f ∷ fs) h = elim (Bool-cases (equal f.path p)) [
  | inl e ↦
      let other : equal f.path q ≡ false =
        ground (arith, equal_iff f.path p, equal_iff f.path q, equal_iff p q) in
      rw (e, other) (find_out-change_other g p q fs h)
  | inr e ↦ elim (Bool-cases (equal f.path q)) [
    | inl a ↦ rw (e, a)
    | inr a ↦ rw (e, a) (find_out-change_other g p q fs h)
  ]
]

pub find_out-change_self :
    (g : OutFile → OutFile) (p : Bytes) (fs : List OutFile) (f : OutFile)
    → find_out p fs ≡ some f
    → find_out p (change g p fs) ≡ some (record (g f) { path = f.path })
unfolding change find_out
find_out-change_self g p [] f h = cc
find_out-change_self g p (x ∷ fs) f h = elim (Bool-cases (equal x.path p)) [
  | inl e ↦
      let same : x ≡ f = ground arith in
      rw (e, e) (ap (λ (y : OutFile). some (record (g y) { path = y.path })) same)
  | inr e ↦ rw (e, e) (find_out-change_self g p fs f (ground arith))
]

-- What one Write puts down, the part before an error included
abbrev pub put : Option (ℕ × Error) → Bytes → Bytes
put none p = p
put (some (n, e)) p = take n p

unfoldable pub all_put : Option (ℕ × Error) → List Bytes → Bytes → Bytes
all_put w [] b = b
all_put w (p ∷ ps) b = all_put w ps (b ++ put w p)

pub write_files :
    (faults : Faults) (c : Committer) (p : Bytes) (files : List OutFile)
    → (write faults c p files).1
      ≡ change (append_content faults (put faults.write p)) c.written files
unfolding write
write_files faults c p files = go faults.write refl
  where
    go :
        (w : Option (ℕ × Error))
        → faults.write ≡ w
        → (write faults c p files).1
          ≡ change (append_content faults (put faults.write p)) c.written files
    go none h = rw (write, h, h)
    go (some (n, e)) h = rw (write, h, h)

pub writes_other :
    (faults : Faults) (c : Committer) (ps : List Bytes) (files : List OutFile) (q : Bytes)
    → equal c.written q ≡ false
    → find_out q (writes faults c ps files) ≡ find_out q files
unfolding writes
writes_other faults c [] files q h = refl
writes_other faults c (p ∷ ps) files q h =
    writes_other faults c ps (write faults c p files).1 q h
    ∙ ap (find_out q) (write_files faults c p files)
    ∙ find_out-change_other (append_content faults (put faults.write p)) c.written q files h

-- A file that a write at `now` has not changed but in its content
abbrev pub fresh : Faults → Bytes → Bytes → OutFile
fresh faults path b = record { path = path; content = b; mode = 0x180; mod_time = faults.now }

pub writes_self :
    (faults : Faults) (c : Committer) (ps : List Bytes) (b : Bytes) (files : List OutFile)
    → find_out c.written files ≡ some (fresh faults c.written b)
    → find_out c.written (writes faults c ps files)
      ≡ some (fresh faults c.written (all_put faults.write ps b))
unfolding writes all_put
writes_self faults c [] b files h = h
writes_self faults c (p ∷ ps) b files h =
    writes_self faults c ps (b ++ put faults.write p) (write faults c p files).1 (
      ap (find_out c.written) (write_files faults c p files)
      ∙ find_out-change_self (append_content faults (put faults.write p)) c.written files
          (fresh faults c.written b) h)
