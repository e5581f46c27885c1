-- ===== src/Save/Atomic.antt =====
-- core/save.go: what a Save leaves at every path.
use mathlib.Core.Path.{subst}
use blob.Prelude.{
  ℕ, ◌≡◌, refl, ap, ◌∙◌, true, false, inl, inr, ◌⊎◌, Option, none, some, List, ◌∷◌, if◌then◌else◌,
  take, arith, Error, Bool-cases, Result, ok, err,
}
use blob.Prelude.Bytes.{Bytes, equal, equal_iff}
use blob.Batch.FileSink.{OutFile, find_out, drop_out, first_error}
use blob.Batch.FileSink.Files.{
  find_out-drop_other, find_out-drop_self, find_out_self, find_out_other,
}
use blob.Save.{
  Faults, SaveFaults, temp_file, cleaned, finish_atomic, copied, write_file_atomic, copy_fault,
  stream_file_atomic, after_data, after_index, save,
}

-- The file that a call without an error leaves at the target
abbrev pub placed : Faults → Bytes → Bytes → OutFile
placed faults target body = record (temp_file faults body) { path = target }

unfoldable pub left :
    Faults → (target body : Bytes) → Result (Unit {0}) → Bytes → List OutFile → Option OutFile
left faults target body (err e) p files = find_out p files
left faults target body (ok u) p files =
    if equal target p then some (placed faults target body) else find_out p files

cleaned_temp :
    (faults : Faults) (w : Option Error) (body : Bytes) (files : List OutFile) (p : Bytes)
    → equal faults.temp p ≡ false
    → find_out p (cleaned w faults.temp (temp_file faults body ∷ files)) ≡ find_out p files
unfolding cleaned
cleaned_temp faults (some e) body files p h = find_out_other (temp_file faults body) p files h
cleaned_temp faults none body files p h =
    find_out-drop_other faults.temp p (temp_file faults body ∷ files) h
    ∙ find_out_other (temp_file faults body) p files h

finish_atomic-left :
    (faults : Faults) (target body : Bytes) (files : List OutFile) (p : Bytes)
    → equal faults.temp p ≡ false
    → find_out p (finish_atomic faults target body files).1
      ≡ left faults target body (finish_atomic faults target body files).0 p files
unfolding finish_atomic left find_out
finish_atomic-left faults target body files p h = go (first_error faults.close faults.rename) refl
  where
    full : List OutFile
    full = temp_file faults body ∷ files

    go :
        (w : Option Error)
        → first_error faults.close faults.rename ≡ w
        → find_out p (finish_atomic faults target body files).1
          ≡ left faults target body (finish_atomic faults target body files).0 p files
    go (some e) r = rw (finish_atomic, r) (cleaned_temp faults faults.remove body files p h)
    go none r = elim (Bool-cases (equal target p)) [
      | inl e ↦ rw (finish_atomic, r, find_out_self (temp_file faults body) files, e)
      | inr e ↦
          rw (finish_atomic, r, find_out_self (temp_file faults body) files, e)
            (find_out-drop_other target p (drop_out faults.temp full) e
              ∙ find_out-drop_other faults.temp p full h
              ∙ find_out_other (temp_file faults body) p files h)
    ]

copied-left :
    (w : Option (ℕ × Error)) (faults : Faults) (target body : Bytes) (files : List OutFile)
    (p : Bytes)
    → equal faults.temp p ≡ false
    → find_out p (copied w faults target body files).1
      ≡ left faults target body (copied w faults target body files).0 p files
unfolding copied left
copied-left none faults target body files p h = finish_atomic-left faults target body files p h
copied-left (some (n, e)) faults target body files p h =
    cleaned_temp faults faults.remove (take n body) files p h

write_file_atomic-left :
    (faults : Faults) (target body : Bytes) (files : List OutFile) (p : Bytes)
    → equal faults.temp p ≡ false
    → find_out p (write_file_atomic faults target body files).1
      ≡ left faults target body (write_file_atomic faults target body files).0 p files
unfolding write_file_atomic left
write_file_atomic-left faults target body files p h = go faults.create refl
  where
    go :
        (w : Option Error)
        → faults.create ≡ w
        → find_out p (write_file_atomic faults target body files).1
          ≡ left faults target body (write_file_atomic faults target body files).0 p files
    go (some e) r = rw (write_file_atomic, r)
    go none r = rw (write_file_atomic, r) (copied-left faults.write faults target body files p h)

stream_file_atomic-left :
    (faults : Faults) (target : Bytes) (r : Bytes × Option Error) (files : List OutFile) (p : Bytes)
    → equal faults.temp p ≡ false
    → find_out p (stream_file_atomic faults target r files).1
      ≡ left faults target r.0 (stream_file_atomic faults target r files).0 p files
unfolding stream_file_atomic left
stream_file_atomic-left faults target r files p h = go faults.create refl
  where
    go :
        (w : Option Error)
        → faults.create ≡ w
        → find_out p (stream_file_atomic faults target r files).1
          ≡ left faults target r.0 (stream_file_atomic faults target r files).0 p files
    go (some e) q = rw (stream_file_atomic, q)
    go none q =
        rw (stream_file_atomic, q)
          (copied-left (copy_fault faults.write r) faults target r.0 files p h)

-- A stream that ends in an error makes no file.
stream_file_atomic-whole :
    (faults : Faults) (target : Bytes) (r : Bytes × Option Error) (files : List OutFile)
    (u : Unit {0})
    → (stream_file_atomic faults target r files).0 ≡ ok u
    → r.1 ≡ none
unfolding stream_file_atomic copied
stream_file_atomic-whole faults target (body, none) files u h = refl
stream_file_atomic-whole faults target (body, some e) files u h =
    go faults.create refl faults.write refl
  where
    go :
        (w : Option Error)
        → faults.create ≡ w
        → (v : Option (ℕ × Error)) → faults.write ≡ v
        → some e ≡ none
    go w q v k = ground arith

-- What Save may leave at a path
unfoldable pub Saved :
    SaveFaults
    → (index_path data_path index_data : Bytes) → Bytes × Option Error
    → Result (Unit {0})
    → Bytes
    → List OutFile
    → Option OutFile
    → Type 0
Saved faults index_path data_path index_data r (ok u) p files o =
    (r.1 ≡ none)
    × (o ≡ (
        if equal data_path p
        then some (placed faults.body data_path r.0)
        else if equal index_path p
        then some (placed faults.index index_path index_data)
        else find_out p files))
Saved faults index_path data_path index_data r (err e) p files o =
    (o ≡ find_out p files)
    ⊎ ((equal index_path p ≡ true)
        × ((o ≡ none) ⊎ (o ≡ some (placed faults.index index_path index_data))))

-- Once the index file is there
after_data-Saved :
    (faults : SaveFaults) (index_path data_path index_data : Bytes) (r : Bytes × Option Error)
    (p : Bytes) (files between : List OutFile) (end : Result (Unit {0}) × List OutFile)
    → find_out p between ≡ (
        if equal index_path p
        then some (placed faults.index index_path index_data)
        else find_out p files)
    → find_out p end.1 ≡ left faults.body data_path r.0 end.0 p between
    → ((u : Unit {0}) → end.0 ≡ ok u → r.1 ≡ none)
    → Saved faults index_path data_path index_data r
        (after_data faults index_path end).0
        p
        files
        (find_out p (after_data faults index_path end).1)
unfolding Saved after_data left cleaned
after_data-Saved faults ip dp idata r p files between (ok u, fs) b h w =
    (w u refl, h ∙ ap (λ o. if equal dp p then some (placed faults.body dp r.0) else o) b)
after_data-Saved faults ip dp idata r p files between (err e, fs) b h w = go faults.remove_index
  where
    go :
        (x : Option Error)
        → Saved faults ip dp idata r (err e) p files (find_out p (cleaned x ip fs))
    go x = elim (Bool-cases (equal ip p)) [
      | inl q ↦ inr (q, gone x q)
      | inr q ↦ inl (kept x q ∙ h ∙ b ∙ rw q)
    ]
      where
        kept :
            (x : Option Error) → equal ip p ≡ false → find_out p (cleaned x ip fs) ≡ find_out p fs
        kept (some y) q = refl
        kept none q = find_out-drop_other ip p fs q

        gone :
            (x : Option Error)
            → equal ip p ≡ true
            → (find_out p (cleaned x ip fs) ≡ none)
              ⊎ (find_out p (cleaned x ip fs) ≡ some (placed faults.index ip idata))
        gone (some y) q = inr (h ∙ b ∙ rw q)
        gone none q = inl (
            subst (λ z. find_out z (drop_out ip fs) ≡ none) ((equal_iff ip p).0 q)
              (find_out-drop_self ip fs))

-- Let Save write an archive's index and data, whichever of the calls fail, and take a path other than the
-- temporary files'. When Save has no error, the stream of the data had none, the data path has a file with all
-- of its bytes, the index path has one with the bytes of the index (if it is another path), and every further
-- path has the file it had. When it has an error, the path has the file it had, or it is the index path, which
-- then has no file or one with all the bytes of the index.
pub save-Saved :
    (faults : SaveFaults) (index_path data_path index_data : Bytes) (r : Bytes × Option Error)
    (files : List OutFile) (p : Bytes)
    → equal faults.index.temp p ≡ false
    → equal faults.body.temp p ≡ false
    → Saved faults index_path data_path index_data r
        (save faults index_path data_path index_data r files).0
        p
        files
        (find_out p (save faults index_path data_path index_data r files).1)
unfolding save Saved after_index left
save-Saved faults ip dp idata r files p hi hb =
    go (first_error faults.mkdir_index faults.mkdir_data) refl
  where
    next :
        (i : Result (Unit {0}) × List OutFile)
        → find_out p i.1 ≡ left faults.index ip idata i.0 p files
        → Saved faults ip dp idata r
            (after_index faults ip dp r i).0
            p
            files
            (find_out p (after_index faults ip dp r i).1)
    next (err e, fs) h = inl h
    next (ok u, fs) h =
        after_data-Saved faults ip dp idata r p files fs (stream_file_atomic faults.body dp r fs) h
          (stream_file_atomic-left faults.body dp r fs p hb)
          (stream_file_atomic-whole faults.body dp r fs)

    go :
        (w : Option Error)
        → first_error faults.mkdir_index faults.mkdir_data ≡ w
        → Saved faults ip dp idata r
            (save faults ip dp idata r files).0
            p
            files
            (find_out p (save faults ip dp idata r files).1)
    go (some e) q = rw (save, q) (inl refl)
    go none q =
        rw (save, q)
          (next (write_file_atomic faults.index ip idata files)
            (write_file_atomic-left faults.index ip idata files p hi))
