-- ===== src/Batch/FileSink/Atomic.antt =====
-- core/internal/batch/filesink.go: what a copy through a temporary file leaves at every path.
use blob.Prelude.{
  ℕ, zero, suc, ◌+◌, ◌≡◌, refl, ap, ◌∙◌, Bool, true, false, not, invalid_path, inl, inr, Option,
  none, some, List, [], ◌∷◌, if◌then◌else◌, arith, Error, Bool-cases, Result, ok, err,
}
use blob.Prelude.Bytes.{Bytes, equal}
use blob.Entry.{Entry}
use blob.FilePath.{valid_path}
use blob.Batch.FileSink.{
  OutFile, FileSink, Faults, Committer, find_out, drop_out, change, create_temp_file, writer,
  open_direct, opened_temp, first_error, writes, removed, perm, finished, commit_fault, reached,
  when, with_mode, rename_out, commit, discard,
}
use blob.Batch.FileSink.Files.{
  find_out-drop_other, find_out_self, find_out_other, find_out-change_other, find_out-change_self,
  writes_other, writes_self, fresh, all_put,
}

-- A temporary file takes the name of no file that is there.
create_temp_file-new :
    (k i : ℕ) (faults : Faults) (dest : Bytes) (files : List OutFile) (t : Bytes)
    → create_temp_file k i faults dest files ≡ ok t
    → find_out t files ≡ none
unfolding create_temp_file
create_temp_file-new zero i faults dest files t h = cc
create_temp_file-new (suc k) i faults dest files t h =
    ground (arith, create_temp_file-new k (i + 1) faults dest files t)

-- What Writer has done: the temporary file is the only change.
pub record Opened (faults : Faults) (e : Entry) (files : List OutFile) (c : Committer)
    (after : List OutFile) : Type 0 where
  indirect : c.direct ≡ false
  same_entry : c.entry ≡ e
  new_name : find_out c.written files ≡ none
  added : after ≡ fresh faults c.written [] ∷ files

opened_temp-Opened :
    (faults : Faults) (files : List OutFile) (e : Entry) (c : Committer) (after : List OutFile)
    (r : Result Bytes)
    → ((t : Bytes) → r ≡ ok t → find_out t files ≡ none)
    → opened_temp faults e files r ≡ (ok c, after)
    → Opened faults e files c after
opened_temp-Opened faults files e c after (err x) free h = cc
opened_temp-Opened faults files e c after (ok t) free h = ground (arith, free t refl)

writer-Opened :
    (faults : Faults) (s : FileSink) (files : List OutFile) (e : Entry) (c : Committer)
    (after : List OutFile)
    → s.direct_write ≡ false
    → writer faults s files e ≡ (ok c, after)
    → Opened faults e files c after
unfolding writer
writer-Opened faults s files e c after d h =
    go (valid_path e.path) (first_error faults.open_root faults.mkdir) s.direct_write d h
  where
    temp : Result Bytes
    temp = create_temp_file 10 0 faults e.path files

    go :
        (v : Bool) (o : Option Error) (direct : Bool)
        → direct ≡ false
        → (if not v then (err invalid_path, files) else (elim o [
          | some x ↦ (err x, files)
          | none ↦ (if direct then open_direct faults e files else opened_temp faults e files temp)
        ]))
          ≡ (ok c, after)
        → Opened faults e files c after
    go false o direct q k = cc
    go true (some x) direct q k = cc
    go true none true q k = cc
    go true none false q k =
        opened_temp-Opened faults files e c after temp
          (create_temp_file-new 10 0 faults e.path files) k

-- The file that a copy of an entry publishes
unfoldable published : Faults → FileSink → Entry → Bytes → OutFile
published faults s e b = record {
  path = e.path;
  content = b;
  mode = if s.preserve_mode then perm e.mode else 0x180;
  mod_time = if s.preserve_times then e.mod_time else faults.now;
}

-- The file at a path after a copy: the published one at the entry's path when Commit has no error, and the
-- file from before elsewhere.
unfoldable pub seen :
    Faults → FileSink → Entry → Bytes → Result (Unit {0}) → Bytes → List OutFile → Option OutFile
unfolding published
seen faults s e b (err x) p files = find_out p files
seen faults s e b (ok u) p files =
    if equal e.path p then some (published faults s e b) else find_out p files

removed_other :
    (faults : Faults) (path p : Bytes) (files : List OutFile)
    → equal path p ≡ false
    → find_out p (removed faults path files) ≡ find_out p files
removed_other faults path p files h = go faults.remove refl
  where
    go :
        (w : Option Error)
        → faults.remove ≡ w
        → find_out p (removed faults path files) ≡ find_out p files
    go none r = rw r (find_out-drop_other path p files h)
    go (some x) r = rw r

reached_other :
    (faults : Faults) (s : FileSink) (c : Committer) (files : List OutFile) (p : Bytes)
    → equal c.written p ≡ false
    → find_out p (reached faults s c files) ≡ find_out p files
unfolding reached
reached_other faults s c files p h =
    go (first_error faults.close (when s.preserve_mode faults.chmod)) refl
  where
    go :
        (w : Option Error)
        → first_error faults.close (when s.preserve_mode faults.chmod) ≡ w
        → find_out p (reached faults s c files) ≡ find_out p files
    go none r = rw (reached, r) (find_out-change_other (with_mode s c) c.written p files h)
    go (some x) r = rw (reached, r)

finished-fresh :
    (faults : Faults) (s : FileSink) (c : Committer) (t b : Bytes)
    → record (record (finished s c (fresh faults t b)) { path = t }) { path = c.entry.path }
      ≡ published faults s c.entry b
unfolding published
finished-fresh faults s c t b = elim (Bool-cases s.preserve_mode) [
  | inl m ↦ elim (Bool-cases s.preserve_times) [ inl n ↦ rw (m, n) | inr n ↦ rw (m, n) ]
  | inr m ↦ elim (Bool-cases s.preserve_times) [ inl n ↦ rw (m, n) | inr n ↦ rw (m, n) ]
]

rename_out-seen :
    (faults : Faults) (s : FileSink) (c : Committer) (b : Bytes) (files : List OutFile) (p : Bytes)
    → c.direct ≡ false
    → find_out c.written files
      ≡ some (record (finished s c (fresh faults c.written b)) { path = c.written })
    → equal c.written p ≡ false
    → find_out p (rename_out faults c files).1
      ≡ seen faults s c.entry b (rename_out faults c files).0 p files
unfolding seen find_out drop_out
rename_out-seen faults s c b files p d f h = go faults.rename refl
  where
    go :
        (w : Option Error)
        → faults.rename ≡ w
        → find_out p (rename_out faults c files).1
          ≡ seen faults s c.entry b (rename_out faults c files).0 p files
    go (some x) r = rw (d, r) (removed_other faults c.written p files h)
    go none r = elim (Bool-cases (equal c.entry.path p)) [
      | inl e ↦ rw (d, r, f, e) (ap some (finished-fresh faults s c c.written b))
      | inr e ↦
          rw (d, r, f, e)
            (find_out-drop_other c.entry.path p (drop_out c.written files) e
              ∙ find_out-drop_other c.written p files h)
    ]

seen_before :
    (faults : Faults) (s : FileSink) (e : Entry) (b : Bytes) (r : Result (Unit {0})) (p : Bytes)
    (fs gs : List OutFile)
    → find_out p fs ≡ find_out p gs
    → seen faults s e b r p fs ≡ seen faults s e b r p gs
unfolding seen
seen_before faults s e b (err x) p fs gs h = h
seen_before faults s e b (ok u) p fs gs h =
    ap (λ o. if equal e.path p then some (published faults s e b) else o) h

commit-seen :
    (faults : Faults) (s : FileSink) (c : Committer) (b : Bytes) (files : List OutFile) (p : Bytes)
    → c.direct ≡ false
    → find_out c.written files ≡ some (fresh faults c.written b)
    → equal c.written p ≡ false
    → find_out p (commit faults s c files).1
      ≡ seen faults s c.entry b (commit faults s c files).0 p files
unfolding commit seen
commit-seen faults s c b files p d f h = go (commit_fault faults s) refl
  where
    unchanged : find_out p (change (finished s c) c.written files) ≡ find_out p files
    unchanged = find_out-change_other (finished s c) c.written p files h

    go :
        (w : Option Error)
        → commit_fault faults s ≡ w
        → find_out p (commit faults s c files).1
          ≡ seen faults s c.entry b (commit faults s c files).0 p files
    go (some x) r =
        rw (commit, r, seen)
          (removed_other faults c.written p (reached faults s c files) h
            ∙ reached_other faults s c files p h)
    go none r =
        rw (commit, r)
          (rename_out-seen faults s c b (change (finished s c) c.written files) p d
              (find_out-change_self (finished s c) c.written files (fresh faults c.written b) f) h
            ∙ seen_before faults s c.entry b
                (rename_out faults c (change (finished s c) c.written files)).0 p
                (change (finished s c) c.written files) files unchanged)

discard_other :
    (faults : Faults) (c : Committer) (files : List OutFile) (p : Bytes)
    → equal c.written p ≡ false
    → find_out p (discard faults c files).1 ≡ find_out p files
unfolding discard
discard_other faults c files p h = go faults.remove refl
  where
    go :
        (w : Option Error)
        → faults.remove ≡ w
        → find_out p (discard faults c files).1 ≡ find_out p files
    go none r = rw (discard, r) (find_out-drop_other c.written p files h)
    go (some x) r = rw (discard, r)

-- Let a sink that does not write directly open a writer for an entry, whichever of the calls fail. The
-- temporary file's name is then free. While the chunks are written, and after Discard, every path but the
-- temporary file's has the file it had. After Commit that also holds when Commit has an error; when it has
-- none, the entry's path has a new file with the bytes written, with the entry's permission bits and time
-- where the sink preserves them, and every further path has the file it had.
pub writer-atomic :
    (faults : Faults) (s : FileSink) (files : List OutFile) (e : Entry) (c : Committer)
    (opened : List OutFile) (chunks : List Bytes) (p : Bytes)
    → s.direct_write ≡ false
    → writer faults s files e ≡ (ok c, opened)
    → equal c.written p ≡ false
    → (find_out c.written files ≡ none)
      × (find_out p (writes faults c chunks opened) ≡ find_out p files)
      × (find_out p (discard faults c (writes faults c chunks opened)).1 ≡ find_out p files)
      × (find_out p (commit faults s c (writes faults c chunks opened)).1
          ≡ seen faults s e
              (all_put faults.write chunks [])
              (commit faults s c (writes faults c chunks opened)).0
              p
              files)
writer-atomic faults s files e c opened chunks p d w h = (
  o.new_name,
  untouched,
  discard_other faults c written p h ∙ untouched,
  commit-seen faults s c body written p o.indirect has h
      ∙ seen_before faults s c.entry body (commit faults s c written).0 p written files untouched
      ∙ ap (λ x. seen faults s x body (commit faults s c written).0 p files) o.same_entry,
)
  where
    o : Opened faults e files c opened
    o = writer-Opened faults s files e c opened d w

    written : List OutFile
    written = writes faults c chunks opened

    body : Bytes
    body = all_put faults.write chunks []

    untouched : find_out p written ≡ find_out p files
    untouched =
        writes_other faults c chunks opened p h
        ∙ ap (find_out p) o.added
        ∙ find_out_other (fresh faults c.written []) p files h

    has : find_out c.written written ≡ some (fresh faults c.written body)
    has =
        writes_self faults c chunks [] opened
          (ap (find_out c.written) o.added ∙ find_out_self (fresh faults c.written []) files)
