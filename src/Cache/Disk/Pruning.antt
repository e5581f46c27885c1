-- ===== src/Cache/Disk/Pruning.antt =====
-- Pruning (core/cache/disk/size.go), its target and its account of the bytes.
use mathlib.Core.Path.{subst}
use blob.Prelude.{
  ℕ, ◌+◌, ◌-◌, ◌≤◌, ◌≡◌, refl, sym, ◌∙◌, Bool, true, false, Option, Error, inl, inr, none, some,
  List, [], ◌∷◌, arith, leb, length, All, Bool-cases,
}
use blob.Prelude.Bytes.{Bytes, equal, equal_comm, equal_iff}
use blob.Cache.Disk.{
  DiskFile, Faults, is_not_exist, Pruned, no_faults, find_file, drop_file, size_of, insert_by_age,
  is_before, sort_by_age, prune_loop, prune_dir,
}
use blob.Cache.Disk.Files.{
  Apart, Distinct, find_file_self, Distinct-drop, size_of-drop, find_file-drop_other,
  find_file-drop_self,
}

-- The files that the loop still has are on the disk, under distinct paths.
abbrev Present : List DiskFile → List DiskFile → Type 0
Present fs files = All (λ f. find_file f.path files ≡ some f) fs

Present-cons :
    (g : DiskFile) (fs files : List DiskFile)
    → Apart g fs
    → Present fs files
    → Present fs (g ∷ files)
unfolding find_file
Present-cons g [] files a h = tt
Present-cons g (f ∷ fs) files a h = (rw a.0 h.0, Present-cons g fs files a.1 h.1)

Present-refl : (fs : List DiskFile) → Distinct fs → Present fs fs
Present-refl [] d = tt
Present-refl (f ∷ fs) d = (find_file_self f fs, Present-cons f fs fs d.0 (Present-refl fs d.1))

Present-drop :
    (f : DiskFile) (fs files : List DiskFile)
    → Apart f fs
    → Present fs files
    → Present fs (drop_file f.path files)
Present-drop f [] files a h = tt
Present-drop f (g ∷ fs) files a h =
    (find_file-drop_other f.path g.path files a.0 ∙ h.0, Present-drop f fs files a.1 h.1)

-- What holds of each file holds of each sorted one.
All-insert :
    (P : DiskFile → Type 0) (f : DiskFile) (fs : List DiskFile)
    → P f
    → All P fs
    → All P (insert_by_age f fs)
unfolding insert_by_age
All-insert P f [] h a = (h, tt)
All-insert P f (g ∷ fs) h a = elim (Bool-cases (is_before g f)) [
  | inl e ↦ rw (e, insert_by_age) (a.0, All-insert P f fs h a.1)
  | inr e ↦ rw (e, insert_by_age) (h, a)
]

pub All-sort : (P : DiskFile → Type 0) (fs : List DiskFile) → All P fs → All P (sort_by_age fs)
unfolding sort_by_age
All-sort P [] a = tt
All-sort P (f ∷ fs) a = All-insert P f (sort_by_age fs) a.0 (All-sort P fs a.1)

Distinct-insert :
    (f : DiskFile) (fs : List DiskFile) → Apart f fs → Distinct fs → Distinct (insert_by_age f fs)
unfolding insert_by_age
Distinct-insert f [] a d = (tt, tt)
Distinct-insert f (g ∷ fs) a d = elim (Bool-cases (is_before g f)) [
  | inl e ↦
      rw (e, insert_by_age)
        (All-insert _ f fs (equal_comm g.path f.path ∙ a.0) d.0, Distinct-insert f fs a.1 d.1)
  | inr e ↦ rw (e, insert_by_age) (a, d)
]

Distinct-sort : (fs : List DiskFile) → Distinct fs → Distinct (sort_by_age fs)
unfolding sort_by_age
Distinct-sort [] d = tt
Distinct-sort (f ∷ fs) d =
    Distinct-insert f (sort_by_age fs) (All-sort _ fs d.0) (Distinct-sort fs d.1)

size_of-insert :
    (f : DiskFile) (fs : List DiskFile)
    → size_of (insert_by_age f fs) ≡ length f.content + size_of fs
unfolding insert_by_age size_of
size_of-insert f [] = refl
size_of-insert f (g ∷ fs) = elim (Bool-cases (is_before g f)) [
  | inl e ↦ rw (e, insert_by_age) (omega (arith, size_of-insert f fs))
  | inr e ↦ rw (e, insert_by_age)
]

size_of-sort : (fs : List DiskFile) → size_of (sort_by_age fs) ≡ size_of fs
unfolding sort_by_age size_of
size_of-sort [] = refl
size_of-sort (f ∷ fs) = omega (arith, size_of-insert f (sort_by_age fs), size_of-sort fs)

-- What pruning to `target` leaves, of files of so many bytes in all.
pub record IsPruned (target total : ℕ) (p : Pruned) : Type 0 where
  pub fits : p.remaining ≤ target
  pub adds_up : p.freed + p.remaining ≡ total
  pub counted : size_of p.files ≡ p.remaining
  pub distinct : Distinct p.files
  pub no_error : p.error ≡ none

prune_loop-IsPruned :
    (target total : ℕ) (fs : List DiskFile) (p : Pruned)
    → size_of fs ≡ p.remaining
    → p.freed + p.remaining ≡ total
    → size_of p.files ≡ p.remaining
    → Distinct p.files
    → p.error ≡ none
    → Distinct fs
    → Present fs p.files
    → IsPruned target total (prune_loop (λ q. none) target fs p)
unfolding prune_loop size_of
prune_loop-IsPruned target total [] p s a c d n df h = record {
  fits = omega arith;
  adds_up = a;
  counted = c;
  distinct = d;
  no_error = n;
}
prune_loop-IsPruned target total (f ∷ fs) p s a c d n df h =
    elim (Bool-cases (leb p.remaining target)) [
      | inl le ↦
          rw (le, prune_loop)
            (record { fits = ground arith; adds_up = a; counted = c; distinct = d; no_error = n })
      | inr gt ↦
          rw (gt, prune_loop)
            (prune_loop-IsPruned target total fs _ (omega arith) (omega arith)
              (omega (arith, size_of-drop f.path p.files f d h.0)) (Distinct-drop f.path p.files d)
              refl df.1 (Present-drop f fs p.files df.0 h.1))
    ]

-- Where no call fails, pruning files under distinct paths leaves at most the target; what it freed and
-- what it reports as remaining add up to the size before, and the files left have that size.
pub prune_dir-IsPruned :
    (target : ℕ) (files : List DiskFile)
    → Distinct files
    → IsPruned target (size_of files) (prune_dir no_faults target files)
unfolding prune_dir
prune_dir-IsPruned target files d =
    prune_loop-IsPruned target (size_of files) (sort_by_age files) _ (size_of-sort files)
      (omega arith) refl d refl (Distinct-sort files d) (All-sort _ files (Present-refl files d))

pub find_file-drop :
    (p q : Bytes) (fs : List DiskFile) (f : DiskFile)
    → find_file q (drop_file p fs) ≡ some f
    → find_file q fs ≡ some f
find_file-drop p q fs f h = elim (Bool-cases (equal p q)) [
  | inl e ↦
      let same : p ≡ q = (equal_iff p q).0 e in
      let gone : find_file q (drop_file p fs) ≡ none =
        subst (λ r. find_file r (drop_file p fs) ≡ none) same (find_file-drop_self p fs) in
      absurd (ground arith)
  | inr e ↦ sym (find_file-drop_other p q fs e) ∙ h
]

abbrev without : DiskFile → Pruned → Pruned
without g p = record {
  freed = p.freed + length g.content;
  remaining = p.remaining - length g.content;
  error = none;
  files = drop_file g.path p.files;
}

prune_loop-within :
    (remove : Bytes → Option Error) (target : ℕ) (fs : List DiskFile) (p : Pruned) (q : Bytes)
    (f : DiskFile)
    → find_file q (prune_loop remove target fs p).files ≡ some f
    → find_file q p.files ≡ some f
unfolding prune_loop
prune_loop-within remove target [] p q f h = h
prune_loop-within remove target (g ∷ fs) p q f h =
    go (leb p.remaining target) refl (remove g.path) refl (prune_loop-within remove target fs p q f)
      (λ k.
        find_file-drop g.path q p.files f (prune_loop-within remove target fs (without g p) q f k))
  where
    go :
        (b : Bool)
        → leb p.remaining target ≡ b
        → (r : Option Error) → remove g.path ≡ r
        → (find_file q (prune_loop remove target fs p).files ≡ some f
            → find_file q p.files ≡ some f)
        → (find_file q (prune_loop remove target fs (without g p)).files ≡ some f
            → find_file q p.files ≡ some f)
        → find_file q p.files ≡ some f
    go true le r e kept less = ground arith
    go false gt none e kept less = less (ground arith)
    go false gt (some x) e kept less = elim (Bool-cases (is_not_exist x)) [
      | inl gone ↦ kept (ground arith)
      | inr other ↦ ground arith
    ]

abbrev whole : List DiskFile → Pruned
whole files = record { freed = 0; remaining = size_of files; error = none; files = files }

-- Pruning adds no file: what is found after it was there before.
pub prune_dir-within :
    (faults : Faults) (target : ℕ) (files : List DiskFile) (q : Bytes) (f : DiskFile)
    → find_file q (prune_dir faults target files).files ≡ some f
    → find_file q files ≡ some f
unfolding prune_dir
prune_dir-within faults target files q f h = go faults.walk refl
  where
    go : (w : Option Error) → faults.walk ≡ w → find_file q files ≡ some f
    go none e =
        prune_loop-within faults.remove target (sort_by_age files) (whole files) q f (ground arith)
    go (some x) e = ground arith
