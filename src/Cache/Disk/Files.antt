-- ===== src/Cache/Disk/Files.antt =====
-- Files under distinct paths: finding, dropping, and the sum of the sizes.
use mathlib.Core.Path.{subst}
use blob.Prelude.{
  ◌+◌, ◌≤◌, ◌≡◌, refl, ap, ◌∙◌, false, inl, inr, none, some, List, [], ◌∷◌, arith, length, All,
  Bool-cases,
}
use blob.Prelude.Bytes.{Bytes, equal, equal_iff, equal_refl, equal_comm}
use blob.Cache.Disk.{DiskFile, find_file, drop_file, size_of}

abbrev pub Apart : DiskFile → List DiskFile → Type 0
Apart f fs = All (λ g. equal f.path g.path ≡ false) fs

abbrev pub Distinct : List DiskFile → Type 0
Distinct [] = Unit
Distinct (f ∷ fs) = Apart f fs × Distinct fs

pub find_file_self : (f : DiskFile) (fs : List DiskFile) → find_file f.path (f ∷ fs) ≡ some f
unfolding find_file
find_file_self f fs = rw (equal_refl f.path)

-- A file that is found has the path.
pub find_file-path :
    (p : Bytes) (fs : List DiskFile) (f : DiskFile) → find_file p fs ≡ some f → f.path ≡ p
unfolding find_file
find_file-path p [] f h = cc
find_file-path p (g ∷ fs) f h = ground (arith, equal_iff g.path p, find_file-path p fs f)

pub drop_file-absent : (f : DiskFile) (fs : List DiskFile) → Apart f fs → drop_file f.path fs ≡ fs
unfolding drop_file
drop_file-absent f [] a = refl
drop_file-absent f (g ∷ fs) a = ground (arith, equal_comm f.path g.path, drop_file-absent f fs a.1)

pub Apart-drop :
    (f : DiskFile) (p : Bytes) (fs : List DiskFile) → Apart f fs → Apart f (drop_file p fs)
unfolding drop_file
Apart-drop f p [] a = tt
Apart-drop f p (g ∷ fs) a = elim (Bool-cases (equal g.path p)) [
  | inl h ↦ rw (h, drop_file) (Apart-drop f p fs a.1)
  | inr h ↦ rw (h, drop_file) (a.0, Apart-drop f p fs a.1)
]

pub Distinct-drop : (p : Bytes) (fs : List DiskFile) → Distinct fs → Distinct (drop_file p fs)
unfolding drop_file
Distinct-drop p [] d = tt
Distinct-drop p (g ∷ fs) d = elim (Bool-cases (equal g.path p)) [
  | inl h ↦ rw (h, drop_file) (Distinct-drop p fs d.1)
  | inr h ↦ rw (h, drop_file) (Apart-drop g p fs d.0, Distinct-drop p fs d.1)
]

-- Dropping a path that is there takes its file's size off.
pub size_of-drop :
    (p : Bytes) (fs : List DiskFile) (f : DiskFile)
    → Distinct fs
    → find_file p fs ≡ some f
    → size_of (drop_file p fs) + length f.content ≡ size_of fs
unfolding size_of drop_file find_file
size_of-drop p [] f d h = cc
size_of-drop p (g ∷ fs) f d h = elim (Bool-cases (equal g.path p)) [
  | inl e ↦
      let same : g ≡ f = ground arith in
      let path : g.path ≡ p = (equal_iff g.path p).0 e in
      let rest : drop_file p fs ≡ fs =
        subst (λ q. drop_file q fs ≡ fs) path (drop_file-absent g fs d.0) in
      rw (e, drop_file, size_of)
        (omega (arith, ap size_of rest, ap (λ (x : DiskFile). length x.content) same))
  | inr e ↦ rw (e, drop_file, size_of) (omega (arith, size_of-drop p fs f d.1 (ground arith)))
]

pub find_file-drop_other :
    (p q : Bytes) (fs : List DiskFile)
    → equal p q ≡ false
    → find_file q (drop_file p fs) ≡ find_file q fs
unfolding drop_file find_file
find_file-drop_other p q [] h = refl
find_file-drop_other p q (g ∷ fs) h =
    ground
      (arith, equal_iff g.path p, equal_iff g.path q, equal_iff p q, find_file-drop_other p q fs h)

pub find_file-drop_self : (p : Bytes) (fs : List DiskFile) → find_file p (drop_file p fs) ≡ none
unfolding drop_file find_file
find_file-drop_self p [] = refl
find_file-drop_self p (g ∷ fs) = ground (arith, find_file-drop_self p fs)

-- No file is larger than all together.
pub size_of-find :
    (p : Bytes) (fs : List DiskFile) (f : DiskFile)
    → find_file p fs ≡ some f
    → length f.content ≤ size_of fs
unfolding find_file size_of
size_of-find p [] f h = cc
size_of-find p (g ∷ fs) f h = elim (Bool-cases (equal g.path p)) [
  | inl e ↦
      let same : g ≡ f = ground arith in omega (arith, ap (λ (x : DiskFile). length x.content) same)
  | inr e ↦ omega (arith, size_of-find p fs f (ground arith))
]

-- A path that no file has is apart from them.
pub Apart-of_none : (f : DiskFile) (fs : List DiskFile) → find_file f.path fs ≡ none → Apart f fs
unfolding find_file
Apart-of_none f [] h = tt
Apart-of_none f (g ∷ fs) h = elim (Bool-cases (equal g.path f.path)) [
  | inl e ↦ absurd (ground arith)
  | inr e ↦ (equal_comm f.path g.path ∙ e, Apart-of_none f fs (ground arith))
]

pub drop_file_self :
    (f : DiskFile) (fs : List DiskFile)
    → find_file f.path fs ≡ none
    → drop_file f.path (f ∷ fs) ≡ fs
unfolding drop_file
drop_file_self f fs h = rw (equal_refl f.path) (drop_file-absent f fs (Apart-of_none f fs h))
