-- ===== src/Dir/Listing.antt =====
-- The listing as one recursion over the entries, and that the calls of Next make it.
use blob.Prelude.{
  ℕ, zero, suc, ◌+◌, ◌≤◌, ◌<◌, ◌≡◌, refl, sym, ap, ◌∙◌, Bool, true, false, ◌||◌, inl, inr, Option,
  none, some, List, [], ◌∷◌, arith, if◌then◌else◌, length, Bool-cases, All, max_int64,
}
use blob.Prelude.Bytes.{Bytes, equal, equal_iff}
use blob.Sizing.{to_int64}
use blob.Entry.{FbEntry, entry_from_view_with_path}
use blob.FilePath.{child}
use blob.Dir.{
  DirEntry, DirIter, make_entry, new_info, next_from, next, collect, read_all_loop, read_all,
}

-- What is listed behind the last name.
unfoldable pub children : Bytes → Bytes → List FbEntry → List DirEntry
children prefix last_name [] = []
children prefix last_name (v ∷ vs) =
    let (name, is_sub) = child v.path prefix in
    let skipped = children prefix last_name vs in
    let listed = make_entry v name is_sub ∷ children prefix name vs in
    if equal name last_name then skipped else listed

abbrev pub listing : DirIter → List DirEntry
listing it = if it.done then [] else children it.prefix it.last_name it.pending

-- What a call of Next takes off the listing.
abbrev pub Takes : DirIter → Option DirEntry × DirIter → Type 0
Takes it (none, it') = (listing it ≡ []) × (listing it' ≡ [])
Takes it (some e, it') = (listing it ≡ e ∷ listing it') × (length it'.pending < length it.pending)

Takes-skip :
    (it it' : DirIter) (r : Option DirEntry × DirIter)
    → listing it ≡ listing it'
    → length it'.pending ≤ length it.pending
    → Takes it' r
    → Takes it r
Takes-skip it it' (none, after) e le t = (e ∙ t.0, t.1)
Takes-skip it it' (some x, after) e le t = (e ∙ t.0, omega arith)

abbrev fresh : Bytes → Bytes → List FbEntry → DirIter
fresh p l vs = record { pending = vs; prefix = p; last_name = l; done = false }

next_from-Takes : (p l : Bytes) (vs : List FbEntry) → Takes (fresh p l vs) (next_from p l vs)
unfolding next_from children
next_from-Takes p l [] = (refl, refl)
next_from-Takes p l (v ∷ vs) = elim (Bool-cases (equal (child v.path p).0 l)) [
  | inl same ↦
      rw (same, next_from)
        (Takes-skip (fresh p l (v ∷ vs)) (fresh p l vs) (next_from p l vs) (rw (same, children))
          (omega arith) (next_from-Takes p l vs))
  | inr new ↦ rw (new, next_from) (rw (new, children), omega arith)
]

next_at :
    (b : Bool) (p l : Bytes) (vs : List FbEntry)
    → let it : DirIter = record { pending = vs; prefix = p; last_name = l; done = b } in
      Takes it (if b then (none, it) else next_from p l vs)
next_at true p l vs = (refl, refl)
next_at false p l vs = next_from-Takes p l vs

pub next-Takes : (it : DirIter) → Takes it (next it)
unfolding next
next-Takes it = next_at it.done it.prefix it.last_name it.pending

-- A list of entries is the listing of an iterator, and the iterator that is left has no more.
abbrev pub Exhausts : DirIter → List DirEntry × DirIter → Type 0
Exhausts it (es, it') = (es ≡ listing it) × (listing it' ≡ [])

collect-Exhausts :
    (it : DirIter) (again : DirIter → List DirEntry × DirIter) (r : Option DirEntry × DirIter)
    → Takes it r
    → ((it' : DirIter) → length it'.pending < length it.pending → Exhausts it' (again it'))
    → Exhausts it (collect again r)
collect-Exhausts it again (none, it') t ih = (sym t.0, t.1)
collect-Exhausts it again (some x, it') t ih =
    let (p, q) = ih it' t.1 in (ap (◌∷◌ x) p ∙ sym t.0, q)

-- With fuel above the entries that are pending, the calls of Next make the whole listing.
pub read_all_loop-Exhausts :
    (fuel : ℕ) (it : DirIter) → length it.pending < fuel → Exhausts it (read_all_loop fuel it)
unfolding read_all_loop
read_all_loop-Exhausts zero it h = elim h [ ]
read_all_loop-Exhausts (suc fuel) it h =
    collect-Exhausts it (read_all_loop fuel) (next it) (next-Takes it)
      (λ it' le. read_all_loop-Exhausts fuel it' (omega arith))

pub read_all-listing : (it : DirIter) → (read_all it).0 ≡ listing it
unfolding read_all
read_all-listing it = (read_all_loop-Exhausts (length it.pending + 1) it (omega arith)).0

-- A child of that name among the entries, and an entry of that name in a listing.
unfoldable pub has_child : Bytes → Bytes → List FbEntry → Bool
has_child n prefix [] = false
has_child n prefix (v ∷ vs) = equal (child v.path prefix).0 n || has_child n prefix vs

unfoldable pub has_name : Bytes → List DirEntry → Bool
has_name n [] = false
has_name n (e ∷ es) = equal e.name n || has_name n es

-- NewInfo does not fail.
abbrev pub Fits : FbEntry → Type 0
Fits v = v.original_size ≤ max_int64

pub name_make_entry :
    (v : FbEntry) (name : Bytes) (sub : Bool) → Fits v → (make_entry v name sub).name ≡ name
unfolding make_entry new_info to_int64 entry_from_view_with_path
name_make_entry v name true h = refl
name_make_entry v name false h = ground arith

pub name_make_entry-directory : (v : FbEntry) (name : Bytes) → (make_entry v name true).name ≡ name
unfolding make_entry
name_make_entry-directory v name = refl

absorbed :
    (n l x : Bytes) (b : Bool)
    → equal x l ≡ true
    → (equal l n || (equal x n || b)) ≡ (equal l n || b)
absorbed n l x b e = ground (arith, equal_iff x l)

pub has_name-children :
    (n p l : Bytes) (vs : List FbEntry)
    → All Fits vs
    → (equal l n || has_name n (children p l vs)) ≡ (equal l n || has_child n p vs)
unfolding has_name has_child children
has_name-children n p l [] h = refl
has_name-children n p l (v ∷ vs) h = ground (
  arith,
  absorbed n l (child v.path p).0 (has_child n p vs),
  has_name-children n p l vs h.1,
  has_name-children n p (child v.path p).0 vs h.1,
  name_make_entry v (child v.path p).0 (child v.path p).1 h.0,
)
