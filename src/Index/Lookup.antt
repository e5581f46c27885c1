-- ===== src/Index/Lookup.antt =====
-- The binary search of LookupByKey (core/internal/fb/Entry.go) against a linear search.
use Prim.Native.Nat.{Ordering}
use native.Mathlib.Numerals.{add-one}
use blob.Prelude.{
  ℕ, zero, suc, ◌+◌, ◌-◌, ◌/◌, ◌≤◌, ◌<◌, ◌≡◌, refl, ap, sym, ◌∙◌, ◌⊎◌, inl, inr, Option, none, some,
  List, [], ◌∷◌, arith, if◌then◌else◌, length, get_elem?, take, drop, Bool-cases, All,
  All-get_elem?, get_elem?-inside, get_elem?-drop, get_elem?-take, take-take, drop-drop, drop-take,
  take_of_length-le,
}
use blob.Prelude.Bytes.{
  Bytes, equal, Before, compare_bytes, equal_iff, equal_refl, eq_of_compare, compare_refl,
  Before-of_gt, Before-trans, equal_of_Before,
}
use blob.Entry.{FbEntry}
use blob.Index.{Index, lookup_loop, lookup_view, IsSorted}

-- The reference: the first entry with the path.
unfoldable pub find_path : Bytes → List FbEntry → Option FbEntry
find_path key [] = none
find_path key (e ∷ es) = if equal e.path key then some e else find_path key es

Ordering-cases : (o : Ordering) → (o ≡ Ordering.eq) ⊎ ((o ≡ Ordering.lt) ⊎ (o ≡ Ordering.gt))
Ordering-cases Ordering.eq = inl refl
Ordering-cases Ordering.lt = inr (inl refl)
Ordering-cases Ordering.gt = inr (inr refl)

find_path-none :
    (key : Bytes) (es : List FbEntry) → All (λ f. Before key f.path) es → find_path key es ≡ none
unfolding find_path
find_path-none key [] h = refl
find_path-none key (e ∷ es) h = elim (Bool-cases (equal e.path key)) [
  | inl p ↦ absurd (no_self key ((equal_iff e.path key).0 p) h.0)
  | inr p ↦ rw p (find_path-none key es h.1)
]
  where
    no_self : (k : Bytes) → e.path ≡ k → Before k e.path → ⊥
    no_self k q b = cc (compare_refl e.path)

All-trans :
    (x y : Bytes) (es : List FbEntry)
    → Before x y
    → All (λ f. Before y f.path) es
    → All (λ f. Before x f.path) es
All-trans x y [] b h = tt
All-trans x y (e ∷ es) b h = (Before-trans x y e.path b h.0, All-trans x y es b h.1)

-- An entry before the key: nothing up to it has the key.
find_path-drop :
    (key : Bytes) (es : List FbEntry) (m : ℕ) (e : FbEntry)
    → IsSorted es
    → get_elem? es m ≡ some e
    → Before e.path key
    → find_path key es ≡ find_path key (drop (suc m) es)
unfolding find_path
find_path-drop key [] m e s g b = cc
find_path-drop key (f ∷ es) zero e s g b = ground (arith, equal_of_Before e.path key)
find_path-drop key (f ∷ es) (suc m) e s g b =
    let later : Before f.path key =
      Before-trans f.path e.path key (All-get_elem? (λ x. Before f.path x.path) es m e s.0 g) b in
    ground (arith, equal_of_Before f.path key, find_path-drop key es m e s.1 g b)

-- An entry past the key: nothing from it on has the key.
find_path-take :
    (key : Bytes) (es : List FbEntry) (m : ℕ) (e : FbEntry)
    → IsSorted es
    → get_elem? es m ≡ some e
    → Before key e.path
    → find_path key es ≡ find_path key (take m es)
unfolding find_path
find_path-take key [] m e s g b = cc
find_path-take key (f ∷ es) zero e s g b =
    find_path-none key (f ∷ es) (first, All-trans key f.path es first s.0)
  where
    first : Before key f.path
    first = ground arith
find_path-take key (f ∷ es) (suc m) e s g b = ground (arith, find_path-take key es m e s.1 g b)

find_path-at :
    (es : List FbEntry) (m : ℕ) (e : FbEntry)
    → IsSorted es
    → get_elem? es m ≡ some e
    → find_path e.path es ≡ some e
unfolding find_path
find_path-at [] m e s g = cc
find_path-at (f ∷ es) zero e s g = ground (arith, equal_refl e.path)
find_path-at (f ∷ es) (suc m) e s g =
    let earlier : Before f.path e.path = All-get_elem? (λ x. Before f.path x.path) es m e s.0 g in
    ground (arith, equal_of_Before f.path e.path, find_path-at es m e s.1 g)

IsSorted-drop : (n : ℕ) (es : List FbEntry) → IsSorted es → IsSorted (drop n es)
IsSorted-drop zero es s = s
IsSorted-drop (suc n) [] s = tt
IsSorted-drop (suc n) (e ∷ es) s = IsSorted-drop n es s.1

All-take : (P : FbEntry → Type 0) (n : ℕ) (es : List FbEntry) → All P es → All P (take n es)
All-take P zero es h = tt
All-take P (suc n) [] h = tt
All-take P (suc n) (e ∷ es) h = (h.0, All-take P n es h.1)

IsSorted-take : (n : ℕ) (es : List FbEntry) → IsSorted es → IsSorted (take n es)
IsSorted-take zero es s = tt
IsSorted-take (suc n) [] s = tt
IsSorted-take (suc n) (e ∷ es) s = (All-take _ n es s.0, IsSorted-take n es s.1)

abbrev window : List FbEntry → ℕ → ℕ → List FbEntry
window es start span = take span (drop start es)

-- The middle entry cuts the window in the two that the loop goes on with.
module _ (es : List FbEntry) (key : Bytes) (sorted : IsSorted es) (start span m : ℕ) (e : FbEntry)
    (inside : m < span) (at : get_elem? es (start + m) ≡ some e) where
  window-IsSorted : IsSorted (window es start span)
  window-IsSorted = IsSorted-take span (drop start es) (IsSorted-drop start es sorted)

  window_at : get_elem? (window es start span) m ≡ some e
  window_at = get_elem?-take span m (drop start es) inside ∙ get_elem?-drop start m es ∙ at

  window_lower :
      Before key e.path → find_path key (window es start span) ≡ find_path key (window es start m)
  window_lower b =
      find_path-take key (window es start span) m e window-IsSorted window_at b
      ∙ ap (find_path key) (take-take m span (drop start es) (omega arith))

  window_upper :
      Before e.path key
      → find_path key (window es start span)
        ≡ find_path key (window es (start + (m + 1)) (span - (m + 1)))
  window_upper b =
      find_path-drop key (window es start span) m e window-IsSorted window_at b
      ∙ ap (find_path key) (
          drop-take (suc m) span (drop start es)
          ∙ ap (take (span - suc m)) (drop-drop (suc m) start es)
          ∙ rw (← add-one m))

  window_here : e.path ≡ key → find_path key (window es start span) ≡ some e
  window_here p = rw (← p) (find_path-at (window es start span) m e window-IsSorted window_at)

module _ (es : List FbEntry) (key : Bytes) (sorted : IsSorted es) where
  -- With fuel above the span the loop finds what a linear search of its window finds.
  lookup_loop-find :
      (fuel span start : ℕ)
      → span < fuel
      → start + span ≤ length es
      → lookup_loop fuel es key span start ≡ find_path key (window es start span)
  unfolding lookup_loop find_path
  lookup_loop-find zero span start f h = elim f [ ]
  lookup_loop-find (suc fuel) zero start f h = refl
  lookup_loop-find (suc fuel) (suc s) start f h =
      let m = suc s / 2 in
      let inside : m < suc s = omega arith in
      let (e, at) = get_elem?-inside es (start + m) (omega arith) in
      elim (Ordering-cases (compare_bytes e.path key)) [
        | inl here ↦
            rw (at, here, lookup_loop)
              (sym (
                window_here es key sorted start (suc s) m e inside at
                  (eq_of_compare e.path key here)))
        | inr (inl below) ↦
            rw (at, below, lookup_loop)
              (lookup_loop-find fuel (suc s - (m + 1)) (start + (m + 1)) (omega arith) (omega arith)
                ∙ sym (window_upper es key sorted start (suc s) m e inside at below))
        | inr (inr above) ↦
            rw (at, above, lookup_loop)
              (lookup_loop-find fuel m start (omega arith) (omega arith)
                ∙ sym (
                    window_lower es key sorted start (suc s) m e inside at
                      (Before-of_gt e.path key above)))
      ]

-- On a sorted index the binary search of LookupByKey returns, for every path, the entry that a
-- linear search of the whole index finds, or none where there is none.
pub lookup_view-find :
    (idx : Index) (key : Bytes)
    → IsSorted idx.entries
    → lookup_view idx key ≡ find_path key idx.entries
unfolding lookup_view
lookup_view-find idx key s =
    lookup_loop-find idx.entries key s (length idx.entries + 1) (length idx.entries) 0 (omega arith)
      (omega arith)
    ∙ ap (find_path key) (take_of_length-le (length idx.entries) idx.entries (omega arith))
