-- ===== src/Batch/Group/Ranges.antt =====
-- The groups of core/internal/batch/group.go and the entries in them.
use blob.Prelude.{
  ℕ, ◌+◌, ◌<◌, ◌≡◌, ◌≢◌, refl, sym, ap, ◌∙◌, false, inl, inr, List, [], ◌∷◌, ◌++◌, arith, ◌==◌,
  Bool-cases, ==_iff, two64, All,
}
use mathlib.Core.List.{append_assoc}
use mathlib.Core.Path.{subst}
use blob.Entry.{Entry}
use blob.Batch.Group.{RangeGroup, entry_end, single_group, group_loop, group_adjacent_entries}

unfoldable pub all_entries : List RangeGroup → List Entry
all_entries [] = []
all_entries (g ∷ gs) = g.entries ++ all_entries gs

-- The entries cover [s, e) one behind the other.
abbrev pub Chain : ℕ → List Entry → ℕ → Type 0
Chain s [] e = s ≡ e
Chain s (x ∷ xs) e = (x.data_offset ≡ s) × Chain (x.data_offset + x.data_size) xs e

abbrev pub IsTight : RangeGroup → Type 0
IsTight g = Chain g.start g.entries g.end

-- Each group ends elsewhere than the next one starts.
abbrev pub Apart : List RangeGroup → Type 0
Apart [] = Unit
Apart (g ∷ []) = Unit
Apart (g ∷ h ∷ gs) = (g.end ≢ h.start) × Apart (h ∷ gs)

-- The end of the entry's range is a uint64.
abbrev pub Fits : Entry → Type 0
Fits e = e.data_offset + e.data_size < two64

Chain-snoc :
    (s : ℕ) (xs : List Entry) (x : Entry)
    → Chain s xs x.data_offset
    → Chain s (xs ++ x ∷ []) (x.data_offset + x.data_size)
Chain-snoc s [] x h = (sym h, refl)
Chain-snoc s (y ∷ ys) x h = (h.0, Chain-snoc (y.data_offset + y.data_size) ys x h.1)

entry_end-exact : (e : Entry) → Fits e → entry_end e ≡ e.data_offset + e.data_size
entry_end-exact e h = omega arith

group_loop-all :
    (g : RangeGroup) (es : List Entry) → all_entries (group_loop g es) ≡ g.entries ++ es
unfolding group_loop all_entries
group_loop-all g [] = refl
group_loop-all g (e ∷ es) = elim (Bool-cases (e.data_offset == g.end)) [
  | inl p ↦ rw (p, group_loop) (group_loop-all _ es ∙ append_assoc g.entries (e ∷ []) es)
  | inr p ↦ rw (p, group_loop) (ap (◌++◌ g.entries) (group_loop-all (single_group e) es))
]

group_loop-IsTight :
    (g : RangeGroup) (es : List Entry) → IsTight g → All Fits es → All IsTight (group_loop g es)
unfolding group_loop
group_loop-IsTight g [] t f = (t, tt)
group_loop-IsTight g (e ∷ es) t f = elim (Bool-cases (e.data_offset == g.end)) [
  | inl p ↦
      rw (p, group_loop) (group_loop-IsTight _ es (extend ((==_iff e.data_offset g.end).0 p)) f.1)
  | inr p ↦
      rw (p, group_loop)
        (t, group_loop-IsTight (single_group e) es (refl, sym (entry_end-exact e f.0)) f.1)
]
  where
    extend : e.data_offset ≡ g.end → Chain g.start (g.entries ++ e ∷ []) (entry_end e)
    extend q =
        subst (Chain g.start (g.entries ++ e ∷ [])) (sym (entry_end-exact e f.0))
          (Chain-snoc g.start g.entries e (subst (Chain g.start g.entries) (sym q) t))

abbrev StartsAt : ℕ → List RangeGroup → Type 0
StartsAt s [] = ⊥
StartsAt s (g ∷ gs) = g.start ≡ s

group_loop-starts : (g : RangeGroup) (es : List Entry) → StartsAt g.start (group_loop g es)
unfolding group_loop
group_loop-starts g [] = refl
group_loop-starts g (e ∷ es) = elim (Bool-cases (e.data_offset == g.end)) [
  | inl p ↦
      rw (p, group_loop)
        (group_loop-starts (record g { end = entry_end e; entries = g.entries ++ e ∷ [] }) es)
  | inr p ↦ rw (p, group_loop)
]

Apart-cons :
    (g : RangeGroup) (s : ℕ) (gs : List RangeGroup)
    → StartsAt s gs
    → g.end ≢ s
    → Apart gs
    → Apart (g ∷ gs)
Apart-cons g s [] h n a = absurd h
Apart-cons g s (k ∷ ks) h n a = ((λ e. n (e ∙ h)), a)

group_loop-Apart : (g : RangeGroup) (es : List Entry) → Apart (group_loop g es)
unfolding group_loop
group_loop-Apart g [] = tt
group_loop-Apart g (e ∷ es) = elim (Bool-cases (e.data_offset == g.end)) [
  | inl p ↦ rw (p, group_loop) (group_loop-Apart _ es)
  | inr p ↦
      rw (p, group_loop)
        (Apart-cons g e.data_offset (group_loop (single_group e) es)
          (group_loop-starts (single_group e) es) (λ q. apart p q)
          (group_loop-Apart (single_group e) es))
]
  where
    apart : (e.data_offset == g.end) ≡ false → g.end ≡ e.data_offset → ⊥
    apart p q = ground arith

-- What grouping promises.
pub record IsGrouping (es : List Entry) (gs : List RangeGroup) : Type 0 where
  pub keeps : all_entries gs ≡ es
  pub tight : All IsTight gs
  pub apart : Apart gs

-- Grouping entries whose ranges end below 2^64 keeps every entry in its order, makes groups in which
-- each entry starts where the one before it ends, from the group's start to its end, and leaves no
-- two consecutive groups that touch.
pub group_adjacent_entries-IsGrouping :
    (e : Entry) (es : List Entry)
    → All Fits (e ∷ es)
    → IsGrouping (e ∷ es) (group_adjacent_entries e es)
unfolding group_adjacent_entries
group_adjacent_entries-IsGrouping e es f = record {
  keeps = group_loop-all (single_group e) es;
  tight = group_loop-IsTight (single_group e) es (refl, sym (entry_end-exact e f.0)) f.1;
  apart = group_loop-Apart (single_group e) es;
}

pub group_adjacent_entries-keeps :
    (e : Entry) (es : List Entry) → all_entries (group_adjacent_entries e es) ≡ e ∷ es
unfolding group_adjacent_entries
group_adjacent_entries-keeps e es = group_loop-all (single_group e) es
