-- ===== src/Index/Scan.antt =====
-- The prefix scan of core/internal/index/index.go yields, on a sorted index, exactly the entries
-- with the prefix, in the order of the index.
use blob.Prelude.{
  ℕ, zero, suc, ◌≤◌, ◌<◌, ◌≡◌, refl, ap, true, false, inl, inr, List, [], ◌∷◌, arith, if◌then◌else◌,
  length, drop, Bool-cases, All,
}
use blob.Prelude.Bytes.{
  Bytes, at_least, has_prefix, Before, at_least_of_prefix, no-prefix_past, at_least-Before,
}
use blob.Entry.{FbEntry}
use blob.Index.{Index, at_or_past, while_prefix, entries_with_prefix_view, IsSorted}
use blob.Index.Search.{IsBoundary, search-IsBoundary}

-- The reference: every entry whose path has the prefix.
unfoldable pub with_prefix : Bytes → List FbEntry → List FbEntry
with_prefix prefix [] = []
with_prefix prefix (e ∷ es) =
    let rest = with_prefix prefix es in if has_prefix e.path prefix then e ∷ rest else rest

with_prefix-empty :
    (p : Bytes) (e : FbEntry) (es : List FbEntry)
    → at_least e.path p ≡ true
    → has_prefix e.path p ≡ false
    → All (λ f. Before e.path f.path) es
    → with_prefix p es ≡ []
unfolding with_prefix
with_prefix-empty p e [] a h b = refl
with_prefix-empty p e (f ∷ es) a h b =
    rw (no-prefix_past e.path f.path p b.0 a h) (with_prefix-empty p e es a h b.1)

while_prefix-with_prefix :
    (p : Bytes) (es : List FbEntry)
    → IsSorted es
    → ((k : ℕ) → k < length es → at_or_past es p k ≡ true)
    → while_prefix p es ≡ with_prefix p es
unfolding while_prefix with_prefix at_or_past
while_prefix-with_prefix p [] s a = refl
while_prefix-with_prefix p (e ∷ es) s a = elim (Bool-cases (has_prefix e.path p)) [
  | inl h ↦ rw h (ap (◌∷◌ e) (while_prefix-with_prefix p es s.1 (λ k lt. a (suc k) (omega arith))))
  | inr h ↦ rw (h, with_prefix-empty p e es (a 0 (omega arith)) h s.0)
]

drop_scan :
    (p : Bytes) (es : List FbEntry) (r : ℕ)
    → IsSorted es
    → IsBoundary (at_or_past es p) (length es) r
    → while_prefix p (drop r es) ≡ with_prefix p es
unfolding at_or_past with_prefix
drop_scan p es zero s b = while_prefix-with_prefix p es s (λ k lt. b.passes k (omega arith) lt)
drop_scan p [] (suc r) s b = while_prefix-with_prefix p [] tt (λ k lt. elim lt [ ])
drop_scan p (e ∷ es) (suc r) s b = elim (Bool-cases (has_prefix e.path p)) [
  | inl h ↦ absurd (clash (at_least_of_prefix e.path p h) (b.fails 0 (omega arith)))
  | inr h ↦ rw h (
      drop_scan p es r s.1 (record {
        fails = λ k lt. b.fails (suc k) (omega arith);
        passes = λ k le lt. b.passes (suc k) (omega arith) (omega arith);
      }))
]
  where
    clash : at_least e.path p ≡ true → at_least e.path p ≡ false → ⊥
    clash u v = cc

at_or_past-later :
    (p : Bytes) (e : FbEntry) (es : List FbEntry) (m : ℕ)
    → at_least e.path p ≡ true
    → All (λ f. Before e.path f.path) es
    → m < length es
    → at_or_past es p m ≡ true
unfolding at_or_past
at_or_past-later p e [] m a b lt = elim lt [ ]
at_or_past-later p e (f ∷ es) zero a b lt = at_least-Before e.path f.path p a b.0
at_or_past-later p e (f ∷ es) (suc m) a b lt = at_or_past-later p e es m a b.1 (omega arith)

pub at_or_past_mono :
    (p : Bytes) (es : List FbEntry)
    → IsSorted es
    → (k m : ℕ) → at_or_past es p k ≡ true
    → k ≤ m
    → m < length es
    → at_or_past es p m ≡ true
unfolding at_or_past
at_or_past_mono p [] s k m h le lt = elim lt [ ]
at_or_past_mono p (e ∷ es) s zero zero h le lt = h
at_or_past_mono p (e ∷ es) s zero (suc m) h le lt = at_or_past-later p e es m h s.0 (omega arith)
at_or_past_mono p (e ∷ es) s (suc k) zero h le lt = absurd (omega arith)
at_or_past_mono p (e ∷ es) s (suc k) (suc m) h le lt =
    at_or_past_mono p es s.1 k m h (omega arith) (omega arith)

-- On a sorted index the scan that EntriesWithPrefixView makes from the position found by bisection
-- yields the same entries, in the same order, as testing every entry of the index for the prefix.
pub entries_with_prefix_complete :
    (idx : Index) (prefix : Bytes)
    → IsSorted idx.entries
    → entries_with_prefix_view idx prefix ≡ with_prefix prefix idx.entries
unfolding entries_with_prefix_view
entries_with_prefix_complete idx prefix s = drop_scan prefix idx.entries _ s (
    search-IsBoundary (at_or_past idx.entries prefix) (length idx.entries)
      (at_or_past_mono prefix idx.entries s))
