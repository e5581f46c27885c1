-- ===== src/Batch/Process/Progress.antt =====
-- What a run of the processor (core/internal/batch/batch.go) leaves, whether it succeeds or fails.
use mathlib.Core.List.{append_assoc, append-nil}
use blob.Prelude.{
  ℕ, ◌+◌, ◌<◌, ◌≡◌, refl, sym, ap, ◌∙◌, List, [], ◌∷◌, ◌++◌, arith, length, length-append, All,
  add_u64, Result, ok, err, two64,
}
use blob.Prelude.Bytes.{Bytes}
use blob.Entry.{Entry}
use blob.Batch.Group.{ProcessStats}
use blob.Batch.Content.{Codec, Store}
use blob.Batch.Content.Verified.{IsVerified, Delivers}
use blob.Batch.Process.{Run, after_entry, then_run}

-- Verified contents of entries with some property
abbrev pub AllVerified : Codec → (Entry → Type 0) → Store → Type 0
AllVerified codec Q added = All (λ (x : Entry × Bytes). IsVerified codec x.0 x.1 × Q x.0) added

-- The sum of the recorded sizes, as a uint64 that wraps around.
unfoldable pub sum_bytes : ℕ → Store → ℕ
sum_bytes total [] = total
sum_bytes total (x ∷ xs) = sum_bytes (add_u64 total (x.0).original_size) xs

-- From `r` to `r'` the sink got some verified contents, each counted, with their bytes; nothing that
-- it had is lost.
pub record Adds (codec : Codec) (Q : Entry → Type 0) (r r' : Run) (added : Store) : Type 0 where
  pub store : r'.store ≡ r.store ++ added
  pub verified : AllVerified codec Q added
  pub processed : r'.stats.processed ≡ r.stats.processed + length added
  pub total : r'.stats.total_bytes ≡ sum_bytes r.stats.total_bytes added
  pub skipped : r'.stats.skipped ≡ r.stats.skipped

abbrev pub Progress : Codec → (Entry → Type 0) → Run → Run → Type 0
Progress codec Q r r' = (added : Store) × Adds codec Q r r' added

All-append {ℓ κ} :
    {A : Type ℓ} (P : A → Type κ) (xs ys : List A) → All P xs → All P ys → All P (xs ++ ys)
All-append P [] ys hx hy = hy
All-append P (x ∷ xs) ys hx hy = (hx.0, All-append P xs ys hx.1 hy)

sum_bytes-append : (t : ℕ) (xs ys : Store) → sum_bytes t (xs ++ ys) ≡ sum_bytes (sum_bytes t xs) ys
unfolding sum_bytes
sum_bytes-append t [] ys = refl
sum_bytes-append t (x ∷ xs) ys = sum_bytes-append (add_u64 t (x.0).original_size) xs ys

pub sum_bytes-lt : (t : ℕ) (xs : Store) → t < two64 → sum_bytes t xs < two64
unfolding sum_bytes
sum_bytes-lt t [] h = h
sum_bytes-lt t (x ∷ xs) h = sum_bytes-lt (add_u64 t (x.0).original_size) xs (omega arith)

module _ (codec : Codec) (Q : Entry → Type 0) where
  -- A run that kept the counters and the contents, with whatever result.
  pub Progress-none : (r r' : Run) → r'.store ≡ r.store → r'.stats ≡ r.stats → Progress codec Q r r'
  Progress-none r r' s c = (
    [],
    record {
      store = s ∙ sym (append-nil r.store);
      verified = tt;
      processed = omega (arith, ap (λ (x : ProcessStats). x.processed) c);
      total = unfold sum_bytes in ap (λ (x : ProcessStats). x.total_bytes) c;
      skipped = ap (λ (x : ProcessStats). x.skipped) c;
    },
  )

  pub Progress-trans :
      (r s t : Run) → Progress codec Q r s → Progress codec Q s t → Progress codec Q r t
  Progress-trans r s t (xs, p) (ys, q) = (
    xs ++ ys,
    record {
      store = q.store ∙ ap (λ l. l ++ ys) p.store ∙ append_assoc r.store xs ys;
      verified = All-append _ xs ys p.verified q.verified;
      processed = omega (arith, p.processed, q.processed, length-append xs ys);
      total =
          q.total
          ∙ ap (λ n. sum_bytes n ys) p.total
          ∙ sym (sum_bytes-append r.stats.total_bytes xs ys);
      skipped = q.skipped ∙ p.skipped;
    },
  )

  pub Progress-after_entry :
      (r : Run) (e : Entry) (o : Result (Unit {0}) × Store)
      → Q e
      → Delivers codec e r.store o
      → Progress codec Q r (after_entry r.stats e o)
  Progress-after_entry r e (ok u, store) q (content, s, v) = (
    (e, content) ∷ [],
    record {
      store = s;
      verified = ((v, q), tt);
      processed = omega arith;
      total = unfold sum_bytes in refl;
      skipped = refl;
    },
  )
  Progress-after_entry r e (err x, store) q s = Progress-none r _ s refl

  pub Progress-then_run :
      (next : Run → Run) (r s : Run)
      → Progress codec Q r s
      → ((t : Run) → Progress codec Q t (next t))
      → Progress codec Q r (then_run next s)
  Progress-then_run next r s h n = go s.result
    where
      go : (x : Result (Unit {0})) → Progress codec Q r (elim x [ ok u ↦ next s | err e ↦ s ])
      go (ok u) = Progress-trans r s (next s) h (n s)
      go (err e) = h
