-- ===== src/Index/Search.antt =====
-- sort.Search over a monotone test.
use blob.Prelude.{
  ℕ, zero, suc, ◌+◌, ◌/◌, ◌≤◌, ◌<◌, ◌≡◌, Bool, true, false, inl, inr, arith, ltb, Bool-cases,
}
use blob.Index.{search_loop}

-- Every index below `r` fails the test, every one from `r` to below `n` passes it.
pub record IsBoundary (test : ℕ → Bool) (n r : ℕ) : Type 0 where
  pub fails : (k : ℕ) → k < r → test k ≡ false
  pub passes : (k : ℕ) → r ≤ k → k < n → test k ≡ true

module _ (test : ℕ → Bool) (n : ℕ)
    (mono : (k m : ℕ) → test k ≡ true → k ≤ m → m < n → test m ≡ true) where
  fails_below : (h k : ℕ) → h < n → test h ≡ false → k ≤ h → test k ≡ false
  fails_below h k hn e le = elim (Bool-cases (test k)) [
    | inl p ↦ absurd (true≢false (mono k h p le hn) e)
    | inr p ↦ p
  ]
    where
      true≢false : test h ≡ true → test h ≡ false → ⊥
      true≢false p q = cc

  pub search_loop-IsBoundary :
      (fuel i j : ℕ)
      → j ≤ i + fuel
      → i ≤ j
      → j ≤ n
      → ((k : ℕ) → k < i → test k ≡ false)
      → ((k : ℕ) → j ≤ k → k < n → test k ≡ true)
      → IsBoundary test n (search_loop fuel test i j)
  unfolding search_loop
  search_loop-IsBoundary zero i j f le jn lo hi = record {
    fails = lo;
    passes = λ k h kn. hi k (omega arith) kn;
  }
  search_loop-IsBoundary (suc fuel) i j f le jn lo hi = elim (Bool-cases (ltb i j)) [
    | inl p ↦ elim (Bool-cases (test ((i + j) / 2))) [
      | inl q ↦
          rw (p, q, search_loop)
            (search_loop-IsBoundary fuel i ((i + j) / 2) (ground arith) (ground arith)
              (ground arith) lo (λ k h kn. mono ((i + j) / 2) k q h kn))
      | inr q ↦
          rw (p, q, search_loop)
            (search_loop-IsBoundary fuel ((i + j) / 2 + 1) j (ground arith) (ground arith) jn
              (λ k h. fails_below ((i + j) / 2) k (ground arith) q (omega arith)) hi)
    ]
    | inr p ↦ rw (p, search_loop) (record { fails = lo; passes = λ k h kn. hi k (ground arith) kn })
  ]

  -- For a test that, once it holds at an index, holds at all later ones below `n`, the bisection of
  -- sort.Search returns its boundary: it fails before, and holds from there on.
  pub search-IsBoundary : IsBoundary test n (search_loop n test 0 n)
  search-IsBoundary =
      search_loop-IsBoundary n 0 n (omega arith) (omega arith) (omega arith)
        (λ k h. absurd (omega arith)) (λ k h kn. absurd (omega arith))
