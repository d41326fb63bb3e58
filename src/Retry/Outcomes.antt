-- ===== src/Retry/Outcomes.antt =====
-- What retrying comes to (internal/retry/retry.go).
use game_gateway.Prelude.{
  ℕ, zero, suc, ◌+◌, ◌≤◌, ◌<◌, ◌≡◌, refl, ap, ◌∙◌, subst, ◌⊎◌, inl, inr, Bool, true, false, Option,
  none, some, List, [], ◌∷◌, arith, ℤ, pos, negsuc, is_pos, leb_ℤ, Option-cases,
}
use game_gateway.Retry.{
  RetryConfig, succeeded, gave_up, backoff, called, waited, ended, rounds_from, do_retry,
}

-- The waits of `n` rounds from round `i` on.
abbrev pub backoffs : RetryConfig → ℕ → ℕ → List ℤ
backoffs cfg zero i = []
backoffs cfg (suc n) i = backoff cfg i ∷ backoffs cfg n (suc i)

module _ {E : Type 0} (cfg : RetryConfig) (fn : ℕ → Option E) where
  abbrev pub never : ℕ → Bool
  never i = false

  rounds-next :
      (n i : ℕ) (e : E)
      → fn i ≡ some e
      → rounds_from cfg never never fn (suc (suc n)) i
        ≡ called (waited (backoff cfg i) (rounds_from cfg never never fn (suc n) (suc i)))
  unfolding rounds_from
  rounds-next n i e at = rw at refl

  rounds-success :
      (k r i m : ℕ)
      → k < r
      → m ≡ i + k
      → ((j : ℕ) → i ≤ j → j < m → (e : E) × (fn j ≡ some e))
      → fn m ≡ none
      → rounds_from cfg never never fn r i
        ≡ record { result = succeeded; calls = suc k; waits = backoffs cfg k i }
  unfolding rounds_from
  rounds-success k zero i m b p h s = absurd (omega arith)
  rounds-success zero (suc r) i m b p h s =
      let at : fn i ≡ none = subst (λ j. fn j ≡ none) (omega arith) s in rw at refl
  rounds-success (suc k) (suc zero) i m b p h s = absurd (omega arith)
  rounds-success (suc k) (suc (suc r)) i m b p h s =
      let (e, at) = h i (omega arith) (omega arith) in
      rounds-next r i e at
      ∙ ap (λ o. called (waited (backoff cfg i) o))
          (rounds-success k (suc r) (suc i) m (omega arith) (omega arith)
            (λ j a c. h j (omega arith) c) s)

  rounds-failure :
      (n i m : ℕ) (e : E)
      → m ≡ i + n
      → ((j : ℕ) → i ≤ j → j < m → (d : E) × (fn j ≡ some d))
      → fn m ≡ some e
      → rounds_from cfg never never fn (suc n) i
        ≡ record { result = gave_up (some e); calls = suc n; waits = backoffs cfg n i }
  unfolding rounds_from
  rounds-failure zero i m e p h s =
      let at : fn i ≡ some e = subst (λ j. fn j ≡ some e) (omega arith) s in rw at refl
  rounds-failure (suc n) i m e p h s =
      let (d, at) = h i (omega arith) (omega arith) in
      rounds-next n i d at
      ∙ ap (λ o. called (waited (backoff cfg i) o))
          (rounds-failure n (suc i) m e (omega arith) (λ j a b. h j (omega arith) b) s)

  -- With a context that does not end, the first call that succeeds among the allowed ones ends the
  -- retries with success: there is no call after it, and the waits before it are those of the
  -- rounds that failed.
  pub first_success :
      (n k : ℕ)
      → cfg.max_retries ≡ pos n
      → k < n
      → ((j : ℕ) → j < k → (e : E) × (fn j ≡ some e))
      → fn k ≡ none
      → do_retry cfg never never fn
        ≡ record { result = succeeded; calls = suc k; waits = backoffs cfg k 0 }
  unfolding do_retry
  first_success n k m b h s = simp m (rounds-success k n 0 k b (omega arith) (λ j _ c. h j c) s)

  -- With a context that does not end, if every allowed call fails, and there is at least one, each
  -- is made, there is a wait between two and none after the last, and the error is that of the last
  -- call.
  pub all_fail :
      (n : ℕ) (e : E)
      → cfg.max_retries ≡ pos (suc n)
      → ((j : ℕ) → j < n → (d : E) × (fn j ≡ some d))
      → fn n ≡ some e
      → do_retry cfg never never fn
        ≡ record { result = gave_up (some e); calls = suc n; waits = backoffs cfg n 0 }
  unfolding do_retry
  all_fail n e m h s = simp m (rounds-failure n 0 n e (omega arith) (λ j _ b. h j b) s)

module _ {E : Type 0} (cfg : RetryConfig) (before waiting : ℕ → Bool) (fn : ℕ → Option E) where
  calls-rounds : (n i : ℕ) → (rounds_from cfg before waiting fn n i).calls ≤ n
  unfolding rounds_from
  calls-rounds zero i = omega arith
  calls-rounds (suc n) i = elim (Option-cases (fn i)) [
    | inl e ↦ rw e (ground arith)
    | inr (d, e) ↦ rw e (ground (arith, calls-rounds n (suc i)))
  ]

  calls-do_retry :
      (z : ℤ)
      → cfg.max_retries ≡ z
      → (leb_ℤ (pos (do_retry cfg before waiting fn).calls) z ≡ true)
        ⊎ ((is_pos z ≡ false) × (do_retry cfg before waiting fn ≡ ended (gave_up none)))
  unfolding do_retry
  calls-do_retry (pos n) e = inl (simp e (ground (arith, calls-rounds n 0)))
  calls-do_retry (negsuc n) e = inr (refl, simp e (ground arith))

  -- Whatever the context and the calls do, there are no more calls than the configuration allows;
  -- a negative number allows none, and giving up then reports no error of a call.
  pub calls_le_max :
      (leb_ℤ (pos (do_retry cfg before waiting fn).calls) cfg.max_retries ≡ true)
      ⊎ ((is_pos cfg.max_retries ≡ false) × (do_retry cfg before waiting fn ≡ ended (gave_up none)))
  calls_le_max = calls-do_retry cfg.max_retries refl
