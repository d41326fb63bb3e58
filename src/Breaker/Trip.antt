-- ===== src/Breaker/Trip.antt =====
-- When a breaker opens, and what it takes to close it again (internal/circuitbreaker).
use game_gateway.Prelude.{
  ℕ, suc, ◌+◌, ◌≤◌, ◌<◌, ◌≡◌, refl, ◌⊎◌, Bool, true, false, List, [], ◌∷◌, ◌++◌, map, arith, ◌==◌,
  if◌then◌else◌, length, All,
}
use game_gateway.Breaker.{
  closed, open_state, half_open, Breaker, new_breaker, allow, Call, allows, succeeds, fails, step,
  run,
}

-- A breaker is open exactly when its counter has reached the limit.
pub record Inv (b : Breaker) : Type 0 where
  pub full_when_open : b.state ≡ open_state → b.max_failures ≤ b.failures
  pub room_when_not : (b.state ≡ closed) ⊎ (b.state ≡ half_open) → b.failures < b.max_failures

step-Inv : (b : Breaker) (c : Call) → 0 < b.max_failures → Inv b → Inv (step b c)
unfolding step
step-Inv b (allows now) p v = ground arith
step-Inv b (succeeds now) p v = ground arith
step-Inv b (fails now) p v = ground arith

step-max_failures : (b : Breaker) (c : Call) → (step b c).max_failures ≡ b.max_failures
unfolding step
step-max_failures b (allows now) = ground arith
step-max_failures b (succeeds now) = ground arith
step-max_failures b (fails now) = ground arith

run_from-Inv : (b : Breaker) (cs : List Call) → 0 < b.max_failures → Inv b → Inv (run b cs)
unfolding run
run_from-Inv b [] p v = v
run_from-Inv b (c ∷ cs) p v =
    run_from-Inv (step b c) cs (omega (arith, step-max_failures b c)) (step-Inv b c p v)

-- Started with a positive limit, a breaker is open exactly when its failure counter has reached
-- the limit, after any history of calls; closed or half-open, the counter is below it.
pub run-Inv : (m t : ℕ) (cs : List Call) → 0 < m → Inv (run (new_breaker m t) cs)
unfolding new_breaker
run-Inv m t cs p = run_from-Inv (new_breaker m t) cs p (ground arith)

abbrev pub count_failures : List Call → ℕ
count_failures [] = 0
count_failures (fails now ∷ cs) = suc (count_failures cs)
count_failures (c ∷ cs) = count_failures cs

closed_counts_from :
    (b : Breaker) (cs : List Call)
    → b.state ≡ closed
    → b.failures + count_failures cs < b.max_failures
    → ((run b cs).state ≡ closed) × ((run b cs).failures ≡ b.failures + count_failures cs)
unfolding run step
closed_counts_from b [] s h = (s, omega arith)
closed_counts_from b (allows now ∷ cs) s h =
    ground (arith, closed_counts_from (step b (allows now)) cs)
closed_counts_from b (succeeds now ∷ cs) s h =
    ground (arith, closed_counts_from (step b (succeeds now)) cs)
closed_counts_from b (fails now ∷ cs) s h =
    ground (arith, closed_counts_from (step b (fails now)) cs)

fails_once :
    (b : Breaker) (now n m : ℕ)
    → b.state ≡ closed
    → b.failures ≡ n
    → b.max_failures ≡ m
    → n < m
    → (run b (fails now ∷ [])).state ≡ (if n + 1 == m then open_state else closed)
unfolding run step
fails_once b now n m s f l h = ground arith

run-append : (b : Breaker) (cs ds : List Call) → run b (cs ++ ds) ≡ run (run b cs) ds
unfolding run
run-append b [] ds = refl
run-append b (c ∷ cs) ds = run-append (step b c) cs ds

run-max_failures : (b : Breaker) (cs : List Call) → (run b cs).max_failures ≡ b.max_failures
unfolding run
run-max_failures b [] = refl
run-max_failures b (c ∷ cs) = omega (arith, run-max_failures (step b c) cs, step-max_failures b c)

-- A new breaker stays closed, counting every failure, as long as fewer calls than its limit have
-- failed, whatever successes come between them; a further failure opens it exactly if it reaches the
-- limit. The calls do not overlap.
pub trips_at_limit :
    (m t : ℕ) (cs : List Call) (now : ℕ)
    → count_failures cs < m
    → ((run (new_breaker m t) cs).state ≡ closed)
      × ((run (new_breaker m t) cs).failures ≡ count_failures cs)
      × ((run (new_breaker m t) (cs ++ fails now ∷ [])).state
          ≡ (if count_failures cs + 1 == m then open_state else closed))
unfolding new_breaker
trips_at_limit m t cs now h =
    let (still, counted) = closed_counts_from (new_breaker m t) cs refl (omega arith) in
    let counted : (run (new_breaker m t) cs).failures ≡ count_failures cs =
      omega (arith, counted) in
    (
      still,
      counted,
      rw run-append (
          fails_once (run (new_breaker m t) cs) now (count_failures cs) m still counted
            (run-max_failures (new_breaker m t) cs) h),
    )

-- What each `Allow` of a list of calls answers.
abbrev pub answers : Breaker → List ℕ → List Bool
answers b [] = []
answers b (now ∷ ts) = (allow now b).1 ∷ answers (allow now b).0 ts

-- An open breaker turns every request away until the timeout since the last failure is over, and
-- changes nothing meanwhile.
pub open_denies :
    (b : Breaker) (ts : List ℕ)
    → b.state ≡ open_state
    → All (λ now. now < b.last_failure + b.timeout) ts
    → (answers b ts ≡ map (λ now. false) ts) × (run b (map allows ts) ≡ b)
unfolding run step
open_denies b [] s h = (refl, refl)
open_denies b (now ∷ ts) s h = ground (arith, open_denies b ts)

-- Once the timeout of an open breaker is over the next request is let through and the breaker is
-- half-open with an empty counter; a success then closes it.
pub recovers :
    (b : Breaker) (now later : ℕ)
    → b.state ≡ open_state
    → b.last_failure + b.timeout ≤ now
    → ((allow now b).1 ≡ true)
      × ((allow now b).0 ≡ record b { state = half_open; failures = 0 })
      × (run b (allows now ∷ succeeds later ∷ []) ≡ record b { state = closed; failures = 0 })
unfolding run step
recovers b now later s h = ground arith

-- A half-open breaker does not open again at the first failure: while the failures since the
-- probe stay below the limit it is half-open and lets every request through.
pub half_open_tolerates :
    (b : Breaker) (ts : List ℕ) (now : ℕ)
    → b.state ≡ half_open
    → b.failures + length ts < b.max_failures
    → ((run b (map fails ts)).state ≡ half_open) × ((allow now (run b (map fails ts))).1 ≡ true)
unfolding run step
half_open_tolerates b [] now s h = ground arith
half_open_tolerates b (t ∷ ts) now s h =
    ground (arith, half_open_tolerates (step b (fails t)) ts now)
