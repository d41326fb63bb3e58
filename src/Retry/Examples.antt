-- ===== src/Retry/Examples.antt =====
-- Retries at concrete inputs: three retries, 100 milliseconds apart at first.
use game_gateway.Prelude.{
  ℕ, zero, suc, ◌<◌, ◌≡◌, refl, false, Option, none, some, [], ◌∷◌, arith, pos,
}
use game_gateway.Retry.{RetryConfig, succeeded, backoff, do_retry}
use game_gateway.Retry.Outcomes.{first_success}

abbrev three_times : RetryConfig
three_times = record { max_retries = pos 3; retry_delay = pos 100000000 }

-- Two refused calls, with the codes 7 and 8, then an accepted one.
abbrev third_time : ℕ → Option ℕ
third_time zero = some 7
third_time (suc zero) = some 8
third_time (suc (suc _)) = none

first_success_example :
    do_retry three_times (λ i. false) (λ i. false) third_time
    ≡ record { result = succeeded; calls = 3; waits = pos 100000000 ∷ pos 200000000 ∷ [] }
unfolding backoff
first_success_example = first_success three_times third_time 3 2 refl (omega arith) failing refl
  where
    failing : (j : ℕ) → j < 2 → (e : ℕ) × (third_time j ≡ some e)
    failing zero h = (7, refl)
    failing (suc zero) h = (8, refl)
    failing (suc (suc j)) h = absurd (omega arith)
