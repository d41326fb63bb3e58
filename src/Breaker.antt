-- ===== src/Breaker.antt =====
-- internal/circuitbreaker/breaker.go: a breaker of one backend address, with the calls that
-- update it. Times are nanoseconds, handed to each call; a duration is not negative. The failure
-- counter, an int64 in the source, is a natural number: it counts calls, one at a time.
pub mod Trip
pub mod Table
mod Examples
use game_gateway.Prelude.{ℕ, ◌+◌, Bool, true, false, List, [], ◌∷◌, leb, if◌then◌else◌}

pub data State : Type 0 where
  closed open_state half_open : State

pub record Breaker : Type 0 where
  pub max_failures : ℕ
  pub timeout : ℕ
  pub state : State
  pub failures : ℕ
  pub last_failure : ℕ

unfoldable pub new_breaker : ℕ → ℕ → Breaker
new_breaker max_failures timeout = record {
  max_failures = max_failures;
  timeout = timeout;
  state = closed;
  failures = 0;
  last_failure = 0;
}

-- The `switch` of `Allow` on the state that it has loaded.
allow_in : State → ℕ → Breaker → Breaker × Bool
allow_in closed now b = (b, true)
allow_in open_state now b =
    if leb (b.last_failure + b.timeout) now
    then (record b { state = half_open; failures = 0 }, true)
    else (b, false)
allow_in half_open now b = (b, true)

unfoldable pub allow : ℕ → Breaker → Breaker × Bool
unfolding allow_in
allow now b = allow_in b.state now b

record_success_in : State → Breaker → Breaker
record_success_in half_open b = record b { state = closed; failures = 0 }
record_success_in _ b = b

unfoldable pub record_success : Breaker → Breaker
unfolding record_success_in
record_success b = record_success_in b.state b

unfoldable pub record_failure : ℕ → Breaker → Breaker
record_failure now b =
    let c = record b { failures = b.failures + 1; last_failure = now } in
    if leb c.max_failures c.failures then record c { state = open_state } else c

-- The calls that the gateway makes on a breaker, each at its time.
pub data Call : Type 0 where
  allows succeeds fails : ℕ → Call

unfoldable pub step : Breaker → Call → Breaker
unfolding allow record_success record_failure
step b (allows now) = (allow now b).0
step b (succeeds now) = record_success b
step b (fails now) = record_failure now b

unfoldable pub run : Breaker → List Call → Breaker
unfolding step
run b [] = b
run b (c ∷ cs) = run (step b c) cs
