-- ===== src/Retry.antt =====
-- internal/retry/retry.go. The function is a sequence of results, one for each call; the context is
-- what the two tests of each round find.
pub mod Outcomes
mod Examples
use game_gateway.Prelude.{
  ℕ, zero, suc, ◌*◌, ◌%◌, ◌^◌, Bool, true, false, Option, none, some, List, [], ◌∷◌, ℤ, pos, negsuc,
  if◌then◌else◌,
}
use game_gateway.Prelude.Bytes.{to_bits, of_bits}

pub record RetryConfig : Type 0 where
  pub max_retries : ℤ
  pub retry_delay : ℤ  -- int64 nanoseconds

pub data Result {ℓ} (E : Type ℓ) : Type ℓ where
  succeeded cancelled : Result E
  gave_up : Option E → Result E

abbrev pub is_zero : ℕ → Bool
is_zero zero = true
is_zero (suc n) = false

-- A negative number of retries makes no round.
abbrev pub rounds_allowed : ℤ → ℕ
rounds_allowed (pos n) = n
rounds_allowed (negsuc n) = 0

-- The result, the number of calls of the function, and the waits between them.
pub record Outcome {ℓ} (E : Type ℓ) : Type ℓ where
  pub result : Result E
  pub calls : ℕ
  pub waits : List ℤ

-- `time.Duration(1<<uint(i)) * cfg.RetryDelay`, in 64 bits.
unfoldable pub backoff : RetryConfig → ℕ → ℤ
backoff cfg i = of_bits 64 (2 ^ i % 2 ^ 64 * to_bits 64 cfg.retry_delay % 2 ^ 64)

abbrev pub called {ℓ} : {E : Type ℓ} → Outcome E → Outcome E
called o = record { result = o.result; calls = suc o.calls; waits = o.waits }

abbrev pub waited {ℓ} : {E : Type ℓ} → ℤ → Outcome E → Outcome E
waited d o = record { result = o.result; calls = o.calls; waits = d ∷ o.waits }

abbrev pub ended {ℓ} : {E : Type ℓ} → Result E → Outcome E
ended r = record { result = r; calls = 0; waits = [] }

-- `cancelled_before i` and `cancelled_waiting i`: whether the context's end is what the first and
-- the second `select` of round `i` go by. `fn i` is the error of the call in that round.
module _ {E : Type 0} (cfg : RetryConfig) (cancelled_before cancelled_waiting : ℕ → Bool)
    (fn : ℕ → Option E) where
  -- What follows a call: nothing, or a wait with the next round behind it.
  abbrev pub after_call : ℕ → Option E → Bool → Outcome E → Outcome E
  after_call i none last next = ended succeeded
  after_call i (some e) true next = ended (gave_up (some e))
  after_call i (some e) false next =
      waited (backoff cfg i) (if cancelled_waiting i then ended cancelled else next)

  -- The rounds from `i` on, of which `n` are left.
  unfoldable pub rounds_from : ℕ → ℕ → Outcome E
  rounds_from zero i = ended (gave_up none)
  rounds_from (suc n) i =
      let next = rounds_from n (suc i) in
      if cancelled_before i then ended cancelled else called (after_call i (fn i) (is_zero n) next)

  unfoldable pub do_retry : Outcome E
  unfolding rounds_from
  do_retry = rounds_from (rounds_allowed cfg.max_retries) 0
