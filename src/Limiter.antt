-- ===== src/Limiter.antt =====
-- internal/ratelimit/limiter.go: the limit on all connections, a counter that goroutines update by
-- atomic operations. `act` is one atomic access by a goroutine; a schedule says whose turn it is.
pub mod Interleaving
mod Examples
use game_gateway.Prelude.{
  ℕ, Bool, true, false, none, some, List, [], ◌∷◌, ℤ, pos, suc_ℤ, pred_ℤ, leb_ℤ, eqb_ℤ,
  if◌then◌else◌, get_elem?, set,
}

pub record Limiter : Type 0 where
  pub max_conns : ℤ
  pub current : ℤ

unfoldable pub new_limiter : ℤ → Limiter
new_limiter max_conns = record { max_conns = max_conns; current = pos 0 }

-- `Allow` when no other goroutine touches the counter: the first round of its loop succeeds.
unfoldable pub allow : Limiter → Limiter × Bool
allow l =
    if leb_ℤ l.max_conns l.current
    then (l, false)
    else (record l { current = suc_ℤ l.current }, true)

unfoldable pub release : Limiter → Limiter
release l = record l { current = pred_ℤ l.current }

-- Where a goroutine stands: outside `Allow`, between the load and the compare-and-swap of a round
-- with the value loaded, told no, or let in and not yet released.
pub data Phase : Type 0 where
  outside refused holding : Phase
  loaded : ℤ → Phase

-- One atomic access, by the phase of the goroutine. A failed compare-and-swap starts a new round;
-- a refused goroutine goes on to its next connection.
unfoldable pub act : Phase → Limiter → Phase × Limiter
unfolding release
act outside l = (if leb_ℤ l.max_conns l.current then refused else loaded l.current, l)
act (loaded seen) l =
    if eqb_ℤ l.current seen then (holding, record l { current = suc_ℤ seen }) else (outside, l)
act holding l = (outside, release l)
act refused l = (outside, l)

pub record System : Type 0 where
  pub limiter : Limiter
  pub threads : List Phase

unfoldable pub turn : System → ℕ → System
unfolding act
turn s i = elim (get_elem? s.threads i) [
  | none ↦ s
  | some p ↦ let (p', l') = act p s.limiter in record { limiter = l'; threads = set s.threads i p' }
]

unfoldable pub run_schedule : System → List ℕ → System
unfolding turn
run_schedule s [] = s
run_schedule s (i ∷ is) = run_schedule (turn s i) is
