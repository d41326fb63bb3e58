-- ===== src/Limiter/Examples.antt =====
-- Limiters at concrete inputs (internal/ratelimit/limiter.go): a limit of one or two connections.
use game_gateway.Prelude.{ℕ, ◌≤◌, ◌≡◌, refl, List, [], ◌∷◌, arith, pos}
use game_gateway.Limiter.{new_limiter, outside, holding, loaded, System, run_schedule}
use game_gateway.Limiter.Interleaving.{holders, Bounded, start, limit_never_exceeded}

-- Three goroutines load before any of them swaps; the second swap fails.
abbrev racing : List ℕ
racing = 0 ∷ 1 ∷ 2 ∷ 0 ∷ 1 ∷ 2 ∷ 1 ∷ 1 ∷ 2 ∷ 2 ∷ []

racing_lem : (run_schedule (start 2 3) racing).threads ≡ holding ∷ holding ∷ outside ∷ []
unfolding run_schedule new_limiter
racing_lem = refl

limit_never_exceeded_example :
    (holders (run_schedule (start 2 3) racing).threads ≤ 2)
    × ((run_schedule (start 2 3) racing).limiter.current
        ≡ pos (holders (run_schedule (start 2 3) racing).threads))
limit_never_exceeded_example = limit_never_exceeded 2 3 racing

abbrev held : System
held = record {
  limiter = record { max_conns = pos 2; current = pos 1 };
  threads = holding ∷ loaded (pos 0) ∷ outside ∷ [];
}

one_held : Bounded 2 held
one_held = record {
  limit = refl;
  counted = refl;
  within = omega arith;
  passed = (tt, (refl, (tt, tt)));
}
