-- ===== src/Breaker/Examples.antt =====
-- Breakers at concrete inputs (internal/circuitbreaker): a limit of two failures, a timeout of ten.
use game_gateway.Prelude.{
  ◌≡◌, refl, some, List, [], ◌∷◌, ◌++◌, arith, find, String, String-discrete,
}
use game_gateway.Breaker.{
  closed, open_state, half_open, Breaker, new_breaker, Call, allows, succeeds, fails, run,
}
use game_gateway.Breaker.Trip.{trips_at_limit}
use game_gateway.Breaker.Table.{run_table, find-run_table}

abbrev one_failure : List Call
one_failure = succeeds 1 ∷ fails 2 ∷ allows 3 ∷ succeeds 4 ∷ []

abbrev tripped : Breaker
tripped = record {
  max_failures = 2;
  timeout = 10;
  state = open_state;
  failures = 2;
  last_failure = 5;
}

abbrev probing : Breaker
probing = record tripped { state = half_open; failures = 0 }

tripped_lem : run (new_breaker 2 10) (one_failure ++ fails 5 ∷ []) ≡ tripped
unfolding run new_breaker
tripped_lem = refl

trips_at_limit_example :
    ((run (new_breaker 2 10) one_failure).state ≡ closed)
    × ((run (new_breaker 2 10) one_failure).failures ≡ 1)
    × ((run (new_breaker 2 10) (one_failure ++ fails 5 ∷ [])).state ≡ open_state)
trips_at_limit_example = trips_at_limit 2 10 one_failure 5 (omega arith)

abbrev two_backends : List (String × Call)
two_backends = ("a:1", fails 1) ∷ ("b:1", allows 2) ∷ ("a:1", succeeds 3) ∷ []

find-run_table_example :
    find String-discrete "a:1" (run_table [] two_backends)
    ≡ some (run (new_breaker 5 30000000000) (fails 1 ∷ succeeds 3 ∷ []))
unfolding String-discrete
find-run_table_example = find-run_table "a:1" two_backends
