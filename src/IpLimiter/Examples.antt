-- ===== src/IpLimiter/Examples.antt =====
-- The limits of an address at concrete inputs: two connections, one a second, then two a second.
use game_gateway.Prelude.{◌≡◌, refl, true, false, List, [], ◌∷◌, arith, String-discrete}
use game_gateway.IpLimiter.{new_ip_limiter, Call, allows, releases, run, answers}
use game_gateway.IpLimiter.Growth.{is_tracked, tracker_kept}
use game_gateway.IpLimiter.Window.{nobody, ideal_answers}
use game_gateway.IpLimiter.Ideal.{answers-eq-ideal}

abbrev visits : List Call
visits =
    allows "a" 10
    ∷ allows "a" 20
    ∷ allows "b" 30
    ∷ allows "a" 2000000000
    ∷ allows "a" 3500000000
    ∷ releases "a" 3600000000
    ∷ allows "a" 4700000000
    ∷ []

visits-answers :
    answers (new_ip_limiter 2 1 0) visits ≡ true ∷ false ∷ true ∷ true ∷ false ∷ true ∷ true ∷ []
unfolding answers new_ip_limiter String-discrete
visits-answers = refl

answers-eq-ideal_example : answers (new_ip_limiter 2 1 0) visits ≡ ideal_answers 2 1 nobody visits
answers-eq-ideal_example = answers-eq-ideal 2 1 0 visits (omega arith)

abbrev leaves : List Call
leaves = releases "a" 11 ∷ allows "b" 400000000000 ∷ []

tracker_kept_example : is_tracked "a" (run (new_ip_limiter 2 1 0) (allows "a" 10 ∷ leaves)) ≡ true
unfolding run new_ip_limiter String-discrete
tracker_kept_example = tracker_kept 2 1 0 10 "a" [] leaves refl
