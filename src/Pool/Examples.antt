-- ===== src/Pool/Examples.antt =====
-- Pools at concrete inputs: at most two connections to a backend, idle for at most ten.
use game_gateway.Prelude.{
  ◌+◌, ◌≡◌, refl, true, false, none, List, [], ◌∷◌, arith, String, ◌==◌, length, member, delete,
}
use game_gateway.Pool.{Pool, new_pool, open_new, get, offer, put_locked, cleanup}
use game_gateway.Pool.Invariant.{Call, gets, puts, Inv}
use game_gateway.Pool.Parts.{Shared, opens, unlinks, sends, Parts, start, then_part, Apart}
use game_gateway.Pool.Interleaving.{interleaved-Apart}
use game_gateway.Pool.Exclusive.{get_exclusive}
use game_gateway.Pool.Cleanup.{cleanup_spins}

-- One connection to a backend at most; the second part of `Put` comes behind another `Get`'s dial.
abbrev one_at_most : Shared
one_at_most = record { pool = new_pool 10 1; moving = [] }

abbrev opened : Pool
opened = (open_new 1 true (new_pool 10 1)).1

abbrev unlinked : Pool
unlinked = put_locked 2 0 opened

abbrev reopened : Pool
reopened = (open_new 3 true unlinked).1

abbrev overtaken :
    Parts one_at_most (record { pool = offer 0 reopened; moving = delete 0 (0 ∷ []) })
unfolding open_new new_pool
overtaken =
    then_part
      (then_part
        (then_part (then_part start (opens (new_pool 10 1) [] 1 true)) (unlinks opened [] 2 0 refl))
        (opens unlinked (0 ∷ []) 3 true))
      (sends reopened (0 ∷ []) 0 refl)

interleaved-Apart_example : Apart (record { pool = offer 0 reopened; moving = delete 0 (0 ∷ []) })
interleaved-Apart_example =
    interleaved-Apart 10 1 (record { pool = offer 0 reopened; moving = delete 0 (0 ∷ []) })
      overtaken

-- Then one connection is active and one is idle, beyond the limit.
overtaken_exceeds :
    length (offer 0 reopened).active_conns + length (offer 0 reopened).idle_conns ≡ 2
unfolding open_new new_pool
overtaken_exceeds = refl

-- One connection active, one idle since time 6.
abbrev shared : Pool
shared = record {
  idle_timeout = 10;
  max_per_service = 2;
  idle_conns = 1 ∷ [];
  active_conns = 0 ∷ [];
  active_count = 1;
  conns = λ h. record { created_at = 1; last_used_at = 6; in_use = h == 0; is_open = true };
  next = 2;
}

shared-Inv : Inv shared
shared-Inv = record {
  counted = refl;
  room = omega arith;
  active_once = (refl, tt);
  idle_once = (refl, tt);
  apart = λ h m. ground arith;
  fresh = λ h b. ground arith;
}

get_exclusive_example :
    (member 1 shared.active_conns ≡ false)
    × (member 1 (get 9 true shared).1.active_conns ≡ true)
    × (((get 9 true shared).1.conns 1).in_use ≡ true)
unfolding get
get_exclusive_example = get_exclusive 9 1 true shared shared-Inv refl

-- The clock stands at 9 during the call.
cleanup_spins_example : cleanup 1000 (λ i. 9) shared ≡ none
cleanup_spins_example = cleanup_spins 1000 (λ i. 9) shared 1 (omega arith) refl (λ i. refl)

abbrev two_backends : List (String × Call)
two_backends = ("a:1", gets 1 true) ∷ ("b:1", gets 2 true) ∷ ("a:1", puts 3 0) ∷ []
