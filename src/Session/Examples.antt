-- ===== src/Session/Examples.antt =====
-- The session table at concrete inputs.
use game_gateway.Prelude.{
  ◌+◌, ◌≡◌, refl, none, some, List, [], ◌∷◌, ℕ_discrete, ℤ-discrete, pos, negsuc,
}
use game_gateway.Session.{
  connected, Session, new_manager, shard_index, get_shard, set_shard, get, count, cleanup_idle,
  get_all,
}
use game_gateway.Session.Table.{
  Update, adds, removes, touches, apply_all, apply_all_spec, run-Valid, get-apply_all,
}
use game_gateway.Session.Sweep.{keep_active, idle_handles, cleanup_idle_lem}

abbrev early : Session
early = record {
  session_id = negsuc 16;
  client_conn = some 3;
  backend_conn = none;
  user_id = pos 0;
  realm_id = pos 0;
  service_type = "200";
  world_id = pos 1;
  inst_id = pos 2;
  created_at = 100;
  last_active_at = 100;
  state = connected;
  bytes_out = some 3;
}

abbrev late : Session
late = record early { session_id = pos 15; client_conn = some 4; backend_conn = some 5 }

abbrev updates : List Update
updates = adds early ∷ adds late ∷ touches (pos 15) 900 ∷ removes (pos 31) ∷ []

-- Both sessions live in the last shard.
same_shard : shard_index (negsuc 16) ≡ shard_index (pos 15)
unfolding shard_index
same_shard = refl

get-apply_all_example :
    get (pos 15) (apply_all updates new_manager) ≡ apply_all_spec updates (λ k. none) (pos 15)
get-apply_all_example = get-apply_all updates (pos 15)

cleanup_idle_example :
    (get (negsuc 16) (cleanup_idle 1000 500 (apply_all updates new_manager)).0
      ≡ keep_active 1000 500 (get (negsuc 16) (apply_all updates new_manager)))
    × ((cleanup_idle 1000 500 (apply_all updates new_manager)).1
          + count (cleanup_idle 1000 500 (apply_all updates new_manager)).0
        ≡ count (apply_all updates new_manager))
    × ((cleanup_idle 1000 500 (apply_all updates new_manager)).2
        ≡ idle_handles 1000 500 (get_all (apply_all updates new_manager)))
cleanup_idle_example =
    cleanup_idle_lem 1000 500 (apply_all updates new_manager) (negsuc 16) (run-Valid updates)

sweeps_one : (cleanup_idle 1000 500 (apply_all updates new_manager)).2 ≡ 3 ∷ []
unfolding cleanup_idle apply_all new_manager get get_shard set_shard shard_index ℤ-discrete
    ℕ_discrete
sweeps_one = refl
