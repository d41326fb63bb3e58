-- ===== src/Router/Examples.antt =====
-- Routing at concrete inputs: the game service on all worlds by rotation, on world 1 by hashing.
use game_gateway.Prelude.{
  ℕ, ◌+◌, ◌%◌, ◌≡◌, refl, none, some, List, [], ◌∷◌, arith, ℕ_discrete, Bytes-discrete, String,
  String-discrete, pos, negsuc, pair_text, length, get_elem?,
}
use game_gateway.Router.{RoutingRule, Router, new_router, make_rule_key, get_rule, endpoint}
use game_gateway.Router.Rules.{
  Update, updates, removes, apply_all, apply_all_spec, serve, get_rule-apply_all,
}
use game_gateway.Router.Rotation.{Request, route_request, route_all, turns, rotation}

abbrev rotating : RoutingRule
rotating = record {
  server_type = pos 200;
  service_name = "game";
  strategy = "round_robin";
  endpoints = "a:1" ∷ "b:1" ∷ "c:1" ∷ [];
  hash_key = "";
  world_id = negsuc 3;
}

abbrev hashing : RoutingRule
hashing = record rotating { strategy = "realm_based"; world_id = pos 1 }

abbrev loaded_rules : List Update
loaded_rules = updates hashing ∷ updates rotating ∷ removes (pos 200) (pos 2) ∷ []

abbrev game_router : Router
game_router = record {
  rules =
      (b'2' ∷ b'0' ∷ b'0' ∷ b':' ∷ b'1' ∷ [], hashing)
      ∷ (b'2' ∷ b'0' ∷ b'0' ∷ b':' ∷ b'0' ∷ [], rotating)
      ∷ [];
  round_robin_counters = [];
}

loaded_rules_lem : apply_all loaded_rules new_router ≡ game_router
unfolding apply_all new_router make_rule_key pair_text Bytes-discrete ℕ_discrete
loaded_rules_lem = refl

get_rule-apply_all_example :
    get_rule (pos 200) (pos 2) (apply_all loaded_rules new_router)
    ≡ serve (apply_all_spec loaded_rules (λ a b. none)) (pos 200) (pos 2)
get_rule-apply_all_example = get_rule-apply_all loaded_rules (pos 200) (pos 2)

abbrev to_world : ℕ → Request
to_world w = record { server_type = pos 200; world_id = pos w; inst_id = pos 7 }

abbrev traffic : List Request
traffic = to_world 2 ∷ to_world 1 ∷ to_world 2 ∷ to_world 3 ∷ []

rotation_example :
    (e : String) × (get_elem? rotating.endpoints
        ((0 + turns (pos 200) (pos 2) game_router traffic) % length rotating.endpoints)
      ≡ some e)
    × ((route_request (to_world 2) (route_all traffic game_router)).0 ≡ endpoint e)
unfolding get_rule make_rule_key pair_text Bytes-discrete ℕ_discrete String-discrete
rotation_example =
    rotation (pos 200) (pos 2) (pos 7) rotating traffic game_router 0 refl refl (omega arith) refl
      (omega arith)
