-- ===== src/Discovery/Examples.antt =====
-- Runs of service discovery and of the merge (internal/consul, internal/gateway).
use game_gateway.Prelude.{
  ◌≡◌, refl, true, some, List, [], ◌∷◌, ℕ_discrete, String-discrete, ℤ-discrete, pos, codes, atoi,
}
use game_gateway.Config.Schema.{ConsulConfig}
use game_gateway.Router.{RoutingRule, new_router}
use game_gateway.Discovery.{
  ServiceEntry, in_namespace, world_of, group_services, answered, Routing, on_routing_rules_update,
}

abbrev one : ServiceEntry
one = record {
  address = "10.0.0.1";
  port = pos 8081;
  meta = ("world_id", "7") ∷ ("namespace", "live") ∷ [];
}

abbrev other : ServiceEntry
other = record {
  address = "10.0.0.2";
  port = pos 8082;
  meta = ("pod_namespace", "live") ∷ ("world_id", "7") ∷ [];
}

abbrev staging : ServiceEntry
staging = record {
  address = "10.0.0.3";
  port = pos 8083;
  meta = ("world_id", "7") ∷ ("namespace", "staging") ∷ [];
}

abbrev unnamed : ServiceEntry
unnamed = record { address = "10.0.0.4"; port = pos 8084; meta = ("namespace", "live") ∷ [] }

abbrev found : List ServiceEntry
found = one ∷ staging ∷ unnamed ∷ other ∷ []

grouped : group_services "live" found [] ≡ (pos 7, one ∷ other ∷ []) ∷ []
unfolding group_services world_of in_namespace String-discrete atoi codes ℤ-discrete ℕ_discrete
grouped = refl

abbrev game_rule : RoutingRule
game_rule = record {
  server_type = pos 200;
  service_name = "gameserver";
  strategy = "consistent_hash";
  endpoints = "old:1" ∷ [];
  hash_key = "";
  world_id = pos 0;
}

abbrev consul_config : ConsulConfig
consul_config = record {
  service_name = "gameserver";
  namespace = "live";
  refresh_interval = pos 10;
  enabled = true;
}

abbrev routing : Routing
routing = record { configs = []; router = new_router }

abbrev refreshed : Routing
refreshed =
    on_routing_rules_update consul_config (some (answered found)) (some (game_rule ∷ [])) routing
