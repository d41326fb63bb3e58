-- ===== src/Discovery.antt =====
-- internal/consul/discovery.go (DiscoverServices) and the part of internal/gateway/gateway.go that
-- turns services and stored rules into routing rules. A Go map is an association list, in the order
-- in which a loop over it happens to run; the answer of Consul is a parameter.
pub mod Grouping
pub mod Merging
pub mod Offers
pub mod Refresh
mod Examples
use game_gateway.Prelude.{
  ℕ, ite, Bool, true, false, ◌&&◌, ◌||◌, Option, none, some, List, [], ◌∷◌, ◌++◌, map, find, put,
  Bytes-discrete, String, String-discrete, ℤ-discrete, ℤ, pos, is_pos, eqb_ℤ, pair_text, codes,
  atoi, int_string, text_append, ◌==◌, if◌then◌else◌, length,
}
use game_gateway.Config.Schema.{is_empty, ConsulConfig}
use game_gateway.Router.{RoutingRule, Router, update_rule}

pub record ServiceEntry : Type 0 where
  pub address : String
  pub port : ℤ
  pub meta : List (String × String)

-- A missing key of a map of texts reads as the empty text.
abbrev pub text_or_empty : Option String → String
text_or_empty none = ""
text_or_empty (some s) = s

abbrev pub meta_of : String → ServiceEntry → String
meta_of key s = text_or_empty (find String-discrete key s.meta)

abbrev pub service_namespace : ServiceEntry → String
service_namespace s =
    if is_empty (meta_of "namespace" s) then meta_of "pod_namespace" s else meta_of "namespace" s

-- An empty namespace takes services of all of them.
unfoldable pub in_namespace : String → ServiceEntry → Bool
in_namespace namespace s =
    if is_empty namespace
    then true
    else ite (String-discrete (service_namespace s) namespace) true false

unfoldable pub world_of : ServiceEntry → Option ℤ
world_of s = if is_empty (meta_of "world_id" s) then none else atoi (codes (meta_of "world_id" s))

abbrev pub entries_or_none : Option (List ServiceEntry) → List ServiceEntry
entries_or_none none = []
entries_or_none (some ss) = ss

abbrev pub Services : Type 0
Services = List (ℤ × List ServiceEntry)

abbrev pub entries_of : ℤ → Services → List ServiceEntry
entries_of w services = entries_or_none (find ℤ-discrete w services)

-- `result[worldID] = append(result[worldID], serviceEntry)`.
abbrev pub add_entry : Option ℤ → ServiceEntry → Services → Services
add_entry none s services = services
add_entry (some w) s services = put ℤ-discrete w (entries_of w services ++ s ∷ []) services

-- The loop over the entries, with the services grouped so far.
unfoldable pub group_services : String → List ServiceEntry → Services → Services
unfolding in_namespace world_of
group_services namespace [] services = services
group_services namespace (s ∷ ss) services =
    group_services namespace ss
      (if in_namespace namespace s then add_entry (world_of s) s services else services)

-- What asking Consul comes to: an error of the request, of its status or of its body, or entries.
pub data Answer : Type 0 where
  request_failed decode_failed : Answer
  bad_status : ℕ → Answer
  answered : List ServiceEntry → Answer

-- The services by world, or none with an error.
unfoldable pub discover_services : String → Answer → Option Services
unfolding group_services
discover_services namespace (answered ss) = some (group_services namespace ss [])
discover_services namespace _ = none

-- "address:port".
unfoldable pub endpoint_text : ServiceEntry → String
endpoint_text s = text_append s.address (text_append ":" (int_string s.port))

abbrev pub RoutingConfigs : Type 0
RoutingConfigs = List (List ℕ × RoutingRule)

-- A rule with other endpoints, for another world.
abbrev pub with_endpoints : RoutingRule → ℤ → List String → RoutingRule
with_endpoints config world_id endpoints = record {
  server_type = config.server_type;
  service_name = config.service_name;
  strategy = config.strategy;
  endpoints = endpoints;
  hash_key = config.hash_key;
  world_id = world_id;
}

abbrev pub matches_world : ℤ → RoutingRule → Bool
matches_world world_id config =
    eqb_ℤ config.world_id world_id || (eqb_ℤ config.world_id (pos 0) && is_pos world_id)

abbrev pub matches_service : String → RoutingRule → Bool
matches_service consul_name config =
    is_empty config.service_name || ite (String-discrete config.service_name consul_name) true false

unfoldable pub config_matches : String → ℤ → RoutingRule → Bool
config_matches consul_name world_id config =
    matches_world world_id config && matches_service consul_name config

-- The loop over the stored configurations: each that matches writes a rule.
unfoldable pub merge_configs : String → ℤ → List String → RoutingConfigs → Router → Router
unfolding config_matches update_rule
merge_configs consul_name world_id endpoints [] r = r
merge_configs consul_name world_id endpoints ((k, config) ∷ configs) r =
    merge_configs consul_name world_id endpoints configs (
      if config_matches consul_name world_id config
      then update_rule (with_endpoints config world_id endpoints) r
      else r)

unfoldable pub some_matches : String → ℤ → RoutingConfigs → Bool
unfolding config_matches
some_matches consul_name world_id [] = false
some_matches consul_name world_id ((k, config) ∷ configs) =
    config_matches consul_name world_id config || some_matches consul_name world_id configs

-- The rule of a world that no configuration matches: game servers have the type 200.
unfoldable pub default_rule : String → ℤ → List String → RoutingRule
default_rule consul_name world_id endpoints = record {
  server_type = pos 200;
  service_name = consul_name;
  strategy = "round_robin";
  endpoints = endpoints;
  hash_key = "";
  world_id = world_id;
}

unfoldable pub merge_world : String → RoutingConfigs → ℤ → List String → Router → Router
unfolding merge_configs some_matches default_rule update_rule
merge_world consul_name configs world_id endpoints r =
    let merged = merge_configs consul_name world_id endpoints configs r in
    if some_matches consul_name world_id configs
    then merged
    else update_rule (default_rule consul_name world_id endpoints) merged

unfoldable pub merge_consul_endpoints : String → RoutingConfigs → Services → Router → Router
unfolding merge_world
merge_consul_endpoints consul_name configs [] r = r
merge_consul_endpoints consul_name configs ((w, ss) ∷ services) r =
    merge_consul_endpoints consul_name configs services
      (if length ss == 0 then r else merge_world consul_name configs w (map endpoint_text ss) r)

-- The stored configuration of a rule, without its endpoints.
unfoldable pub config_key : RoutingRule → List ℕ
config_key rule = pair_text rule.server_type rule.world_id

unfoldable pub store_configs : List RoutingRule → RoutingConfigs → RoutingConfigs
unfolding config_key
store_configs [] configs = configs
store_configs (rule ∷ rules) configs =
    store_configs rules
      (put Bytes-discrete (config_key rule) (with_endpoints rule rule.world_id []) configs)

unfoldable pub update_rules : List RoutingRule → Router → Router
unfolding update_rule
update_rules [] r = r
update_rules (rule ∷ rules) r = update_rules rules (update_rule rule r)

-- The gateway's part of this: the stored configurations and the router.
pub record Routing : Type 0 where
  pub configs : RoutingConfigs
  pub router : Router

abbrev pub merged_or_kept : String → Option Services → Routing → Routing
merged_or_kept consul_name none g = g
merged_or_kept consul_name (some services) g = record {
  configs = g.configs;
  router = merge_consul_endpoints consul_name g.configs services g.router;
}

abbrev pub stored : List RoutingRule → Routing → Routing
stored rules g = record { configs = store_configs rules g.configs; router = g.router }

abbrev pub with_rules : List RoutingRule → Routing → Routing
with_rules rules g = record { configs = g.configs; router = update_rules rules g.router }

-- `rules` is none for a nil map, `consul` none if Consul is disabled or absent.
unfoldable pub on_routing_rules_update :
    ConsulConfig → Option Answer → Option (List RoutingRule) → Routing → Routing
unfolding store_configs update_rules merge_consul_endpoints discover_services
on_routing_rules_update cfg consul none g = g
on_routing_rules_update cfg none (some rules) g = with_rules rules (stored rules g)
on_routing_rules_update cfg (some answer) (some rules) g =
    merged_or_kept cfg.service_name (discover_services cfg.namespace answer) (stored rules g)

unfoldable pub on_consul_services_update : ConsulConfig → Option Services → Routing → Routing
unfolding merge_consul_endpoints
on_consul_services_update cfg services g = merged_or_kept cfg.service_name services g

-- The initial load: none if the rules cannot be loaded, an empty list for a nil map.
unfoldable pub load_config_from_redis : Bool → Option (List RoutingRule) → Routing → Option Routing
unfolding store_configs update_rules
load_config_from_redis consul_enabled none g = none
load_config_from_redis consul_enabled (some rules) g =
    some (if consul_enabled then stored rules g else with_rules rules (stored rules g))
