-- ===== src/Router.antt =====
-- internal/router/router.go: the routing rules, kept under the text "serverType:worldID", and the
-- round-robin counters under the same texts. A method takes the router and returns the new one;
-- the locks make each map access one step, and an atomic add hands every call its own count.
pub mod Rules
pub mod Rotation
mod Examples
use game_gateway.Prelude.{
  ℕ, zero, suc, ◌%◌, ite, ◌&&◌, Option, none, some, List, [], ◌∷◌, ◌++◌, find, put, remove,
  Bytes-discrete, String, String-discrete, ℤ, pos, negsuc, is_pos, int_text, pair_text,
  checksum_ieee, ◌==◌, if◌then◌else◌, length, get_elem?,
}

pub record RoutingRule : Type 0 where
  pub server_type : ℤ
  pub service_name : String
  pub strategy : String
  pub endpoints : List String
  pub hash_key : String
  pub world_id : ℤ

pub record Router : Type 0 where
  pub rules : List (List ℕ × RoutingRule)
  pub round_robin_counters : List (List ℕ × ℤ)

unfoldable pub new_router : Router
new_router = record { rules = []; round_robin_counters = [] }

-- World 0 and below is the wildcard.
abbrev pub world_or_zero : ℤ → ℤ
world_or_zero w = if is_pos w then w else pos 0

unfoldable pub make_rule_key : ℤ → ℤ → List ℕ
make_rule_key server_type world_id = pair_text server_type (world_or_zero world_id)

unfoldable pub update_rule : RoutingRule → Router → Router
update_rule rule r = record r {
  rules = put Bytes-discrete (make_rule_key rule.server_type rule.world_id) rule r.rules;
}

unfoldable pub remove_rule : ℤ → ℤ → Router → Router
remove_rule server_type world_id r = record r {
  rules = remove Bytes-discrete (make_rule_key server_type world_id) r.rules;
}

abbrev pub find_rule : ℤ → ℤ → Router → Option RoutingRule
find_rule server_type world_id r = find Bytes-discrete (make_rule_key server_type world_id) r.rules

abbrev pub or_else : Option RoutingRule → Option RoutingRule → Option RoutingRule
or_else none o = o
or_else (some rule) o = some rule

unfoldable pub get_rule : ℤ → ℤ → Router → Option RoutingRule
get_rule server_type world_id r =
    let wildcard = find_rule server_type (pos 0) r in
    if is_pos world_id then or_else (find_rule server_type world_id r) wildcard else wildcard

unfoldable pub get_all_rules : Router → List (List ℕ × RoutingRule)
get_all_rules r = r.rules

-- The result of a route: an endpoint, one of the errors, or a run-time panic.
pub data Route : Type 0 where
  endpoint : String → Route
  no_rule no_endpoints unknown_strategy panics : Route

abbrev pub endpoint_or_panic : Option String → Route
endpoint_or_panic none = panics
endpoint_or_panic (some e) = endpoint e

-- `endpoints[int(count) % len(endpoints)]` at an int64: Go's remainder has the sign of `count`, so
-- a negative count is an index below 0 unless the remainder is 0.
abbrev pub pick : ℤ → List String → Route
pick (pos n) es = endpoint_or_panic (get_elem? es (n % length es))
pick (negsuc n) es = if suc n % length es == 0 then endpoint_or_panic (get_elem? es 0) else panics

-- `atomic.AddInt64(counter, 1)` wraps.
abbrev pub add_one : ℤ → ℤ
add_one (pos n) = if n == 9223372036854775807 then negsuc 9223372036854775807 else pos (suc n)
add_one (negsuc zero) = pos 0
add_one (negsuc (suc n)) = negsuc n

abbrev pub count_or_zero : Option ℤ → ℤ
count_or_zero none = pos 0
count_or_zero (some c) = c

-- The counter of a request; a new one starts at 0.
abbrev pub counter : ℤ → ℤ → Router → ℤ
counter server_type world_id r =
    count_or_zero (find Bytes-discrete (make_rule_key server_type world_id) r.round_robin_counters)

-- The count that a call gets is the counter before its add.
unfoldable pub route_round_robin : ℤ → ℤ → RoutingRule → Router → Route × Router
route_round_robin server_type world_id rule r =
    let count = counter server_type world_id r in
    (
      pick count rule.endpoints,
      record r {
        round_robin_counters =
            put Bytes-discrete (make_rule_key server_type world_id) (add_one count)
              r.round_robin_counters;
      },
    )

-- The text "world:%d:inst:%d".
abbrev pub realm_text : ℤ → ℤ → List ℕ
realm_text world_id inst_id =
    b'w' ∷ b'o' ∷ b'r' ∷ b'l' ∷ b'd' ∷ b':' ∷ []
    ++ (int_text world_id ++ (b':' ∷ b'i' ∷ b'n' ∷ b's' ∷ b't' ∷ b':' ∷ [] ++ int_text inst_id))

-- A checksum is below 2 ^ 32, so `int(hash)` is not negative.
abbrev pub pick_hash : List ℕ → List String → Route
pick_hash text es = pick (pos (checksum_ieee text)) es

-- The `switch` on the strategy.
unfoldable pub route_by_strategy : RoutingRule → ℤ → ℤ → ℤ → Router → Route × Router
route_by_strategy rule server_type world_id inst_id r =
    let rotated = route_round_robin server_type world_id rule r in
    ite (String-discrete rule.strategy "round_robin") rotated (
      ite (String-discrete rule.strategy "consistent_hash")
        (if is_pos inst_id then (pick_hash (int_text inst_id) rule.endpoints, r) else rotated)
        (ite (String-discrete rule.strategy "realm_based")
          (if is_pos world_id && is_pos inst_id
            then (pick_hash (realm_text world_id inst_id) rule.endpoints, r)
            else rotated)
          (unknown_strategy, r)))

unfoldable pub route_by_server_id : ℤ → ℤ → ℤ → Router → Route × Router
route_by_server_id server_type world_id inst_id r = elim (get_rule server_type world_id r) [
  | none ↦ (no_rule, r)
  | some rule ↦
      if length rule.endpoints == 0
      then (no_endpoints, r)
      else route_by_strategy rule server_type world_id inst_id r
]
