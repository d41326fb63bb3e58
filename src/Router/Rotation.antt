-- ===== src/Router/Rotation.antt =====
-- Round robin and hashing: which endpoint a request gets (internal/router/router.go).
use game_gateway.Prelude.{
  ℕ, ◌+◌, ◌%◌, ◌<◌, ◌≡◌, refl, ap, ◌∙◌, ◌≢◌, inl, inr, ite, Bool, true, false, not, ◌&&◌, Option,
  none, some, List, [], ◌∷◌, arith, find-put, Bytes-discrete, String, String-discrete, String-ne, ℤ,
  pos, is_pos, int_text, ◌==◌, if◌then◌else◌, Bool-cases, Option-cases, length, get_elem?,
  get_elem?-some,
}
use game_gateway.Router.{
  RoutingRule, Router, make_rule_key, get_rule, Route, endpoint, add_one, counter,
  route_round_robin, realm_text, pick_hash, route_by_strategy, route_by_server_id,
}

pub record Request : Type 0 where
  pub server_type : ℤ
  pub world_id : ℤ
  pub inst_id : ℤ

unfoldable pub route_request : Request → Router → Route × Router
unfolding route_by_server_id
route_request q r = route_by_server_id q.server_type q.world_id q.inst_id r

unfoldable pub route_all : List Request → Router → Router
unfolding route_request
route_all [] r = r
route_all (q ∷ qs) r = route_all qs (route_request q r).1

route_rules : (q : Request) (r : Router) → (route_request q r).1.rules ≡ r.rules
unfolding route_request route_by_server_id route_by_strategy route_round_robin
route_rules q r = ground arith

-- Routing changes counters only.
pub route_all-rules : (qs : List Request) (r : Router) → (route_all qs r).rules ≡ r.rules
unfolding route_all
route_all-rules [] r = refl
route_all-rules (q ∷ qs) r = route_all-rules qs (route_request q r).1 ∙ route_rules q r

get_rule-rules : (s w : ℤ) (r r' : Router) → r.rules ≡ r'.rules → get_rule s w r ≡ get_rule s w r'
unfolding get_rule
get_rule-rules s w r r' e = rw e refl

-- The bytes that a rule hashes for a request, where it hashes at all.
abbrev pub hash_text : RoutingRule → Request → Option (List ℕ)
hash_text rule q =
    ite (String-discrete rule.strategy "consistent_hash")
      (if is_pos q.inst_id then some (int_text q.inst_id) else none)
      (ite (String-discrete rule.strategy "realm_based")
        (if is_pos q.world_id && is_pos q.inst_id
          then some (realm_text q.world_id q.inst_id)
          else none)
        none)

route-hash_text :
    (rule : RoutingRule) (q : Request) (r : Router) (text : List ℕ)
    → hash_text rule q ≡ some text
    → route_by_strategy rule q.server_type q.world_id q.inst_id r
      ≡ (pick_hash text rule.endpoints, r)
unfolding route_by_strategy
route-hash_text rule q r text h = ground (
  arith,
  String-ne "consistent_hash" "round_robin" refl,
  String-ne "realm_based" "round_robin" refl,
)

-- A request that its rule, which has endpoints, hashes gets the endpoint at the checksum of the
-- hashed text modulo the number of endpoints, and moves no counter; requests before it do not
-- change its endpoint.
pub hash_sticky :
    (rule : RoutingRule) (q : Request) (qs : List Request) (r : Router) (text : List ℕ)
    → get_rule q.server_type q.world_id r ≡ some rule
    → length rule.endpoints ≢ 0
    → hash_text rule q ≡ some text
    → (route_request q r ≡ (pick_hash text rule.endpoints, r))
      × ((route_request q (route_all qs r)).0 ≡ pick_hash text rule.endpoints)
unfolding route_request route_by_server_id
hash_sticky rule q qs r text g n h =
    let g' =
      get_rule-rules q.server_type q.world_id (route_all qs r) r (route_all-rules qs r) ∙ g in
    (
      ground (arith, route-hash_text rule q r text h),
      ground (arith, g', route-hash_text rule q (route_all qs r) text h),
    )

-- Whether routing `q` takes a turn of the counter of server type `s` and world `w`.
abbrev pub takes_turn : ℤ → ℤ → Router → Request → Bool
takes_turn s w r q =
    ite (Bytes-discrete (make_rule_key q.server_type q.world_id) (make_rule_key s w))
      (elim (get_rule q.server_type q.world_id r) [
        | none ↦ false
        | some rule ↦
            if length rule.endpoints == 0
            then false
            else ite (String-discrete rule.strategy "round_robin") true (
                ite (String-discrete rule.strategy "consistent_hash") (not (is_pos q.inst_id)) (
                  ite (String-discrete rule.strategy "realm_based")
                    (not (is_pos q.world_id && is_pos q.inst_id)) false))
      ])
      false

abbrev pub turns : ℤ → ℤ → Router → List Request → ℕ
turns s w r [] = 0
turns s w r (q ∷ qs) = (if takes_turn s w r q then 1 else 0) + turns s w r qs

-- The counter of `s` and `w` behind a turn that the request `q` takes.
turn-counter :
    (s w : ℤ) (q : Request) (rule : RoutingRule) (r : Router)
    → counter s w (route_round_robin q.server_type q.world_id rule r).1
      ≡ ite
          (Bytes-discrete (make_rule_key q.server_type q.world_id) (make_rule_key s w))
          (add_one (counter s w r))
          (counter s w r)
unfolding route_round_robin
turn-counter s w q rule r = ground (
  arith,
  find-put Bytes-discrete (make_rule_key q.server_type q.world_id) (make_rule_key s w)
      (add_one (counter q.server_type q.world_id r)) r.round_robin_counters,
)

counter-route :
    (s w : ℤ) (q : Request) (r : Router)
    → counter s w (route_request q r).1
      ≡ (if takes_turn s w r q then add_one (counter s w r) else counter s w r)
unfolding route_request route_by_server_id route_by_strategy
counter-route s w q r = elim (Option-cases (get_rule q.server_type q.world_id r)) [
  | inl e ↦ ground arith
  | inr (rule, e) ↦ ground (arith, turn-counter s w q rule r)
]

add_one-pos : (n : ℕ) → n < 9223372036854775807 → add_one (pos n) ≡ pos (n + 1)
add_one-pos n h = ground arith

takes_turn-rules :
    (s w : ℤ) (q : Request) (r r' : Router)
    → r.rules ≡ r'.rules
    → takes_turn s w r q ≡ takes_turn s w r' q
takes_turn-rules s w q r r' e = rw (get_rule-rules q.server_type q.world_id r r' e) refl

turns-rules :
    (s w : ℤ) (qs : List Request) (r r' : Router)
    → r.rules ≡ r'.rules
    → turns s w r qs ≡ turns s w r' qs
turns-rules s w [] r r' e = refl
turns-rules s w (q ∷ qs) r r' e = rw (takes_turn-rules s w q r r' e, turns-rules s w qs r r' e) refl

counter-route_all :
    (s w : ℤ) (qs : List Request) (r : Router) (c : ℕ)
    → counter s w r ≡ pos c
    → c + turns s w r qs < 9223372036854775808
    → counter s w (route_all qs r) ≡ pos (c + turns s w r qs)
unfolding route_all
counter-route_all s w [] r c h b = h ∙ ap pos (omega arith)
counter-route_all s w (q ∷ qs) r c h b =
    let r' = (route_request q r).1 in
    let same = turns-rules s w qs r' r (route_rules q r) in
    let moved = counter-route s w q r in
    elim (Bool-cases (takes_turn s w r q)) [
      | inl t ↦
          counter-route_all s w qs r' (c + 1)
            (ground (arith, moved, t, add_one-pos c (ground (arith, t)))) (ground (arith, t, same))
          ∙ ap pos (ground (arith, t, same))
      | inr t ↦
          counter-route_all s w qs r' c (ground (arith, moved, t)) (ground (arith, t, same))
          ∙ ap pos (ground (arith, t, same))
    ]

-- A request that a round-robin rule with endpoints serves gets, behind any other requests, the
-- endpoint at the number of turns taken so far by its server type and world, modulo the number of
-- endpoints, as long as that number is in the range of an int64.
pub rotation :
    (s w i : ℤ) (rule : RoutingRule) (qs : List Request) (r : Router) (c : ℕ)
    → get_rule s w r ≡ some rule
    → rule.strategy ≡ "round_robin"
    → length rule.endpoints ≢ 0
    → counter s w r ≡ pos c
    → c + turns s w r qs < 9223372036854775808
    → (e : String) × (get_elem? rule.endpoints ((c + turns s w r qs) % length rule.endpoints)
        ≡ some e)
      × ((route_request (record { server_type = s; world_id = w; inst_id = i }) (route_all qs r)).0
          ≡ endpoint e)
unfolding route_request route_by_server_id route_by_strategy route_round_robin
rotation s w i rule qs r c g st n h b =
    let r' = route_all qs r in
    let g' = get_rule-rules s w r' r (route_all-rules qs r) ∙ g in
    let (e, at) =
      get_elem?-some rule.endpoints ((c + turns s w r qs) % length rule.endpoints) (grind arith) in
    (e, at, ground (arith, g', counter-route_all s w qs r c h b, at))
