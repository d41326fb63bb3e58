-- ===== src/Discovery/Merging.antt =====
-- The rules that the services of Consul and the stored configurations make together
-- (internal/gateway/gateway.go, mergeConsulEndpoints).
use game_gateway.Prelude.{
  ◌≡◌, refl, sym, ◌∙◌, ◌≢◌, inl, inr, ite, if_pos, if_neg, Bool, true, false, ◌&&◌, Option, none,
  some, List, [], ◌∷◌, map, arith, find, Unique, String, ℤ-discrete, ℤ, pos, is_pos, ◌==◌,
  if◌then◌else◌, Bool-cases, length,
}
use game_gateway.Router.{RoutingRule, Router, world_or_zero, update_rule, find_rule, or_else}
use game_gateway.Router.Rules.{find_rule-update_rule}
use game_gateway.Discovery.{
  ServiceEntry, Services, endpoint_text, RoutingConfigs, with_endpoints, config_matches,
  merge_configs, some_matches, default_rule, merge_world, merge_consul_endpoints,
}

abbrev eqb_type : ℤ → RoutingRule → Bool
eqb_type s config = ite (ℤ-discrete config.server_type s) true false

-- The rule that one configuration makes for a server type of a world.
abbrev pub made : String → ℤ → List String → ℤ → RoutingRule → Option RoutingRule
made name w es s config =
    if config_matches name w config && eqb_type s config
    then some (with_endpoints config w es)
    else none

-- The rule of the last configuration that makes one.
abbrev pub last_made : String → ℤ → List String → ℤ → RoutingConfigs → Option RoutingRule
last_made name w es s [] = none
last_made name w es s ((k, config) ∷ configs) =
    or_else (last_made name w es s configs) (made name w es s config)

abbrev default_made : String → ℤ → List String → ℤ → Option RoutingRule
default_made name w es s = ite (ℤ-discrete (pos 200) s) (some (default_rule name w es)) none

-- The rule that a world's endpoints make for a server type, or none.
abbrev pub merged_rule : String → RoutingConfigs → ℤ → List String → ℤ → Option RoutingRule
merged_rule name configs w es s =
    if some_matches name w configs then last_made name w es s configs else default_made name w es s

or_else_assoc : (a b c : Option RoutingRule) → or_else (or_else a b) c ≡ or_else a (or_else b c)
or_else_assoc none b c = refl
or_else_assoc (some a) b c = refl

update_own :
    (config : RoutingRule) (name : String) (w : ℤ) (es : List String) (r : Router) (s : ℤ)
    → find_rule s w
        (if config_matches name w config then update_rule (with_endpoints config w es) r else r)
      ≡ or_else (made name w es s config) (find_rule s w r)
update_own config name w es r s = elim (Bool-cases (config_matches name w config)) [
  | inl e ↦ rw e (find_rule-update_rule (with_endpoints config w es) r s w ∙ ground (arith))
  | inr e ↦ rw e refl
]

merge_configs-find_rule :
    (name : String) (w : ℤ) (es : List String) (configs : RoutingConfigs) (r : Router) (s : ℤ)
    → find_rule s w (merge_configs name w es configs r)
      ≡ or_else (last_made name w es s configs) (find_rule s w r)
unfolding merge_configs
merge_configs-find_rule name w es [] r s = refl
merge_configs-find_rule name w es ((k, config) ∷ configs) r s =
    merge_configs-find_rule name w es configs
      (if config_matches name w config then update_rule (with_endpoints config w es) r else r) s
    ∙ rw (update_own config name w es r s, or_else_assoc) refl

update-elsewhere :
    (config : RoutingRule) (b : Bool) (r : Router) (s w : ℤ)
    → world_or_zero config.world_id ≢ world_or_zero w
    → find_rule s w (if b then update_rule config r else r) ≡ find_rule s w r
update-elsewhere config true r s w h =
    find_rule-update_rule config r s w
    ∙ rw (if_neg (ℤ-discrete (world_or_zero config.world_id) (world_or_zero w)) h) (ground arith)
update-elsewhere config false r s w h = refl

merge_configs-elsewhere :
    (name : String) (v : ℤ) (es : List String) (configs : RoutingConfigs) (r : Router) (s w : ℤ)
    → world_or_zero v ≢ world_or_zero w
    → find_rule s w (merge_configs name v es configs r) ≡ find_rule s w r
unfolding merge_configs
merge_configs-elsewhere name v es [] r s w h = refl
merge_configs-elsewhere name v es ((k, config) ∷ configs) r s w h =
    merge_configs-elsewhere name v es configs
      (if config_matches name v config then update_rule (with_endpoints config v es) r else r) s w h
    ∙ update-elsewhere (with_endpoints config v es) (config_matches name v config) r s w h

last_made-none :
    (name : String) (w : ℤ) (es : List String) (s : ℤ) (configs : RoutingConfigs)
    → some_matches name w configs ≡ false
    → last_made name w es s configs ≡ none
unfolding some_matches
last_made-none name w es s [] h = refl
last_made-none name w es s ((k, config) ∷ configs) h =
    elim (Bool-cases (config_matches name w config)) [
      | inl e ↦ absurd (ground (arith, e, h))
      | inr e ↦ rw (e, last_made-none name w es s configs (ground (arith, e, h))) refl
    ]

merge_world-find_rule :
    (name : String) (configs : RoutingConfigs) (w : ℤ) (es : List String) (r : Router) (s : ℤ)
    → find_rule s w (merge_world name configs w es r)
      ≡ or_else (merged_rule name configs w es s) (find_rule s w r)
unfolding merge_world
merge_world-find_rule name configs w es r s = elim (Bool-cases (some_matches name w configs)) [
  | inl e ↦ rw e (merge_configs-find_rule name w es configs r s)
  | inr e ↦ rw e (
      find_rule-update_rule (default_rule name w es) (merge_configs name w es configs r) s w
      ∙ unfold default_rule in
        rw (merge_configs-find_rule name w es configs r s, last_made-none name w es s configs e)
          (ground arith))
]

merge_world-elsewhere :
    (name : String) (configs : RoutingConfigs) (v : ℤ) (es : List String) (r : Router) (s w : ℤ)
    → world_or_zero v ≢ world_or_zero w
    → find_rule s w (merge_world name configs v es r) ≡ find_rule s w r
unfolding merge_world default_rule
merge_world-elsewhere name configs v es r s w h = elim (Bool-cases (some_matches name v configs)) [
  | inl e ↦ rw e (merge_configs-elsewhere name v es configs r s w h)
  | inr e ↦ rw e (
      update-elsewhere (default_rule name v es) true (merge_configs name v es configs r) s w h
      ∙ merge_configs-elsewhere name v es configs r s w h)
]

-- The rule that the services of a world make for a server type, or none: services are needed.
abbrev pub offered :
    String → RoutingConfigs → ℤ → Option (List ServiceEntry) → ℤ → Option RoutingRule
offered name configs w none s = none
offered name configs w (some ss) s =
    if length ss == 0 then none else merged_rule name configs w (map endpoint_text ss) s

world_or_zero-ne : (v w : ℤ) → is_pos w ≡ true → v ≢ w → world_or_zero v ≢ world_or_zero w
world_or_zero-ne v w p h e = ground (arith, p, h, e)

-- What one entry of the map leaves for its own world, and for another.
merge_entry :
    (name : String) (configs : RoutingConfigs) (w : ℤ) (ss : List ServiceEntry) (r : Router) (s : ℤ)
    → find_rule s w
        (if length ss == 0 then r else merge_world name configs w (map endpoint_text ss) r)
      ≡ or_else (offered name configs w (some ss) s) (find_rule s w r)
merge_entry name configs w ss r s = elim (Bool-cases (length ss == 0)) [
  | inl e ↦ rw e refl
  | inr e ↦ rw e (merge_world-find_rule name configs w (map endpoint_text ss) r s)
]

merge_entry-elsewhere :
    (name : String) (configs : RoutingConfigs) (v : ℤ) (ss : List ServiceEntry) (r : Router)
    (s w : ℤ)
    → world_or_zero v ≢ world_or_zero w
    → find_rule s w
        (if length ss == 0 then r else merge_world name configs v (map endpoint_text ss) r)
      ≡ find_rule s w r
merge_entry-elsewhere name configs v ss r s w h = elim (Bool-cases (length ss == 0)) [
  | inl e ↦ rw e refl
  | inr e ↦ rw e (merge_world-elsewhere name configs v (map endpoint_text ss) r s w h)
]

-- For a map of services in which no world has two entries and a world above 0: after the merge the
-- world's rule for a server type is that of the last stored configuration of the type that matches
-- the world and the service, with the endpoints of the world's services; if none matches for any
-- type, the default for type 200; without such a rule, or without services, the rule it had.
pub merge_consul_endpoints-find_rule :
    (name : String) (configs : RoutingConfigs) (services : Services) (r : Router) (s w : ℤ)
    → is_pos w ≡ true
    → Unique ℤ-discrete services
    → find_rule s w (merge_consul_endpoints name configs services r)
      ≡ or_else (offered name configs w (find ℤ-discrete w services) s) (find_rule s w r)
unfolding merge_consul_endpoints
merge_consul_endpoints-find_rule name configs [] r s w p u = refl
merge_consul_endpoints-find_rule name configs ((v, ss) ∷ services) r s w p u =
    elim (ℤ-discrete v w) [
      | yes e ↦
          let after =
            if length ss == 0 then r else merge_world name configs v (map endpoint_text ss) r in
          let missing : find ℤ-discrete w services ≡ none = rw (sym e) u.0 in
          merge_consul_endpoints-find_rule name configs services after s w p u.1
          ∙ rw (missing, if_pos (ℤ-discrete v w) e (some ss) none)
              (rw e (merge_entry name configs w ss r s))
      | no n ↦
          let after =
            if length ss == 0 then r else merge_world name configs v (map endpoint_text ss) r in
          merge_consul_endpoints-find_rule name configs services after s w p u.1
          ∙ rw
              (
                if_neg (ℤ-discrete v w) n,
                merge_entry-elsewhere name configs v ss r s w (world_or_zero-ne v w p n),
              )
              refl
    ]
