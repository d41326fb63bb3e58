-- ===== src/Discovery/Refresh.antt =====
-- What a refresh of the rules or of the services leaves (internal/gateway/gateway.go,
-- onRoutingRulesUpdate, onConsulServicesUpdate).
use game_gateway.Prelude.{
  ◌≡◌, refl, ap, ◌∙◌, ite, Option, none, some, List, [], ◌∷◌, arith, find, find-put, Bytes-discrete,
  ℤ-discrete, ℤ, pair_text, pair_text-injective,
}
use game_gateway.Router.{RoutingRule, or_else}
use game_gateway.Discovery.{RoutingConfigs, with_endpoints, config_key, store_configs}
use game_gateway.Discovery.Offers.{filled_in}

-- The last of the rules for a server type and a world, without its endpoints.
abbrev pub last_rule : List RoutingRule → ℤ → ℤ → Option RoutingRule
last_rule [] s w = none
last_rule (rule ∷ rules) s w = or_else (last_rule rules s w) (
    ite (ℤ-discrete rule.server_type s)
      (ite (ℤ-discrete rule.world_id w) (some (filled_in rule w [])) none) none)

key_test :
    (rule : RoutingRule) (s w : ℤ) (o : Option RoutingRule)
    → ite
        (Bytes-discrete (config_key rule) (pair_text s w))
        (some (with_endpoints rule rule.world_id []))
        o
      ≡ or_else
          (ite
            (ℤ-discrete rule.server_type s)
            (ite (ℤ-discrete rule.world_id w) (some (with_endpoints rule w [])) none)
            none)
          o
unfolding config_key
key_test rule s w o = ground (
  arith,
  pair_text-injective rule.server_type rule.world_id s w,
  (λ (e : rule.server_type ≡ s) (f : rule.world_id ≡ w).
      ap (λ a. pair_text a rule.world_id) e ∙ ap (pair_text s) f),
)

or_else_assoc : (a b c : Option RoutingRule) → or_else (or_else a b) c ≡ or_else a (or_else b c)
or_else_assoc none b c = refl
or_else_assoc (some a) b c = refl

-- A configuration is found under its server type and world: the last rule of the update for them,
-- without its endpoints, or else the configuration that was stored before.
pub store_configs-find :
    (rules : List RoutingRule) (configs : RoutingConfigs) (s w : ℤ)
    → find Bytes-discrete (pair_text s w) (store_configs rules configs)
      ≡ or_else (last_rule rules s w) (find Bytes-discrete (pair_text s w) configs)
unfolding store_configs
store_configs-find [] configs s w = refl
store_configs-find (rule ∷ rules) configs s w =
    store_configs-find rules _ s w
    ∙ rw
        (
          find-put Bytes-discrete (config_key rule) (pair_text s w)
              (with_endpoints rule rule.world_id []) configs,
          key_test rule s w (find Bytes-discrete (pair_text s w) configs),
          or_else_assoc,
        )
        refl
