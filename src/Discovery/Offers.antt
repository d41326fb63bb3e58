-- ===== src/Discovery/Offers.antt =====
-- The rules that a world's servers should get, described from Consul's answer and the stored
-- configurations alone (internal/gateway/gateway.go, mergeConsulEndpoints; internal/consul).
use game_gateway.Prelude.{
  ◌≡◌, refl, sym, ap, ◌∙◌, inl, inr, ite, Bool, true, false, ◌&&◌, ◌||◌, Option, none, some, List,
  [], ◌∷◌, map, arith, find, String, String-discrete, ℤ-discrete, ℤ, pos, is_pos, eqb_ℤ, codes,
  atoi, int_string, text_append, if◌then◌else◌, Bool-cases,
}
use text.Mathlib.Text.{◌==◌ as same_text}
use text.Mathlib.TextEquality.{eq_iff}
use game_gateway.Router.{RoutingRule, or_else}
use game_gateway.Discovery.{
  ServiceEntry, text_or_empty, in_namespace, world_of, endpoint_text, RoutingConfigs,
  config_matches, some_matches, default_rule,
}
use game_gateway.Discovery.Grouping.{is_world, belongs_to, selected, present}
use game_gateway.Discovery.Merging.{last_made, merged_rule, offered}

abbrev is_text : String → String → Bool
is_text s t = ite (String-discrete s t) true false

-- The namespace of a service: its "namespace", or else its "pod_namespace".
abbrev namespace_or : String → String → String
namespace_or a b = if same_text a "" then b else a

abbrev lives_in : String → ServiceEntry → Bool
lives_in namespace s =
    if same_text namespace ""
    then true
    else is_text
        (namespace_or (text_or_empty (find String-discrete "namespace" s.meta))
          (text_or_empty (find String-discrete "pod_namespace" s.meta)))
        namespace

-- Whether a service's "world_id" reads as the world.
abbrev is_numbered : ℤ → Option String → Bool
is_numbered w none = false
is_numbered w (some t) = is_world w (atoi (codes t))

-- The services of a world, as the addresses and ports that they give.
abbrev pub endpoints_of : String → ℤ → List ServiceEntry → List String
endpoints_of namespace w [] = []
endpoints_of namespace w (s ∷ ss) =
    let rest = endpoints_of namespace w ss in
    if lives_in namespace s && is_numbered w (find String-discrete "world_id" s.meta)
    then text_append s.address (text_append ":" (int_string s.port)) ∷ rest
    else rest

-- Whether a configuration is one for the world, or for all worlds, and for the service, or for all.
abbrev applies : String → ℤ → RoutingRule → Bool
applies name w c =
    (eqb_ℤ c.world_id w || (eqb_ℤ c.world_id (pos 0) && is_pos w))
    && (same_text c.service_name "" || is_text c.service_name name)

abbrev some_applies : String → ℤ → RoutingConfigs → Bool
some_applies name w [] = false
some_applies name w ((k, c) ∷ configs) = applies name w c || some_applies name w configs

-- The configuration with the world and its endpoints filled in.
abbrev pub filled_in : RoutingRule → ℤ → List String → RoutingRule
filled_in c w es = record {
  server_type = c.server_type;
  service_name = c.service_name;
  strategy = c.strategy;
  endpoints = es;
  hash_key = c.hash_key;
  world_id = w;
}

abbrev last_filled : String → ℤ → List String → ℤ → RoutingConfigs → Option RoutingRule
last_filled name w es s [] = none
last_filled name w es s ((k, c) ∷ configs) = or_else (last_filled name w es s configs) (
    if applies name w c && ite (ℤ-discrete c.server_type s) true false
    then some (filled_in c w es)
    else none)

-- The rule that the endpoints of a world make for a server type.
abbrev pub rule_for : String → RoutingConfigs → ℤ → List String → ℤ → Option RoutingRule
rule_for name configs w [] s = none
rule_for name configs w (e ∷ es) s =
    if some_applies name w configs
    then last_filled name w (e ∷ es) s configs
    else ite (ℤ-discrete (pos 200) s)
        (some (record {
          server_type = pos 200;
          service_name = name;
          strategy = "round_robin";
          endpoints = e ∷ es;
          hash_key = "";
          world_id = w;
        }))
        none

config_matches-applies :
    (name : String) (w : ℤ) (c : RoutingRule) → config_matches name w c ≡ applies name w c
unfolding config_matches
config_matches-applies name w c = refl

some_matches-some_applies :
    (name : String) (w : ℤ) (configs : RoutingConfigs)
    → some_matches name w configs ≡ some_applies name w configs
unfolding some_matches
some_matches-some_applies name w [] = refl
some_matches-some_applies name w ((k, c) ∷ configs) =
    rw (config_matches-applies name w c, some_matches-some_applies name w configs) refl

last_made-last_filled :
    (name : String) (w : ℤ) (es : List String) (s : ℤ) (configs : RoutingConfigs)
    → last_made name w es s configs ≡ last_filled name w es s configs
last_made-last_filled name w es s [] = refl
last_made-last_filled name w es s ((k, c) ∷ configs) =
    rw (last_made-last_filled name w es s configs, config_matches-applies name w c) refl

merged-rule_for :
    (name : String) (configs : RoutingConfigs) (w : ℤ) (e : String) (es : List String) (s : ℤ)
    → merged_rule name configs w (e ∷ es) s ≡ rule_for name configs w (e ∷ es) s
unfolding default_rule
merged-rule_for name configs w e es s =
    rw (some_matches-some_applies name w configs, last_made-last_filled name w (e ∷ es) s configs)
      refl

offered-rule_for :
    (name : String) (configs : RoutingConfigs) (w : ℤ) (ss : List ServiceEntry) (s : ℤ)
    → offered name configs w (present ss) s ≡ rule_for name configs w (map endpoint_text ss) s
offered-rule_for name configs w [] s = refl
offered-rule_for name configs w (x ∷ ss) s =
    ground arith ∙ merged-rule_for name configs w (endpoint_text x) (map endpoint_text ss) s

world_of-is_numbered :
    (w : ℤ) (o : Option String)
    → is_world w (if same_text (text_or_empty o) "" then none else atoi (codes (text_or_empty o)))
      ≡ is_numbered w o
unfolding atoi codes
world_of-is_numbered w none = refl
world_of-is_numbered w (some t) = elim (Bool-cases (same_text t "")) [
  | inl e ↦ rw e (rw ((eq_iff t "").0 e) refl)
  | inr e ↦ rw e refl
]

selected-endpoints_of :
    (namespace : String) (w : ℤ) (found : List ServiceEntry)
    → map endpoint_text (selected namespace w found) ≡ endpoints_of namespace w found
unfolding in_namespace world_of endpoint_text
selected-endpoints_of namespace w [] = refl
selected-endpoints_of namespace w (x ∷ found) =
    let same : belongs_to namespace w x
        ≡ (lives_in namespace x && is_numbered w (find String-discrete "world_id" x.meta)) =
      ap (λ b. lives_in namespace x && b)
        (world_of-is_numbered w (find String-discrete "world_id" x.meta)) in
    elim (Bool-cases (belongs_to namespace w x)) [
      | inl e ↦ rw (e, sym same ∙ e, selected-endpoints_of namespace w found) refl
      | inr e ↦ rw (e, sym same ∙ e, selected-endpoints_of namespace w found) refl
    ]

-- What is offered to a world is what its servers should get.
pub offered-endpoints_of :
    (name namespace : String) (configs : RoutingConfigs) (w : ℤ) (found : List ServiceEntry) (s : ℤ)
    → offered name configs w (present (selected namespace w found)) s
      ≡ rule_for name configs w (endpoints_of namespace w found) s
offered-endpoints_of name namespace configs w found s =
    offered-rule_for name configs w (selected namespace w found) s
    ∙ ap (λ es. rule_for name configs w es s) (selected-endpoints_of namespace w found)
