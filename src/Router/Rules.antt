-- ===== src/Router/Rules.antt =====
-- Which rule serves a request (internal/router/router.go).
use game_gateway.Prelude.{
  ◌≡◌, refl, ap, ◌∙◌, ite, Option, none, some, List, [], ◌∷◌, arith, find-put, find-remove,
  Bytes-discrete, ℤ-discrete, ℤ, pos, is_pos, pair_text, pair_text-injective, if◌then◌else◌,
}
use game_gateway.Router.{
  RoutingRule, Router, new_router, world_or_zero, make_rule_key, update_rule, remove_rule,
  find_rule, or_else, get_rule,
}

-- Two requests share a key exactly if they agree on the server type and on the world, worlds from
-- 0 down being one.
make_rule_key-injective :
    (s t w v : ℤ)
    → make_rule_key s w ≡ make_rule_key t v
    → (s ≡ t) × (world_or_zero w ≡ world_or_zero v)
unfolding make_rule_key
make_rule_key-injective s t w v e = pair_text-injective s (world_or_zero w) t (world_or_zero v) e

pub data Update : Type 0 where
  updates : RoutingRule → Update
  removes : ℤ → ℤ → Update

unfoldable pub apply : Update → Router → Router
unfolding update_rule remove_rule
apply (updates rule) r = update_rule rule r
apply (removes server_type world_id) r = remove_rule server_type world_id r

unfoldable pub apply_all : List Update → Router → Router
unfolding apply
apply_all [] r = r
apply_all (u ∷ us) r = apply_all us (apply u r)

-- The specification: a table over a server type and a world, 0 for the rules of all worlds.
abbrev pub RuleTable : Type 0
RuleTable = ℤ → ℤ → Option RoutingRule

abbrev pub write : RuleTable → ℤ → ℤ → Option RoutingRule → RuleTable
write t s w o s' w' =
    ite (ℤ-discrete s s') (ite (ℤ-discrete (world_or_zero w) (world_or_zero w')) o (t s' w'))
      (t s' w')

abbrev pub apply_spec : Update → RuleTable → RuleTable
apply_spec (updates rule) t = write t rule.server_type rule.world_id (some rule)
apply_spec (removes server_type world_id) t = write t server_type world_id none

abbrev pub apply_all_spec : List Update → RuleTable → RuleTable
apply_all_spec [] t = t
apply_all_spec (u ∷ us) t = apply_all_spec us (apply_spec u t)

-- A request for a world above 0 is served by that world's rule, or else by the rule of all worlds.
abbrev pub serve : RuleTable → ℤ → ℤ → Option RoutingRule
serve t s w = if is_pos w then or_else (t s w) (t s (pos 0)) else t s (pos 0)

make_rule_key-cong :
    (s t w v : ℤ)
    → s ≡ t
    → world_or_zero w ≡ world_or_zero v
    → make_rule_key s w ≡ make_rule_key t v
unfolding make_rule_key
make_rule_key-cong s t w v e f = ap (λ a. pair_text a (world_or_zero w)) e ∙ ap (pair_text t) f

key_test :
    {A : Type 0} (s s' w w' : ℤ) (a b : A)
    → ite (Bytes-discrete (make_rule_key s w) (make_rule_key s' w')) a b
      ≡ ite (ℤ-discrete s s') (ite (ℤ-discrete (world_or_zero w) (world_or_zero w')) a b) b
key_test s s' w w' a b =
    ground (arith, make_rule_key-injective s s' w w', make_rule_key-cong s s' w w')

apply-find_rule :
    (u : Update) (r : Router) (t : RuleTable)
    → ((s w : ℤ) → find_rule s w r ≡ t s w)
    → (s w : ℤ) → find_rule s w (apply u r) ≡ apply_spec u t s w
unfolding apply
apply-find_rule (updates rule) r t h s w =
    find-put Bytes-discrete (make_rule_key rule.server_type rule.world_id) (make_rule_key s w) rule
      r.rules
    ∙ rw h (key_test rule.server_type s rule.world_id w (some rule) (t s w))
apply-find_rule (removes st wd) r t h s w =
    find-remove Bytes-discrete (make_rule_key st wd) (make_rule_key s w) r.rules
    ∙ rw h (key_test st s wd w none (t s w))

apply_all-find_rule :
    (us : List Update) (r : Router) (t : RuleTable)
    → ((s w : ℤ) → find_rule s w r ≡ t s w)
    → (s w : ℤ) → find_rule s w (apply_all us r) ≡ apply_all_spec us t s w
unfolding apply_all
apply_all-find_rule [] r t h s w = h s w
apply_all-find_rule (u ∷ us) r t h s w =
    apply_all-find_rule us (apply u r) (apply_spec u t) (apply-find_rule u r t h) s w

-- After any sequence of updates and removals of a new router, the rule that serves a request is
-- that of the table in which each update writes, and each removal clears, the one place of its
-- server type and world: the request's own world if it is above 0 and has a rule, else world 0.
pub get_rule-apply_all :
    (us : List Update) (s w : ℤ)
    → get_rule s w (apply_all us new_router) ≡ serve (apply_all_spec us (λ a b. none)) s w
unfolding get_rule new_router
get_rule-apply_all us s w =
    let h = apply_all-find_rule us new_router (λ a b. none) (λ a b. refl) in
    rw (h s w, h s (pos 0)) refl

-- What an update leaves to be found: its rule at its own place, the rest as it was.
pub find_rule-update_rule :
    (rule : RoutingRule) (r : Router) (s w : ℤ)
    → find_rule s w (update_rule rule r)
      ≡ write (λ a b. find_rule a b r) rule.server_type rule.world_id (some rule) s w
unfolding apply
find_rule-update_rule rule r s w =
    apply-find_rule (updates rule) r (λ a b. find_rule a b r) (λ a b. refl) s w
