-- ===== src/Session/Table.antt =====
-- The sharded table is one map from session IDs (internal/session/session.go).
use game_gateway.Prelude.{
  ℕ, ◌<◌, ◌≡◌, refl, sym, ap, ◌∙◌, inl, inr, ite, if_pos, if_neg, Option, none, some, List, [], ◌∷◌,
  arith, ℕ_discrete, find, put, remove, find-put, find-remove, Unique, put-Unique, remove-Unique,
  ℤ-discrete, ℤ, pos, negsuc, Option-cases, length, get_or, set, length-set, All, get_or-set_self,
  get_or-set_ne, All-set, All-get_or, get_or-replicate,
}
use game_gateway.Session.{
  Session, Shard, Manager, new_manager, shard_index, get_shard, set_shard, add, get, remove_session,
  update_last_active,
}

pub shard_index-lt : (k : ℤ) → shard_index k < 16
unfolding shard_index
shard_index-lt (pos n) = omega arith
shard_index-lt (negsuc n) = omega arith

get_shard-cong :
    (m : Manager) (k j : ℤ) → shard_index k ≡ shard_index j → get_shard m k ≡ get_shard m j
unfolding get_shard
get_shard-cong m k j e = ap (λ i. get_or m.shards i []) e

get-set_shard :
    (m : Manager) (k j : ℤ) (shard : Shard)
    → length m.shards ≡ 16
    → get j (set_shard m k shard)
      ≡ ite (ℕ_discrete (shard_index k) (shard_index j)) (find ℤ-discrete j shard) (get j m)
unfolding get set_shard get_shard
get-set_shard m k j shard h = elim (ℕ_discrete (shard_index k) (shard_index j)) [
  | yes e ↦ rw (if_pos _ e) (
      ap (find ℤ-discrete j) (
        ap (λ i. get_or (set m.shards (shard_index k) shard) i []) (sym e)
        ∙ get_or-set_self m.shards (shard_index k) shard [] (omega (arith, shard_index-lt k))))
  | no n ↦
      rw (if_neg _ n)
        (ap (find ℤ-discrete j) (get_or-set_ne m.shards (shard_index k) (shard_index j) shard [] n))
]

-- The calls that change the table.
pub data Update : Type 0 where
  adds : Session → Update
  removes : ℤ → Update
  touches : ℤ → ℕ → Update

unfoldable pub apply : Update → Manager → Manager
unfolding add remove_session update_last_active
apply (adds s) m = add s m
apply (removes k) m = remove_session k m
apply (touches k now) m = update_last_active k now m

unfoldable pub apply_all : List Update → Manager → Manager
unfolding apply
apply_all [] m = m
apply_all (u ∷ us) m = apply_all us (apply u m)

-- The specification: a function from IDs.
abbrev pub SessionMap : Type 0
SessionMap = ℤ → Option Session

abbrev pub touch : ℕ → Option Session → Option Session
touch now none = none
touch now (some s) = some (record s { last_active_at = now })

abbrev pub apply_spec : Update → SessionMap → SessionMap
apply_spec (adds s) t j = ite (ℤ-discrete s.session_id j) (some s) (t j)
apply_spec (removes k) t j = ite (ℤ-discrete k j) none (t j)
apply_spec (touches k now) t j = ite (ℤ-discrete k j) (touch now (t j)) (t j)

abbrev pub apply_all_spec : List Update → SessionMap → SessionMap
apply_all_spec [] t = t
apply_all_spec (u ∷ us) t = apply_all_spec us (apply_spec u t)

-- Sixteen shards, none of which has two entries for an ID.
pub record Valid (m : Manager) : Type 0 where
  pub sixteen : length m.shards ≡ 16
  pub unique : All (Unique ℤ-discrete) m.shards

get_shard-find :
    (m : Manager) (k j : ℤ)
    → shard_index k ≡ shard_index j
    → find ℤ-discrete j (get_shard m k) ≡ get j m
unfolding get
get_shard-find m k j e = ap (find ℤ-discrete j) (get_shard-cong m k j e)

pub get-put :
    (m : Manager) (k j : ℤ) (s : Session)
    → length m.shards ≡ 16
    → get j (set_shard m k (put ℤ-discrete k s (get_shard m k)))
      ≡ ite (ℤ-discrete k j) (some s) (get j m)
get-put m k j s h = ground (
  arith,
  get-set_shard m k j (put ℤ-discrete k s (get_shard m k)) h,
  find-put ℤ-discrete k j s (get_shard m k),
  get_shard-find m k j,
  ap shard_index {x = k} {y = j},
)

pub get-remove :
    (m : Manager) (k j : ℤ)
    → length m.shards ≡ 16
    → get j (set_shard m k (remove ℤ-discrete k (get_shard m k)))
      ≡ ite (ℤ-discrete k j) none (get j m)
get-remove m k j h = ground (
  arith,
  get-set_shard m k j (remove ℤ-discrete k (get_shard m k)) h,
  find-remove ℤ-discrete k j (get_shard m k),
  get_shard-find m k j,
)

get-apply :
    (u : Update) (m : Manager) (j : ℤ)
    → length m.shards ≡ 16
    → get j (apply u m) ≡ apply_spec u (λ k. get k m) j
unfolding apply
get-apply (adds s) m j h = get-put m s.session_id j s h
get-apply (removes k) m j h = get-remove m k j h
get-apply (touches k now) m j h = elim (Option-cases (get k m)) [
  | inl e ↦ rw (e, update_last_active) (ground (arith, ap (λ i. get i m) {x = k} {y = j}))
  | inr (s, e) ↦
      rw (e, update_last_active)
        (ground (
          arith,
          get-put m k j (record s { last_active_at = now }) h,
          ap (λ i. get i m) {x = k} {y = j},
        ))
]

set_shard-Valid :
    (m : Manager) (k : ℤ) (shard : Shard)
    → Unique ℤ-discrete shard
    → Valid m
    → Valid (set_shard m k shard)
unfolding set_shard
set_shard-Valid m k shard u v = record {
  sixteen = length-set m.shards (shard_index k) shard ∙ v.sixteen;
  unique = All-set (Unique ℤ-discrete) m.shards (shard_index k) shard v.unique u;
}

pub get_shard-Unique : (m : Manager) (k : ℤ) → Valid m → Unique ℤ-discrete (get_shard m k)
unfolding get_shard
get_shard-Unique m k v = All-get_or (Unique ℤ-discrete) m.shards (shard_index k) [] v.unique tt

pub apply-Valid : (u : Update) (m : Manager) → Valid m → Valid (apply u m)
unfolding apply
apply-Valid (adds s) m v =
    set_shard-Valid m s.session_id _
      (put-Unique ℤ-discrete s.session_id s (get_shard m s.session_id)
        (get_shard-Unique m s.session_id v))
      v
apply-Valid (removes k) m v =
    set_shard-Valid m k _ (remove-Unique ℤ-discrete k (get_shard m k) (get_shard-Unique m k v)) v
apply-Valid (touches k now) m v = elim (Option-cases (get k m)) [
  | inl e ↦ rw (e, update_last_active) v
  | inr (s, e) ↦
      rw (e, update_last_active)
        (set_shard-Valid m k _
          (put-Unique ℤ-discrete k (record s { last_active_at = now }) (get_shard m k)
            (get_shard-Unique m k v))
          v)
]

apply_all-Valid : (us : List Update) (m : Manager) → Valid m → Valid (apply_all us m)
unfolding apply_all
apply_all-Valid [] m v = v
apply_all-Valid (u ∷ us) m v = apply_all-Valid us (apply u m) (apply-Valid u m v)

-- A new manager is well formed, and every history of calls keeps it so.
pub run-Valid : (us : List Update) → Valid (apply_all us new_manager)
unfolding new_manager
run-Valid us = apply_all-Valid us new_manager (record { sixteen = refl; unique = omega arith })

apply_spec-cong :
    (u : Update) (t t' : SessionMap) (j : ℤ)
    → ((k : ℤ) → t k ≡ t' k)
    → apply_spec u t j ≡ apply_spec u t' j
apply_spec-cong (adds s) t t' j h = rw (h j) refl
apply_spec-cong (removes k) t t' j h = rw (h j) refl
apply_spec-cong (touches k now) t t' j h = rw (h j) refl

apply_all-get :
    (us : List Update) (m : Manager) (t : SessionMap) (j : ℤ)
    → Valid m
    → ((k : ℤ) → get k m ≡ t k)
    → get j (apply_all us m) ≡ apply_all_spec us t j
unfolding apply_all
apply_all-get [] m t j v h = h j
apply_all-get (u ∷ us) m t j v h =
    apply_all-get us (apply u m) (apply_spec u t) j (apply-Valid u m v)
      λ k. get-apply u m k v.sixteen ∙ apply_spec-cong u (λ i. get i m) t k h

pub new-get : (k : ℤ) → get k new_manager ≡ none
unfolding get get_shard new_manager
new-get k = ap (find ℤ-discrete k) (get_or-replicate 16 (shard_index k) [])

-- The sixteen shards refine one map: after any sequence of additions, removals and activity
-- updates of a new manager, a lookup of any ID, negative ones included, finds what the same
-- sequence leaves in a function from IDs to sessions.
pub get-apply_all :
    (us : List Update) (j : ℤ) → get j (apply_all us new_manager) ≡ apply_all_spec us (λ k. none) j
unfolding new_manager apply_all
get-apply_all us j = apply_all-get us new_manager (λ k. none) j (run-Valid []) new-get
