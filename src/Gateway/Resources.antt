-- ===== src/Gateway/Resources.antt =====
-- What the way to a backend takes and gives back (internal/gateway/gateway.go, handleTCPConnection).
use game_gateway.Prelude.{
  ℕ, zero, suc, ◌+◌, ◌-◌, ◌≡◌, refl, ◌∙◌, inl, inr, ite, Bool, true, false, ◌||◌, Option, none,
  some, arith, String, String-discrete, ℤ-discrete, ℤ, if◌then◌else◌, Bool-cases,
}
use game_gateway.Pool
use game_gateway.Breaker
use game_gateway.Retry.{is_zero}
use game_gateway.Pool.Manager.{pool_at, get_connection}
use game_gateway.Pool.{Pool, Got, got, pool_full, dial_failed}
use game_gateway.Pool.Active.{is_got, get_connection-active, put_connection-active}
use game_gateway.Gateway.{Core}
use game_gateway.Gateway.Establish.{
  Serving, Arrival, fails_with, serves, Env, with_call, with_pools, after_get, get_backend, put_if,
}

-- The connections of an address that are in use.
abbrev pub in_use : String → Core → ℕ
in_use j k = (pool_at j k.pools).active_count

abbrev pub is_some {ℓ} : {A : Type ℓ} → Option A → ℕ
is_some none = 0
is_some (some a) = 1

abbrev pub at_address : String → String → ℕ → ℕ
at_address a j n = ite (String-discrete a j) n 0

-- What a session holds of an address, and whether it has a number.
abbrev pub holds : String → Serving → ℕ
holds j v = at_address v.backend j (is_some v.conn)

abbrev pub has_id : ℤ → Serving → ℕ
has_id id v = ite (ℤ-discrete v.session_id id) 1 0

abbrev pub arrival_holds : String → Arrival → ℕ
arrival_holds j (fails_with f) = 0
arrival_holds j (serves v) = holds j v

abbrev pub arrival_id : ℤ → Arrival → ℕ
arrival_id id (fails_with f) = 0
arrival_id id (serves v) = has_id id v

-- Only the pools change here, by `n` connections of an address.
pub record Took (j : String) (n : ℕ) (k k' : Core) : Type 0 where
  pub more : in_use j k' ≡ in_use j k + n
  pub sessions : k'.sessions ≡ k.sessions

retry-Took :
    (b : Bool) (a j : String) (k k' : Core) (next : Core → Option ℕ × Core)
    → Took j 0 k k'
    → Took j (at_address a j (is_some (next k').0)) k' (next k').1
    → Took j
        (at_address a j (is_some (if b then (none, k') else next k').0))
        k
        (if b then (none, k') else next k').1
retry-Took true a j k k' next s t = record { more = ground (arith, s.more); sessions = s.sessions }
retry-Took false a j k k' next s t = record {
  more = ground (arith, s.more, t.more);
  sessions = t.sessions ∙ s.sessions;
}

after_get-Took :
    (env : Env) (n i : ℕ) (a j : String) (r : Got × Pool.Manager.Manager) (k : Core)
    (next : Core → Option ℕ × Core)
    → (pool_at j r.1).active_count ≡ in_use j k + at_address a j (is_got r.0)
    → ((l : Core) → Took j (at_address a j (is_some (next l).0)) l (next l).1)
    → Took j
        (at_address a j (is_some (after_get env n i a r k next).0))
        k
        (after_get env n i a r k next).1
after_get-Took env n i a j (got h, m) k next e t = record { more = e; sessions = refl }
after_get-Took env n i a j (pool_full, m) k next e t =
    let k' = with_call a (Breaker.fails (env.dial_times i)) (with_pools m k) in
    retry-Took (is_zero n || env.cancelled_waiting i) a j k k' next
      (record { more = ground (arith, e); sessions = refl }) (t k')
after_get-Took env n i a j (dial_failed, m) k next e t =
    let k' = with_call a (Breaker.fails (env.dial_times i)) (with_pools m k) in
    retry-Took (is_zero n || env.cancelled_waiting i) a j k k' next
      (record { more = ground (arith, e); sessions = refl }) (t k')

pub get_backend-Took :
    (env : Env) (n i : ℕ) (a j : String) (k : Core)
    → Took j (at_address a j (is_some (get_backend env n i a k).0)) k (get_backend env n i a k).1
unfolding get_backend
get_backend-Took env zero i a j k = record { more = ground arith; sessions = refl }
get_backend-Took env (suc n) i a j k = elim (Bool-cases (env.cancelled_before i)) [
  | inl e ↦ rw e (record { more = ground arith; sessions = refl })
  | inr e ↦ rw e (
      after_get-Took env n i a j (get_connection (env.dial_times i) (env.dialled i) a k.pools) k
        (get_backend env n (suc i) a)
        (get_connection-active (env.dial_times i) (env.dialled i) a j k.pools)
        (λ l. get_backend-Took env n (suc i) a j l))
]

pub put_if-in_use :
    (now : ℕ) (a j : String) (o : Option ℕ) (k : Core)
    → (in_use j (put_if now a o k) ≡ in_use j k - at_address a j (is_some o))
      × ((put_if now a o k).sessions ≡ k.sessions)
unfolding put_if
put_if-in_use now a j none k = (ground arith, refl)
put_if-in_use now a j (some h) k = (put_connection-active now h a j k.pools, refl)
