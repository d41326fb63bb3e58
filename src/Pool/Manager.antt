-- ===== src/Pool/Manager.antt =====
-- internal/pool/manager.go: a pool for each backend address. A pool is shared through its pointer,
-- so a call on the one that `GetPool` returns is a write to the table.
use game_gateway.Prelude.{
  ℕ, ◌+◌, ◌≡◌, refl, ◌∙◌, ite, Bool, Option, none, some, List, [], ◌∷◌, map, arith, find, put,
  find-put, String, String-discrete,
}
use game_gateway.Pool.{
  Pool, new_pool, close_conn, on_conn, Got, get, put_back, remove_conn, cleanup, close_pool,
}
use game_gateway.Pool.Invariant.{Call, gets, puts, drops, step, run}

pub record Manager : Type 0 where
  pub idle_timeout : ℕ
  pub max_per_service : ℕ
  pub pools : List (String × Pool)

unfoldable pub new_manager : ℕ → ℕ → Manager
new_manager idle_timeout max_per_service = record {
  idle_timeout = idle_timeout;
  max_per_service = max_per_service;
  pools = [];
}

abbrev pub pool_or_new : Manager → Option Pool → Pool
pool_or_new m none = new_pool m.idle_timeout m.max_per_service
pool_or_new m (some p) = p

-- The pool of an address, a new one if there is none.
abbrev pub pool_at : String → Manager → Pool
pool_at address m = pool_or_new m (find String-discrete address m.pools)

abbrev pub set_pool : String → Pool → Manager → Manager
set_pool address p m = record m { pools = put String-discrete address p m.pools }

unfoldable pub get_pool : String → Manager → Pool × Manager
get_pool address m = elim (find String-discrete address m.pools) [
  | some p ↦ (p, m)
  | none ↦
      let p = new_pool m.idle_timeout m.max_per_service in
      (p, record m { pools = put String-discrete address p m.pools })
]

unfoldable pub get_connection : ℕ → Bool → String → Manager → Got × Manager
unfolding get_pool
get_connection now dialled address m =
    let (p, m') = get_pool address m in
    let (g, p') = get now dialled p in (g, set_pool address p' m')

unfoldable pub put_connection : ℕ → String → ℕ → Manager → Manager
unfolding get_pool
put_connection now address h m =
    let (p, m') = get_pool address m in set_pool address (put_back now h p) m'

unfoldable pub remove_connection : String → ℕ → Manager → Manager
unfolding get_pool
remove_connection address h m =
    let (p, m') = get_pool address m in set_pool address (remove_conn h p) m'

-- `Close` of a connection, which the pool of its address goes on holding.
abbrev pub close_connection : String → ℕ → Manager → Manager
close_connection address h m = elim (find String-discrete address m.pools) [
  | some p ↦ set_pool address (on_conn h close_conn p) m
  | none ↦ m
]

-- The calls on the manager, each for an address.
unfoldable pub call : Manager → String × Call → Manager
unfolding get_connection put_connection remove_connection
call m (address, gets now dialled) = (get_connection now dialled address m).1
call m (address, puts now h) = put_connection now address h m
call m (address, drops now h) = remove_connection address h m

unfoldable pub call_all : Manager → List (String × Call) → Manager
unfolding call
call_all m [] = m
call_all m (c ∷ cs) = call_all (call m c) cs

-- `Cleanup` over the pools in turn: `none` if one of them does not return on its fuel.
cleanup_pools : ℕ → (ℕ → ℕ) → List (String × Pool) → Option (List (String × Pool) × ℕ)
cleanup_pools fuel clock [] = some ([], 0)
cleanup_pools fuel clock ((address, p) ∷ rest) = elim (cleanup fuel clock p) [
  | none ↦ none
  | some (q, n) ↦ elim (cleanup_pools fuel clock rest) [
    | none ↦ none
    | some (qs, total) ↦ some ((address, q) ∷ qs, n + total)
  ]
]

unfoldable pub cleanup_all : ℕ → (ℕ → ℕ) → Manager → Option (Manager × ℕ)
unfolding cleanup_pools
cleanup_all fuel clock m = elim (cleanup_pools fuel clock m.pools) [
  | none ↦ none
  | some (ps, total) ↦ some (record m { pools = ps }, total)
]

-- `Close` closes every pool and deletes it; closing a pool cannot fail.
unfoldable pub close_manager : Manager → List Pool × Manager
close_manager m = (map (λ e. close_pool e.1) m.pools, record m { pools = [] })

call-limits :
    (m : Manager) (c : String × Call)
    → ((call m c).idle_timeout ≡ m.idle_timeout) × ((call m c).max_per_service ≡ m.max_per_service)
unfolding call
call-limits m (address, gets now dialled) = ground arith
call-limits m (address, puts now h) = ground arith
call-limits m (address, drops now h) = ground arith

-- The calls for one address, in order.
abbrev pub calls_for : String → List (String × Call) → List Call
calls_for address [] = []
calls_for address ((a, c) ∷ cs) =
    ite (String-discrete a address) (c ∷ calls_for address cs) (calls_for address cs)

set-pool_at :
    (address a : String) (p : Pool) (m : Manager)
    → pool_at address (set_pool a p m) ≡ ite (String-discrete a address) p (pool_at address m)
set-pool_at address a p m = ground (arith, find-put String-discrete a address p m.pools)

pub get_pool-pool_at :
    (address a : String) (m : Manager)
    → ((get_pool a m).0 ≡ pool_at a m) × (pool_at address (get_pool a m).1 ≡ pool_at address m)
unfolding get_pool
get_pool-pool_at address a m =
    ground (
      arith,
      find-put String-discrete a address (new_pool m.idle_timeout m.max_per_service) m.pools,
    )

pub call-pool_at :
    (address a : String) (c : Call) (m : Manager)
    → pool_at address (call m (a, c))
      ≡ ite (String-discrete a address) (step (pool_at a m) c) (pool_at address m)
unfolding call step
call-pool_at address a (gets now dialled) m =
    let (g, k) = get_pool-pool_at address a m in
    set-pool_at address a (get now dialled (get_pool a m).0).1 (get_pool a m).1 ∙ rw (g, k) refl
call-pool_at address a (puts now h) m =
    let (g, k) = get_pool-pool_at address a m in
    set-pool_at address a (put_back now h (get_pool a m).0) (get_pool a m).1 ∙ rw (g, k) refl
call-pool_at address a (drops now h) m =
    let (g, k) = get_pool-pool_at address a m in
    set-pool_at address a (remove_conn h (get_pool a m).0) (get_pool a m).1 ∙ rw (g, k) refl

-- However calls for different addresses interleave, the pool of each address is the one that its
-- own calls alone lead to.
pub pool_at-call_all :
    (address : String) (cs : List (String × Call)) (m : Manager)
    → pool_at address (call_all m cs) ≡ run (pool_at address m) (calls_for address cs)
unfolding call_all run
pool_at-call_all address [] m = refl
pool_at-call_all address ((a, c) ∷ cs) m =
    ground (arith, pool_at-call_all address cs (call m (a, c)), call-pool_at address a c m)
