-- ===== src/Pool/Active.antt =====
-- How a call changes the number of connections of an address that are in use (internal/pool).
use game_gateway.Prelude.{
  ℕ, ◌+◌, ◌-◌, ◌≡◌, refl, ap, ◌∙◌, inl, inr, ite, Bool, List, [], ◌∷◌, arith, find, find-put,
  String, String-discrete, Bool-cases, Option-cases, delete,
}
use game_gateway.Pool.{
  Pool, is_expired, close_conn, on_conn, Got, got, open_new, get, put_back, reuse, receive,
}
use game_gateway.Pool.Invariant.{gets, puts, step}
use game_gateway.Pool.Manager.{
  Manager, pool_at, get_connection, put_connection, close_connection, call, get_pool-pool_at,
  call-pool_at,
}

abbrev pub is_got : Got → ℕ
is_got (got h) = 1
is_got _ = 0

open_new-active :
    (now : ℕ) (dialled : Bool) (p : Pool)
    → (open_new now dialled p).1.active_count ≡ p.active_count + is_got (open_new now dialled p).0
unfolding open_new
open_new-active now dialled p = ground arith

receive-active :
    (now : ℕ) (dialled : Bool) (idle : List ℕ) (p : Pool)
    → (receive now dialled idle p).1.active_count
      ≡ p.active_count + is_got (receive now dialled idle p).0
unfolding receive
receive-active now dialled [] p = open_new-active now dialled p
receive-active now dialled (h ∷ rest) p =
    elim (Bool-cases (is_expired p.idle_timeout now (p.conns h))) [
      | inl e ↦
          rw (e, reuse)
            (open_new-active now dialled (
              on_conn h close_conn
                (record p { idle_conns = rest; active_conns = delete h p.active_conns })))
      | inr e ↦ rw (e, reuse) refl
    ]

get-active :
    (now : ℕ) (dialled : Bool) (p : Pool)
    → (get now dialled p).1.active_count ≡ p.active_count + is_got (get now dialled p).0
unfolding get
get-active now dialled p = receive-active now dialled p.idle_conns p

get_connection-got :
    (now : ℕ) (dialled : Bool) (a : String) (m : Manager)
    → (get_connection now dialled a m).0 ≡ (get now dialled (pool_at a m)).0
unfolding get_connection
get_connection-got now dialled a m = ap (λ p. (get now dialled p).0) (get_pool-pool_at a a m).0

-- A connection that is handed out is one more in use for its address.
pub get_connection-active :
    (now : ℕ) (dialled : Bool) (a j : String) (m : Manager)
    → (pool_at j (get_connection now dialled a m).1).active_count
      ≡ (pool_at j m).active_count
        + ite (String-discrete a j) (is_got (get_connection now dialled a m).0) 0
unfolding call step
get_connection-active now dialled a j m =
    ap (λ p. p.active_count) (call-pool_at j a (gets now dialled) m)
    ∙ rw (get_connection-got now dialled a m) (ground (arith, get-active now dialled (pool_at a m)))

put_back-active : (now h : ℕ) (p : Pool) → (put_back now h p).active_count ≡ p.active_count - 1
unfolding put_back
put_back-active now h p = ground arith

-- A connection that is put back is one less in use for its address.
pub put_connection-active :
    (now h : ℕ) (a j : String) (m : Manager)
    → (pool_at j (put_connection now a h m)).active_count
      ≡ (pool_at j m).active_count - ite (String-discrete a j) 1 0
unfolding call step
put_connection-active now h a j m =
    ap (λ p. p.active_count) (call-pool_at j a (puts now h) m)
    ∙ ground (
      arith,
      put_back-active now h (pool_at a m),
      ap (λ b. (pool_at b m).active_count) {x = a} {y = j},
    )

pub close_connection-active :
    (h : ℕ) (a j : String) (m : Manager)
    → (pool_at j (close_connection a h m)).active_count ≡ (pool_at j m).active_count
close_connection-active h a j m = elim (Option-cases (find String-discrete a m.pools)) [
  | inl e ↦ rw (close_connection, e) refl
  | inr (p, e) ↦
      rw (close_connection, e)
        (ground (
          arith,
          e,
          find-put String-discrete a j (on_conn h close_conn p) m.pools,
          ap (λ b. find String-discrete b m.pools) {x = a} {y = j},
        ))
]
