-- ===== src/Pool/Exclusive.antt =====
-- `Get` hands a connection to one caller (internal/pool/pool.go).
use game_gateway.Prelude.{
  ℕ, ◌≡◌, refl, inl, inr, Bool, true, false, List, [], ◌∷◌, arith, Bool-cases, member, delete,
}
use game_gateway.Pool.{Pool, is_expired, close_conn, on_conn, got, open_new, get, reuse, receive}
use game_gateway.Pool.Invariant.{Inv, received-Inv}

open_new-got :
    (now h : ℕ) (dialled : Bool) (p : Pool)
    → (open_new now dialled p).0 ≡ got h
    → (h ≡ p.next)
      × (member h (open_new now dialled p).1.active_conns ≡ true)
      × (((open_new now dialled p).1.conns h).in_use ≡ true)
      × (((open_new now dialled p).1.conns h).is_open ≡ true)
unfolding open_new
open_new-got now h dialled p e = ground arith

receive-got :
    (now h : ℕ) (dialled : Bool) (p : Pool) (idle : List ℕ)
    → p.idle_conns ≡ idle
    → Inv p
    → (receive now dialled idle p).0 ≡ got h
    → (member h p.active_conns ≡ false)
      × (member h (receive now dialled idle p).1.active_conns ≡ true)
      × (((receive now dialled idle p).1.conns h).in_use ≡ true)
unfolding receive
receive-got now h dialled p [] e v g =
    let (a, b, c, d) = open_new-got now h dialled p g in (ground (arith, a, v.fresh h), b, c)
receive-got now h dialled p (x ∷ rest) e v g =
    let (v', r, a, i, b) = received-Inv p x rest e v in
    let q =
      on_conn x close_conn
        (record p { idle_conns = rest; active_conns = delete x p.active_conns }) in
    elim (Bool-cases (is_expired p.idle_timeout now (p.conns x))) [
      | inl old ↦
          let (c, m, u, o) = open_new-got now h dialled q (ground (arith, old, g)) in
          rw (old, reuse) (ground (arith, c, v.fresh h), m, u)
      | inr young ↦
          let same : x ≡ h = ground (arith, young, g) in
          rw (young, reuse) (ground (arith, same, a), ground (arith, same, a), ground (arith, same))
    ]

-- In a pool that keeps the invariant `Get` gives no connection to two callers: the one that it
-- returns was not active before, and is active and marked in use afterwards.
pub get_exclusive :
    (now h : ℕ) (dialled : Bool) (p : Pool)
    → Inv p
    → (get now dialled p).0 ≡ got h
    → (member h p.active_conns ≡ false)
      × (member h (get now dialled p).1.active_conns ≡ true)
      × (((get now dialled p).1.conns h).in_use ≡ true)
unfolding get
get_exclusive now h dialled p v g = receive-got now h dialled p p.idle_conns refl v g
