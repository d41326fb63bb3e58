-- ===== src/Gateway/Stages.antt =====
-- The start and the end of a connection keep the accounts (internal/gateway/gateway.go,
-- handleConnection, handleTCPConnection).
use game_gateway.Session.Table.{removes, apply, Valid, get-remove, apply-Valid}
use game_gateway.Gateway.Lifecycle.{Live, System, established, start_live, close_if, stop_live}
use game_gateway.Gateway.Bringing.{Brought, establish-Brought}
use game_gateway.Prelude.{
  ℕ, ◌≡◌, refl, sym, ◌∙◌, subst, ite, Option, none, some, List, arith, ℕ_discrete, find, put,
  find-put, put-Unique, String, ℤ-discrete, ℤ, pos,
}
use game_gateway.Session
use game_gateway.Gateway.Establish.{
  Failure, Serving, Arrival, fails_with, serves, Env, put_if, establish,
}
use game_gateway.Gateway.Resources.{in_use, put_if-in_use}
use game_gateway.Pool.Active.{close_connection-active}
use game_gateway.Gateway.Totals.{total, total-remove, total-put}
use game_gateway.Gateway.Accounting.{
  rate_of, ip_of, conn_of, id_of, Accounted, Counted-cong, gone-Accounted,
}
use game_gateway.Gateway.{Core, Admitted}

-- A live connection that gets its session.
serving-Accounted :
    (c : ℕ) (a : Admitted) (v : Serving) (k : Core) (s : System)
    → find ℕ_discrete c s.live ≡ some (record { admitted = a; serving = none })
    → Accounted s
    → ((j : String) (id : ℤ) → Brought j id s.gateway.core (serves v, k))
    → Accounted (established c (record { admitted = a; serving = none }) (some (serves v, k)) s)
serving-Accounted c a v k s e h b =
    let old : Live = record { admitted = a; serving = none } in
    let new : Live = record { admitted = a; serving = some v } in
    record {
      counted =
          Counted-cong (λ n. total (rate_of n) s.live)
            (λ n. total (rate_of n) (put ℕ_discrete c new s.live)) (λ j n. total (ip_of j n) s.live)
            (λ j n. total (ip_of j n) (put ℕ_discrete c new s.live)) s.gateway.limits
            (λ n. omega (arith, total-put (rate_of n) c old new s.live e))
            (λ j n. omega (arith, total-put (ip_of j n) c old new s.live e)) h.counted;
      conns = λ j.
          omega
            (arith, h.conns j, (b j v.session_id).more, total-put (conn_of j) c old new s.live e);
      absent = λ id z.
          let counts = total-put (id_of id) c old new s.live e in
          (b v.backend id).absent h.valid (h.absent id (omega (arith, counts, z)))
            (omega (arith, counts, z));
      valid = (b v.backend v.session_id).valid h.valid;
      unique = put-Unique ℕ_discrete c new s.live h.unique;
      fresh = λ d m. ground (arith, find-put ℕ_discrete c d new s.live, h.fresh d m, h.fresh c, e);
    }

failing-Accounted :
    (c : ℕ) (a : Admitted) (f : Failure) (k : Core) (s : System)
    → find ℕ_discrete c s.live ≡ some (record { admitted = a; serving = none })
    → Accounted s
    → ((j : String) (id : ℤ) → Brought j id s.gateway.core (fails_with f, k))
    → Accounted (established c (record { admitted = a; serving = none }) (some (fails_with f, k)) s)
failing-Accounted c a f k s e h b =
    let old : Live = record { admitted = a; serving = none } in
    gone-Accounted c old k s e h ((b "" (pos 0)).valid h.valid)
      (λ j. omega (arith, (b j (pos 0)).more))
      (λ id z.
        (b "" id).absent h.valid
          (h.absent id (omega (arith, z, total-remove (id_of id) c old s.live h.unique e))) refl)

pub start_live-Accounted :
    (env : Env) (c : ℕ) (bytes : List ℕ) (o : Option Live) (s : System)
    → find ℕ_discrete c s.live ≡ o
    → Accounted s
    → Accounted (start_live env c bytes o s)
start_live-Accounted env c bytes none s e h = h
start_live-Accounted env c bytes (some l) s e h = by_serving l.admitted l.serving e
  where
    result : Option (Arrival × Core)
    result = establish s.gateway.config env c bytes s.gateway.core

    by_result :
        (a : Admitted) (r : Option (Arrival × Core))
        → find ℕ_discrete c s.live ≡ some (record { admitted = a; serving = none })
        → result ≡ r
        → Accounted (established c (record { admitted = a; serving = none }) r s)
    by_result a none e q = h
    by_result a (some (fails_with f, k)) e q = failing-Accounted c a f k s e h (λ j id.
        establish-Brought s.gateway.config env c bytes j id s.gateway.core (fails_with f, k) q)
    by_result a (some (serves v, k)) e q =
        serving-Accounted c a v k s e h (λ j id.
          establish-Brought s.gateway.config env c bytes j id s.gateway.core (serves v, k) q)

    by_serving :
        (a : Admitted) (o : Option Serving)
        → find ℕ_discrete c s.live ≡ some (record { admitted = a; serving = o })
        → Accounted (start_live env c bytes (some (record { admitted = a; serving = o })) s)
    by_serving a none e = by_result a result e refl
    by_serving a (some v) e = h

pub remove_session-Valid :
    (id : ℤ) (m : Session.Manager) → Valid m → Valid (Session.remove_session id m)
unfolding apply
remove_session-Valid id m v = apply-Valid (removes id) m v

pub remove_session-get :
    (id j : ℤ) (m : Session.Manager)
    → Valid m
    → Session.get j (Session.remove_session id m) ≡ ite (ℤ-discrete id j) none (Session.get j m)
unfolding Session.remove_session
remove_session-get id j m v = get-remove m id j v.sixteen

-- Closing a connection leaves all accounts.
close_if-same :
    (a j : String) (o : Option ℕ) (k : Core)
    → (in_use j (close_if a o k) ≡ in_use j k) × ((close_if a o k).sessions ≡ k.sessions)
close_if-same a j none k = (refl, refl)
close_if-same a j (some h) k = (close_connection-active h a j k.pools, refl)

pub stop_live-Accounted :
    (now c : ℕ) (o : Option Live) (s : System)
    → find ℕ_discrete c s.live ≡ o
    → Accounted s
    → Accounted (stop_live now c o s)
stop_live-Accounted now c none s e h = h
stop_live-Accounted now c (some l) s e h = by_serving l.admitted l.serving e
  where
    k : Core
    k = s.gateway.core

    by_serving :
        (a : Admitted) (o : Option Serving)
        → find ℕ_discrete c s.live ≡ some (record { admitted = a; serving = o })
        → Accounted (stop_live now c (some (record { admitted = a; serving = o })) s)
    by_serving a none e =
        let l : Live = record { admitted = a; serving = none } in
        gone-Accounted c l k s e h h.valid (λ j. omega arith)
          (λ id z. h.absent id (omega (arith, z, total-remove (id_of id) c l s.live h.unique e)))
    by_serving a (some v) e =
        let l : Live = record { admitted = a; serving = some v } in
        let dropped : Core = record k {
          sessions = Session.remove_session v.session_id k.sessions;
        } in
        let k' : Core = close_if v.backend v.conn dropped in
        let shut = λ (j : String). close_if-same v.backend j v.conn dropped in
        let back = λ (j : String). put_if-in_use now v.backend j v.conn k' in
        gone-Accounted c l (put_if now v.backend v.conn k') s e h
          (subst Valid (sym ((back "").1 ∙ (shut "").1))
            (remove_session-Valid v.session_id k.sessions h.valid))
          (λ j. omega (
            arith,
            (back j).0,
            (shut j).0,
            h.conns j,
            total-remove (conn_of j) c l s.live h.unique e,
          ))
          (λ id z. rw ((back "").1 ∙ (shut "").1) (
            remove_session-get v.session_id id k.sessions h.valid
            ∙ ground (arith, h.absent id, z, total-remove (id_of id) c l s.live h.unique e)))
