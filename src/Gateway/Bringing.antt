-- ===== src/Gateway/Bringing.antt =====
-- What a connection has brought about when it gets to its session or fails
-- (internal/gateway/gateway.go, handleTCPConnection).
use game_gateway.Prelude.{
  ℕ, ◌+◌, ◌≡◌, refl, ap, ◌∙◌, subst, ite, Bool, true, false, Option, none, some, some-injective,
  List, arith, String, ℤ-discrete, ℤ, pos, if◌then◌else◌,
}
use game_gateway.Packet.{ServerIdInfo, extract_server_id_info, Packet, read_full_packet}
use game_gateway.Router.{
  Router, Route, endpoint, no_rule, no_endpoints, unknown_strategy, panics, route_by_server_id,
}
use game_gateway.SessionId.{Generator, generate_session_id}
use game_gateway.Session.Table.{adds, apply, Valid, get-put, apply-Valid}
use game_gateway.Prelude.Bytes.{Read, done, failed, panicked}
use game_gateway.Config.Schema.{Config}
use game_gateway.Breaker
use game_gateway.Retry.{rounds_allowed}
use game_gateway.Pool.Manager.{pool_at}
use game_gateway.Session
use game_gateway.Gateway.{Core}
use game_gateway.Gateway.Establish.{
  Failure, packet_error, packet_panic, breaker_open, connection_failed, notify_failed, send_failed,
  Arrival, fails_with, Env, with_call, get_backend, put_if, new_session, deliver, connected,
  notified, to_backend, routed, numbered, first, establish,
}
use game_gateway.Gateway.Resources.{
  in_use, is_some, at_address, arrival_holds, arrival_id, Took, get_backend-Took, put_if-in_use,
}

-- What a connection has brought about when it gets to its session or fails.
pub record Brought (j : String) (id : ℤ) (k : Core) (r : Arrival × Core) : Type 0 where
  pub more : in_use j r.1 ≡ in_use j k + arrival_holds j r.0
  pub valid : Valid k.sessions → Valid r.1.sessions
  pub absent :
      Valid k.sessions
      → Session.get id k.sessions ≡ none
      → arrival_id id r.0 ≡ 0
      → Session.get id r.1.sessions ≡ none

-- A failure that has changed no connection in use and no session.
untouched :
    (j : String) (id : ℤ) (k k' : Core) (f : Failure)
    → Took j 0 k k'
    → Brought j id k (fails_with f, k')
untouched j id k k' f t = record {
  more = t.more;
  valid = λ v. rw t.sessions v;
  absent = λ v h e. rw t.sessions h;
}

add-absent :
    (s : Session.Session) (id : ℤ) (m : Session.Manager)
    → Valid m
    → Session.get id m ≡ none
    → ◌≡◌ {A = ℕ} (ite (ℤ-discrete s.session_id id) 1 0) 0
    → Session.get id (Session.add s m) ≡ none
unfolding Session.add
add-absent s id m v h e = get-put m s.session_id id s v.sixteen ∙ ground (arith, h, e)

add-Valid : (s : Session.Session) (m : Session.Manager) → Valid m → Valid (Session.add s m)
unfolding apply
add-Valid s m v = apply-Valid (adds s) m v

if-Brought :
    (b : Bool) (j : String) (id : ℤ) (k : Core) (r r' : Arrival × Core)
    → Brought j id k r
    → Brought j id k r'
    → Brought j id k (if b then r else r')
if-Brought true j id k r r' h h' = h
if-Brought false j id k r r' h h' = h'

deliver-Brought :
    (env : Env) (c : ℕ) (info : ServerIdInfo) (sid : ℤ) (a : String) (conn : Option ℕ) (j : String)
    (id : ℤ) (k k' : Core)
    → Took j (at_address a j (is_some conn)) k k'
    → Brought j id k (deliver env c info sid a conn k')
unfolding deliver
deliver-Brought env c info sid a conn j id k k' t =
    let s = new_session env c info sid conn in
    let (less, same) = put_if-in_use env.put_time a j conn k' in
    if-Brought env.sent j id k _ _
      (record {
        more = t.more;
        valid = λ v. add-Valid s k'.sessions (rw t.sessions v);
        absent = λ v h n. add-absent s id k'.sessions (rw t.sessions v) (rw t.sessions h) n;
      })
      (untouched j id k (put_if env.put_time a conn k') send_failed
        (record { more = ground (arith, less, t.more); sessions = same ∙ t.sessions }))

connected-Brought :
    (env : Env) (c : ℕ) (info : ServerIdInfo) (sid : ℤ) (a j : String) (id : ℤ) (k : Core)
    (r : Option ℕ × Core)
    → Took j (at_address a j (is_some r.0)) k r.1
    → Brought j id k (connected env c info sid a r)
connected-Brought env c info sid a j id k (none, k') t =
    untouched j id k k' connection_failed
      (record { more = ground (arith, t.more); sessions = t.sessions })
connected-Brought env c info sid a j id k (some h, k') t =
    deliver-Brought env c info sid a (some h) j id k k' t

notified-Brought :
    (env : Env) (c : ℕ) (info : ServerIdInfo) (sid : ℤ) (a j : String) (id : ℤ) (k : Core)
    → Brought j id k (notified env c info sid a k)
notified-Brought env c info sid a j id k =
    if-Brought env.notified j id k _ _
      (deliver-Brought env c info sid a none j id k k
        (record { more = ground arith; sessions = refl }))
      (untouched j id k k notify_failed (record { more = omega arith; sessions = refl }))

to_backend-Brought :
    (cfg : Config) (env : Env) (c : ℕ) (info : ServerIdInfo) (sid : ℤ) (a j : String) (id : ℤ)
    (b : Bool) (k : Core)
    → Brought j id k (to_backend cfg env c info sid a b k)
unfolding to_backend
to_backend-Brought cfg env c info sid a j id false k =
    untouched j id k k breaker_open (record { more = omega arith; sessions = refl })
to_backend-Brought cfg env c info sid a j id true k =
    let n = rounds_allowed cfg.connection_pool.max_retries in
    if-Brought cfg.server.use_grpc j id k _ _ (notified-Brought env c info sid a j id k) (
      connected-Brought env c info sid a j id k (get_backend env n 0 a k)
        (get_backend-Took env n 0 a j k))

-- The router, the breakers and the generator are not read here.
moved :
    (j : String) (id : ℤ) (k l : Core) (r : Arrival × Core)
    → l.pools ≡ k.pools
    → l.sessions ≡ k.sessions
    → Brought j id l r
    → Brought j id k r
moved j id k l r p s b = record {
  more = b.more ∙ ap (λ m. (pool_at j m).active_count + arrival_holds j r.0) p;
  valid = λ v. b.valid (rw s v);
  absent = λ v h e. b.absent (rw s v) (rw s h) e;
}

routed-Brought :
    (cfg : Config) (env : Env) (c : ℕ) (info : ServerIdInfo) (sid : ℤ) (j : String) (id : ℤ)
    (r : Route × Router) (k : Core)
    → Brought j id k (routed cfg env c info sid r k)
routed-Brought cfg env c info sid j id (endpoint a, r) k = moved j id k _ _ refl refl (
    to_backend-Brought cfg env c info sid a j id
      (Breaker.allow env.breaker_time (Breaker.Table.breaker_at a k.breakers)).1
      (with_call a (Breaker.allows env.breaker_time) (record k { router = r })))
routed-Brought cfg env c info sid j id (no_rule, r) k =
    untouched j id k _ _ (record { more = omega arith; sessions = refl })
routed-Brought cfg env c info sid j id (no_endpoints, r) k =
    untouched j id k _ _ (record { more = omega arith; sessions = refl })
routed-Brought cfg env c info sid j id (unknown_strategy, r) k =
    untouched j id k _ _ (record { more = omega arith; sessions = refl })
routed-Brought cfg env c info sid j id (panics, r) k =
    untouched j id k _ _ (record { more = omega arith; sessions = refl })

-- Whatever the first packet is and whatever meets it on the way, a connection that gets its session
-- has one more connection of its backend in use exactly if it holds one, and one that fails has
-- none; and no session with another number has come up.
pub establish-Brought :
    (cfg : Config) (env : Env) (c : ℕ) (bytes : List ℕ) (j : String) (id : ℤ) (k : Core)
    (r : Arrival × Core)
    → establish cfg env c bytes k ≡ some r
    → Brought j id k r
unfolding establish
establish-Brought cfg env c bytes j id k r e =
    from (read_full_packet cfg.security.max_message_size bytes) e
  where
    numbers :
        (info : ServerIdInfo) (o : Option (ℤ × (Generator × List ℕ)))
        → numbered cfg env c info o k ≡ some r
        → Brought j id k r
    numbers info none e = cc e
    numbers info (some (sid, (gen, left))) e = subst (Brought j id k) (some-injective _ _ e) (
        moved j id k (record k { generator = gen }) _ refl refl
          (routed-Brought cfg env c info sid j id
            (route_by_server_id (pos info.server_type) (pos info.world_id) (pos info.inst_id)
              k.router)
            (record k { generator = gen })))

    from : (p : Read Packet) → first cfg env c p k ≡ some r → Brought j id k r
    from (done p rest) e =
        numbers (extract_server_id_info p.header.server_id)
          (generate_session_id env.clock k.generator) e
    from (failed f) e =
        subst (Brought j id k) (some-injective _ _ e)
          (untouched j id k k (packet_error f) (record { more = omega arith; sessions = refl }))
    from panicked e =
        subst (Brought j id k) (some-injective _ _ e)
          (untouched j id k k packet_panic (record { more = omega arith; sessions = refl }))
