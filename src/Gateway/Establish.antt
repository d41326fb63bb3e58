-- ===== src/Gateway/Establish.antt =====
-- internal/gateway/gateway.go, handleTCPConnection: the way of a connection from its first packet to
-- a session.
use game_gateway.Prelude.{
  ℕ, zero, suc, Bool, true, false, ◌||◌, Option, none, some, List, String, ℤ, pos, int_string,
  if◌then◌else◌,
}
use game_gateway.Prelude.Bytes.{ReadError, Read, done, failed, panicked}
use game_gateway.Config.Schema.{Config}
use game_gateway.Packet.{ServerIdInfo, extract_server_id_info, Packet, read_full_packet}
use game_gateway.Router.{Router, Route, endpoint, route_by_server_id}
use game_gateway.Breaker
use game_gateway.Pool
use game_gateway.SessionId.{Generator, generate_session_id}
use game_gateway.Session
use game_gateway.Retry.{is_zero, rounds_allowed}
use game_gateway.Gateway.{Core}

-- How `handleTCPConnection` ends early.
pub data Failure : Type 0 where
  packet_error : ReadError → Failure
  packet_panic breaker_open connection_failed notify_failed send_failed : Failure
  routing_failed : Route → Failure

-- A connection with a session: `conn` is its backend connection, none in gRPC mode.
pub record Serving : Type 0 where
  pub session_id : ℤ
  pub backend : String
  pub conn : Option ℕ

pub data Arrival : Type 0 where
  fails_with : Failure → Arrival
  serves : Serving → Arrival

-- What surrounds one connection: the readings of the clock, for each attempt to connect its time,
-- its dial and whether the context ends before it or while it waits; whether the server can be
-- told of the client and whether the first message is sent.
pub record Env : Type 0 where
  pub clock : List ℕ
  pub breaker_time : ℕ
  pub dial_times : ℕ → ℕ
  pub dialled : ℕ → Bool
  pub cancelled_before : ℕ → Bool
  pub cancelled_waiting : ℕ → Bool
  pub notified : Bool
  pub sent : Bool
  pub put_time : ℕ
  pub session_time : ℕ

abbrev pub with_call : String → Breaker.Call → Core → Core
with_call a c k = record k { breakers = Breaker.Table.call k.breakers (a, c) }

abbrev pub with_pools : Pool.Manager.Manager → Core → Core
with_pools m k = record k { pools = m }

-- What the function that is retried does with the result of `GetConnection`, and what follows.
abbrev pub after_get :
    Env
    → ℕ
    → ℕ
    → String
    → Pool.Got × Pool.Manager.Manager
    → Core
    → (Core → Option ℕ × Core)
    → Option ℕ × Core
after_get env n i a (Pool.got h, m) k next =
    (some h, with_call a (Breaker.succeeds (env.dial_times i)) (with_pools m k))
after_get env n i a (r, m) k next =
    let k' = with_call a (Breaker.fails (env.dial_times i)) (with_pools m k) in
    if is_zero n || env.cancelled_waiting i then (none, k') else next k'

-- The rounds of the retry from `i` on, of which `n` are left.
unfoldable pub get_backend : Env → ℕ → ℕ → String → Core → Option ℕ × Core
unfolding Pool.Manager.get_connection Breaker.Table.call
get_backend env zero i a k = (none, k)
get_backend env (suc n) i a k =
    if env.cancelled_before i
    then (none, k)
    else after_get env n i a
        (Pool.Manager.get_connection (env.dial_times i) (env.dialled i) a k.pools) k
        (get_backend env n (suc i) a)

-- The deferred return of the backend connection.
unfoldable pub put_if : ℕ → String → Option ℕ → Core → Core
unfolding Pool.Manager.put_connection
put_if now a none k = k
put_if now a (some h) k = with_pools (Pool.Manager.put_connection now a h k.pools) k

abbrev pub new_session : Env → ℕ → ServerIdInfo → ℤ → Option ℕ → Session.Session
new_session env c info id conn = record {
  session_id = id;
  client_conn = some c;
  backend_conn = conn;
  user_id = pos 0;
  realm_id = pos 0;
  service_type = int_string (pos info.server_type);
  world_id = pos info.world_id;
  inst_id = pos info.inst_id;
  created_at = env.session_time;
  last_active_at = env.session_time;
  state = Session.SessionState.connected;
  bytes_out = some c;
}

-- The first message, and the session.
unfoldable pub deliver : Env → ℕ → ServerIdInfo → ℤ → String → Option ℕ → Core → Arrival × Core
unfolding put_if Session.add
deliver env c info id a conn k =
    if env.sent
    then (
      serves (record { session_id = id; backend = a; conn = conn }),
      record k { sessions = Session.add (new_session env c info id conn) k.sessions },
    )
    else (fails_with send_failed, put_if env.put_time a conn k)

abbrev pub connected : Env → ℕ → ServerIdInfo → ℤ → String → Option ℕ × Core → Arrival × Core
connected env c info id a (none, k) = (fails_with connection_failed, k)
connected env c info id a (some h, k) = deliver env c info id a (some h) k

abbrev pub notified : Env → ℕ → ServerIdInfo → ℤ → String → Core → Arrival × Core
notified env c info id a k =
    if env.notified then deliver env c info id a none k else (fails_with notify_failed, k)

-- Behind the breaker: in gRPC mode there is no connection to get, and in the other mode no server to
-- tell.
unfoldable pub to_backend :
    Config → Env → ℕ → ServerIdInfo → ℤ → String → Bool → Core → Arrival × Core
unfolding get_backend deliver
to_backend cfg env c info id a false k = (fails_with breaker_open, k)
to_backend cfg env c info id a true k =
    if cfg.server.use_grpc
    then notified env c info id a k
    else connected env c info id a
        (get_backend env (rounds_allowed cfg.connection_pool.max_retries) 0 a k)

abbrev pub routed : Config → Env → ℕ → ServerIdInfo → ℤ → Route × Router → Core → Arrival × Core
routed cfg env c info id (endpoint a, r) k =
    to_backend cfg env c info id a
      (Breaker.allow env.breaker_time (Breaker.Table.breaker_at a k.breakers)).1
      (with_call a (Breaker.allows env.breaker_time) (record k { router = r }))
routed cfg env c info id (e, r) k = (fails_with (routing_failed e), record k { router = r })

abbrev pub numbered :
    Config
    → Env
    → ℕ
    → ServerIdInfo
    → Option (ℤ × (Generator × List ℕ))
    → Core
    → Option (Arrival × Core)
numbered cfg env c info none k = none
numbered cfg env c info (some (id, (gen, left))) k = some (
    routed cfg env c info id
      (route_by_server_id (pos info.server_type) (pos info.world_id) (pos info.inst_id) k.router)
      (record k { generator = gen }))

abbrev pub first : Config → Env → ℕ → Read Packet → Core → Option (Arrival × Core)
first cfg env c (done p rest) k =
    numbered cfg env c (extract_server_id_info p.header.server_id)
      (generate_session_id env.clock k.generator) k
first cfg env c (failed e) k = some (fails_with (packet_error e), k)
first cfg env c panicked k = some (fails_with packet_panic, k)

-- The client's bytes from the first packet on: none if the readings of the clock end before the
-- session id is made.
unfoldable pub establish : Config → Env → ℕ → List ℕ → Core → Option (Arrival × Core)
unfolding read_full_packet generate_session_id extract_server_id_info route_by_server_id to_backend
    Breaker.allow
establish cfg env c s k = first cfg env c (read_full_packet cfg.security.max_message_size s) k
