-- ===== src/Gateway/Lifecycle.antt =====
-- The connections of the gateway side by side (internal/gateway/gateway.go, handleConnection,
-- handleTCPConnection; config_reload.go). Each operation is one part of a connection's goroutine.
use game_gateway.Prelude.{
  ℕ, suc, Option, none, some, List, [], ◌∷◌, ℕ_discrete, find, put, remove, String, ℤ,
}
use game_gateway.Config.Schema.{Config}
use game_gateway.Session
use game_gateway.Pool
use game_gateway.Router.{RoutingRule, update_rule}
use game_gateway.Gateway.{Limits, Core, Gateway, Admitted, admit, leave, update_config, new_gateway}
use game_gateway.Gateway.Establish.{
  Serving, Arrival, fails_with, serves, Env, with_pools, put_if, establish,
}

-- A connection that has been let in, and its session if it has one.
pub record Live : Type 0 where
  pub admitted : Admitted
  pub serving : Option Serving

pub record System : Type 0 where
  pub gateway : Gateway
  pub live : List (ℕ × Live)
  pub next_conn : ℕ

unfoldable pub new_system : Config → List ℕ → ℕ → System
unfolding new_gateway
new_system cfg pod_name now = record {
  gateway = new_gateway cfg pod_name now;
  live = [];
  next_conn = 0;
}

abbrev pub set_limits : Limits → System → System
set_limits l s = record s {
  gateway = record { config = s.gateway.config; limits = l; core = s.gateway.core };
}

abbrev pub set_core : Core → System → System
set_core k s = record s {
  gateway = record { config = s.gateway.config; limits = s.gateway.limits; core = k };
}

abbrev pub arrived : Option Admitted × Limits → System → System
arrived (none, l) s = set_limits l s
arrived (some a, l) s = record (set_limits l s) {
  live = (s.next_conn, record { admitted = a; serving = none }) ∷ s.live;
  next_conn = suc s.next_conn;
}

-- A connection from an address, at a time.
unfoldable pub arrive : String → ℕ → System → System
unfolding admit
arrive ip now s = arrived (admit ip now s.gateway.limits) s

-- The deferred releases of a connection.
abbrev pub gone : ℕ → Live → System → System
gone c l s = record (set_limits (leave l.admitted s.gateway.limits) s) {
  live = remove ℕ_discrete c s.live;
}

abbrev pub established : ℕ → Live → Option (Arrival × Core) → System → System
established c l none s = s
established c l (some (fails_with f, k)) s = gone c l (set_core k s)
established c l (some (serves v, k)) s = record (set_core k s) {
  live = put ℕ_discrete c (record { admitted = l.admitted; serving = some v }) s.live;
}

abbrev pub start_live : Env → ℕ → List ℕ → Option Live → System → System
start_live env c bytes none s = s
start_live env c bytes (some l) s = elim l.serving [
  | none ↦ established c l (establish s.gateway.config env c bytes s.gateway.core) s
  | some v ↦ s
]

-- The first packet of a connection that has no session yet, and what follows from it.
unfoldable pub start : Env → ℕ → List ℕ → System → System
unfolding establish leave
start env c bytes s = start_live env c bytes (find ℕ_discrete c s.live) s

-- The goroutine that forwards to the backend closes the backend connection as it ends.
abbrev pub close_if : String → Option ℕ → Core → Core
close_if a none k = k
close_if a (some h) k = with_pools (Pool.Manager.close_connection a h k.pools) k

-- The end of forwarding: the backend connection is closed, the session goes, and the connection is
-- returned to the pool, closed as it is.
abbrev pub stop_serving : ℕ → Option Serving → Core → Core
stop_serving now none k = k
stop_serving now (some v) k = put_if now v.backend v.conn (
    close_if v.backend v.conn
      (record k { sessions = Session.remove_session v.session_id k.sessions }))

abbrev pub stop_live : ℕ → ℕ → Option Live → System → System
stop_live now c none s = s
stop_live now c (some l) s = gone c l (set_core (stop_serving now l.serving s.gateway.core) s)

-- A connection ends, with or without a session.
unfoldable pub stop : ℕ → ℕ → System → System
unfolding put_if leave Session.remove_session
stop now c s = stop_live now c (find ℕ_discrete c s.live) s

-- The session's end from outside: a server's message or the sweep of the idle ones.
unfoldable pub forget : ℤ → System → System
unfolding Session.remove_session
forget id s =
    let k = s.gateway.core in
    set_core (record k { sessions = Session.remove_session id k.sessions }) s

-- One rule of the refreshed ones is written.
unfoldable pub reroute : RoutingRule → System → System
unfolding update_rule
reroute rule s =
    let k = s.gateway.core in set_core (record k { router = update_rule rule k.router }) s

unfoldable pub reload : Config → ℕ → System → System
unfolding update_config
reload new now s = record s { gateway = (update_config new now s.gateway).1 }

pub data Step : System → System → Type 0 where
  arrives : (ip : String) (now : ℕ) (s : System) → Step s (arrive ip now s)
  starts : (env : Env) (c : ℕ) (bytes : List ℕ) (s : System) → Step s (start env c bytes s)
  stops : (now c : ℕ) (s : System) → Step s (stop now c s)
  forgets : (id : ℤ) (s : System) → Step s (forget id s)
  reroutes : (rule : RoutingRule) (s : System) → Step s (reroute rule s)
  reloads : (new : Config) (now : ℕ) (s : System) → Step s (reload new now s)

pub data Reach (s : System) : System → Type 0 where
  here : Reach s s
  next : {t u : System} → Reach s t → Step t u → Reach s u
