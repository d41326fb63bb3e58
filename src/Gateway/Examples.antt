-- ===== src/Gateway/Examples.antt =====
-- Runs of the gateway (internal/gateway/gateway.go).
use game_gateway.Prelude.Bytes.{get_le, read_full}
use game_gateway.Prelude.{
  ℕ, ◌≡◌, refl, true, false, none, some, List, [], ◌∷◌, ℕ_discrete, String, ℤ, pos,
}
use game_gateway.Gateway.{Core}
use game_gateway.Config.Schema.{Config}
use game_gateway.IpLimiter.{conns_of}
use game_gateway.Session
use game_gateway.Router.{RoutingRule, get_rule, no_rule}
use game_gateway.Gateway.Establish.{routing_failed, fails_with, Env, establish}
use game_gateway.Gateway.Resources.{in_use}
use game_gateway.Gateway.Accounting.{Accounted}
use game_gateway.Gateway.Lifecycle.{
  System, new_system, arrive, start, stop, reroute, arrives, starts, stops, reroutes, Reach, here,
  next,
}
use game_gateway.Gateway.Operating.{connections-Accounted, all_released}

abbrev game_config : Config
game_config = record {
  server = record {
    listen_addr = ":8080";
    health_check_port = pos 9090;
    metrics_port = pos 9091;
    gateway_name = "gate";
    use_grpc = false;
  };
  redis = record {
    addr = "redis:6379";
    password = "";
    db = pos 0;
    key_prefix = "gate:";
    pool_size = pos 10;
    min_idle_conns = pos 5;
    dial_timeout = pos 5;
    read_timeout = pos 3;
    write_timeout = pos 3;
  };
  consul = record {
    service_name = "game";
    namespace = "";
    refresh_interval = pos 10;
    enabled = false;
  };
  backend = record { account_service = ""; version_service = ""; game_service = "" };
  routing = record { refresh_interval = pos 10; realm_refresh_interval = pos 60 };
  connection_pool = record {
    max_connections = pos 2;
    max_connections_per_service = pos 4;
    idle_timeout = pos 300;
    dial_timeout = pos 5;
    read_timeout = pos 30;
    write_timeout = pos 30;
    max_retries = pos 3;
    retry_delay = pos 100;
    max_goroutines = pos 8;
    goroutine_expiry = pos 10;
    connection_queue_size = pos 4;
  };
  grpc = record {
    heartbeat_interval = pos 30;
    connection_timeout = pos 10;
    reconnect_interval = pos 5;
    max_reconnect_attempts = pos 10;
  };
  security = record {
    max_message_size = pos 1024;
    max_connections_per_ip = pos 2;
    connection_rate_limit = pos 5;
  };
  tracing = record { enable_trace_propagation = false };
  graceful_shutdown_timeout = pos 30;
}

abbrev game_rule : RoutingRule
game_rule = record {
  server_type = pos 200;
  service_name = "game";
  strategy = "round_robin";
  endpoints = "10.0.0.1:9000" ∷ [];
  hash_key = "";
  world_id = pos 0;
}

abbrev env : Env
env = record {
  clock = 5 ∷ [];
  breaker_time = 5;
  dial_times = λ i. 6;
  dialled = λ i. true;
  cancelled_before = λ i. false;
  cancelled_waiting = λ i. false;
  notified = true;
  sent = true;
  put_time = 7;
  session_time = 7;
}

-- A packet without a body for server type 200 of world 7.
abbrev login : List ℕ
login = 0 ∷ 0 ∷ 1 ∷ 0 ∷ 1 ∷ 200 ∷ 7 ∷ 0 ∷ []

abbrev pod : List ℕ
pod = b'g' ∷ b'0' ∷ []

abbrev booted : System
booted = new_system game_config pod 0

abbrev routed : System
routed = reroute game_rule booted

abbrev joined : System
joined = arrive "192.168.0.9" 4 routed

abbrev playing : System
playing = start env 0 login joined

play : Reach booted playing
play =
    next (next (next here (reroutes game_rule booted)) (arrives "192.168.0.9" 4 routed))
      (starts env 0 login joined)

connections-Accounted_example : Accounted playing
connections-Accounted_example = connections-Accounted game_config pod 0 playing play

abbrev left : System
left = stop 9 0 (arrive "192.168.0.9" 4 booted)

all_released_example :
    (left.gateway.limits.rate_limiter.current ≡ pos 0)
    × ((ip : String) → conns_of ip left.gateway.limits.ip_limiter ≡ 0)
    × ((a : String) → in_use a left.gateway.core ≡ 0)
    × ((id : ℤ) → Session.get id left.gateway.core.sessions ≡ none)
unfolding stop arrive new_system ℕ_discrete
all_released_example =
    all_released game_config pod 0 left
      (next (next here (arrives "192.168.0.9" 4 booted))
        (stops 9 0 (arrive "192.168.0.9" 4 booted)))
      refl

abbrev fresh_core : Core
fresh_core = booted.gateway.core

abbrev numbered_core : Core
numbered_core = record fresh_core {
  generator = record {
    pod_hash = fresh_core.generator.pod_hash;
    last_timestamp = 5;
    session_seq = 1;
  };
}

-- No rule serves the packet: the connection ends, and the session number is spent.
unrouted :
    establish game_config env 0 login fresh_core
    ≡ some (fails_with (routing_failed no_rule), numbered_core)
unfolding establish read_full get_le new_system get_rule
unrouted = refl
