-- ===== src/Config/Examples.antt =====
-- Configurations at concrete inputs.
use game_gateway.Prelude.{
  ℕ, ◌≡◌, refl, ◌↔◌, ◌⊎◌, inl, inr, false, some, List, [], ◌∷◌, String, pos, negsuc,
}
use game_gateway.Config.{listen_addr_required, validate_config, set_defaults, load}
use game_gateway.Config.Schema.{Config}
use game_gateway.Config.Loading.{Acceptable, load-accepts}

-- What is left of an empty file.
abbrev zero_config : Config
zero_config = record {
  server = record {
    listen_addr = "";
    health_check_port = pos 0;
    metrics_port = pos 0;
    gateway_name = "";
    use_grpc = false;
  };
  redis = record {
    addr = "";
    password = "";
    db = pos 0;
    key_prefix = "";
    pool_size = pos 0;
    min_idle_conns = pos 0;
    dial_timeout = pos 0;
    read_timeout = pos 0;
    write_timeout = pos 0;
  };
  consul = record { service_name = ""; namespace = ""; refresh_interval = pos 0; enabled = false };
  backend = record { account_service = ""; version_service = ""; game_service = "" };
  routing = record { refresh_interval = pos 0; realm_refresh_interval = pos 0 };
  connection_pool = record {
    max_connections = pos 0;
    max_connections_per_service = pos 0;
    idle_timeout = pos 0;
    dial_timeout = pos 0;
    read_timeout = pos 0;
    write_timeout = pos 0;
    max_retries = negsuc 0;
    retry_delay = pos 0;
    max_goroutines = pos 0;
    goroutine_expiry = pos 0;
    connection_queue_size = pos 0;
  };
  grpc = record {
    heartbeat_interval = pos 0;
    connection_timeout = pos 0;
    reconnect_interval = pos 0;
    max_reconnect_attempts = pos 0;
  };
  security = record {
    max_message_size = negsuc 0;
    max_connections_per_ip = pos 0;
    connection_rate_limit = pos 0;
  };
  tracing = record { enable_trace_propagation = false };
  graceful_shutdown_timeout = pos 0;
}

first_error : validate_config zero_config ≡ some listen_addr_required
unfolding validate_config
first_error = refl

-- A file system with one readable file, which the parser takes for an empty one.
abbrev read_example : String → ℕ ⊎ List ℕ
read_example path = inr (1 ∷ [])

abbrev unmarshal_example : List ℕ → ℕ ⊎ Config
unmarshal_example [] = inl 5
unmarshal_example (b ∷ bs) = inr zero_config

load-accepts_example :
    (load read_example unmarshal_example "config.yaml" ≡ inr (set_defaults zero_config))
    ↔ Acceptable zero_config
load-accepts_example =
    load-accepts read_example unmarshal_example "config.yaml" (1 ∷ []) zero_config refl refl
