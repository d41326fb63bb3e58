-- ===== src/Config/Schema.antt =====
-- The structures of internal/config/config.go.
use game_gateway.Prelude.{ℕ, Bool, String, ℤ}
use text.Mathlib.Text.{◌==◌ as same_text}

-- The nanoseconds of a second.
abbrev pub second : ℕ
second = 1000000000

-- The test `s == ""`.
abbrev pub is_empty : String → Bool
is_empty s = same_text s ""

pub record ServerConfig : Type 0 where
  pub listen_addr : String
  pub health_check_port : ℤ
  pub metrics_port : ℤ
  pub gateway_name : String
  pub use_grpc : Bool

pub record RedisConfig : Type 0 where
  pub addr : String
  pub password : String
  pub db : ℤ
  pub key_prefix : String
  pub pool_size : ℤ
  pub min_idle_conns : ℤ
  pub dial_timeout : ℤ
  pub read_timeout : ℤ
  pub write_timeout : ℤ

pub record ConsulConfig : Type 0 where
  pub service_name : String
  pub namespace : String
  pub refresh_interval : ℤ
  pub enabled : Bool

pub record BackendConfig : Type 0 where
  pub account_service : String
  pub version_service : String
  pub game_service : String

pub record RoutingConfig : Type 0 where
  pub refresh_interval : ℤ
  pub realm_refresh_interval : ℤ

pub record GrpcConfig : Type 0 where
  pub heartbeat_interval : ℤ
  pub connection_timeout : ℤ
  pub reconnect_interval : ℤ
  pub max_reconnect_attempts : ℤ

pub record ConnectionPoolConfig : Type 0 where
  pub max_connections : ℤ
  pub max_connections_per_service : ℤ
  pub idle_timeout : ℤ
  pub dial_timeout : ℤ
  pub read_timeout : ℤ
  pub write_timeout : ℤ
  pub max_retries : ℤ
  pub retry_delay : ℤ
  pub max_goroutines : ℤ
  pub goroutine_expiry : ℤ
  pub connection_queue_size : ℤ

pub record SecurityConfig : Type 0 where
  pub max_message_size : ℤ
  pub max_connections_per_ip : ℤ
  pub connection_rate_limit : ℤ

pub record TracingConfig : Type 0 where
  pub enable_trace_propagation : Bool

pub record Config : Type 0 where
  pub server : ServerConfig
  pub redis : RedisConfig
  pub consul : ConsulConfig
  pub backend : BackendConfig
  pub routing : RoutingConfig
  pub connection_pool : ConnectionPoolConfig
  pub grpc : GrpcConfig
  pub security : SecurityConfig
  pub tracing : TracingConfig
  pub graceful_shutdown_timeout : ℤ
