-- ===== src/Config.antt =====
-- internal/config/config.go: the configuration, its default values and its validation. Durations
-- are their nanoseconds.
pub mod Schema
pub mod Valid
pub mod Loading
mod Examples
use game_gateway.Prelude.{
  ℕ, ◌*◌, ◌⊎◌, inl, inr, Bool, true, false, not, ◌&&◌, Option, none, some, List, String, ℤ, pos,
  is_pos, leb_ℤ, eqb_ℤ, if◌then◌else◌,
}
use game_gateway.Config.Schema.{
  second, is_empty, ServerConfig, RedisConfig, RoutingConfig, GrpcConfig, ConnectionPoolConfig,
  SecurityConfig, Config,
}

-- The first error that validation finds.
pub data ConfigError : Type 0 where
  listen_addr_required health_check_port_range : ConfigError
  redis_addr_required redis_pool_size : ConfigError
  max_connections max_connections_per_service pool_dial_timeout : ConfigError
  routing_refresh_interval graceful_shutdown_timeout : ConfigError

-- `if !ok { return err }`, with the checks behind it.
abbrev pub require : Bool → ConfigError → Option ConfigError → Option ConfigError
require true e next = next
require false e next = some e

unfoldable pub validate_config : Config → Option ConfigError
validate_config cfg = require (not (is_empty cfg.server.listen_addr)) listen_addr_required (
    require (is_pos cfg.server.health_check_port && leb_ℤ cfg.server.health_check_port (pos 65535))
      health_check_port_range
      (require (not (is_empty cfg.redis.addr)) redis_addr_required (
        require (is_pos cfg.redis.pool_size) redis_pool_size (
          require (is_pos cfg.connection_pool.max_connections) max_connections (
            require (is_pos cfg.connection_pool.max_connections_per_service)
              max_connections_per_service
              (require (is_pos cfg.connection_pool.dial_timeout) pool_dial_timeout (
                require (is_pos cfg.routing.refresh_interval) routing_refresh_interval (
                  require (is_pos cfg.graceful_shutdown_timeout) graceful_shutdown_timeout
                    none))))))))

-- `if field == 0 { field = d }` and `if field == "" { field = d }`.
unfoldable pub or_int : ℤ → ℕ → ℤ
or_int z d = if eqb_ℤ z (pos 0) then pos d else z

unfoldable pub or_text : String → String → String
or_text s d = if is_empty s then d else s

unfoldable pub set_server_defaults : ServerConfig → ServerConfig
unfolding or_int or_text
set_server_defaults c = record {
  listen_addr = or_text c.listen_addr ":8080";
  health_check_port = or_int c.health_check_port 9090;
  metrics_port = or_int c.metrics_port 9091;
  gateway_name = c.gateway_name;
  use_grpc = c.use_grpc;
}

unfoldable pub set_redis_defaults : RedisConfig → RedisConfig
unfolding or_int or_text
set_redis_defaults c = record {
  addr = or_text c.addr "localhost:6379";
  password = c.password;
  db = c.db;
  key_prefix = or_text c.key_prefix "game-gateway:";
  pool_size = or_int c.pool_size 10;
  min_idle_conns = or_int c.min_idle_conns 5;
  dial_timeout = or_int c.dial_timeout (5 * second);
  read_timeout = or_int c.read_timeout (3 * second);
  write_timeout = or_int c.write_timeout (3 * second);
}

unfoldable pub set_routing_defaults : RoutingConfig → RoutingConfig
unfolding or_int
set_routing_defaults c = record {
  refresh_interval = or_int c.refresh_interval (10 * second);
  realm_refresh_interval = or_int c.realm_refresh_interval (5 * second);
}

unfoldable pub set_pool_defaults : ConnectionPoolConfig → ConnectionPoolConfig
unfolding or_int
set_pool_defaults c = record {
  max_connections = or_int c.max_connections 1000;
  max_connections_per_service = or_int c.max_connections_per_service 100;
  idle_timeout = or_int c.idle_timeout (300 * second);
  dial_timeout = or_int c.dial_timeout (5 * second);
  read_timeout = or_int c.read_timeout (30 * second);
  write_timeout = or_int c.write_timeout (30 * second);
  max_retries = or_int c.max_retries 3;
  retry_delay = or_int c.retry_delay 100000000;
  max_goroutines = or_int c.max_goroutines 0;
  goroutine_expiry = or_int c.goroutine_expiry (10 * second);
  connection_queue_size = or_int c.connection_queue_size 1000;
}

unfoldable pub set_grpc_defaults : GrpcConfig → GrpcConfig
unfolding or_int
set_grpc_defaults c = record {
  heartbeat_interval = or_int c.heartbeat_interval (30 * second);
  connection_timeout = or_int c.connection_timeout (10 * second);
  reconnect_interval = or_int c.reconnect_interval (5 * second);
  max_reconnect_attempts = c.max_reconnect_attempts;
}

unfoldable pub set_security_defaults : SecurityConfig → SecurityConfig
unfolding or_int
set_security_defaults c = record {
  max_message_size = or_int c.max_message_size (1024 * 1024);
  max_connections_per_ip = or_int c.max_connections_per_ip 10;
  connection_rate_limit = or_int c.connection_rate_limit 5;
}

unfoldable pub set_defaults : Config → Config
unfolding set_server_defaults set_redis_defaults set_routing_defaults set_pool_defaults
    set_grpc_defaults set_security_defaults or_int
set_defaults c = record {
  server = set_server_defaults c.server;
  redis = set_redis_defaults c.redis;
  consul = c.consul;
  backend = c.backend;
  routing = set_routing_defaults c.routing;
  connection_pool = set_pool_defaults c.connection_pool;
  grpc = set_grpc_defaults c.grpc;
  security = set_security_defaults c.security;
  tracing = c.tracing;
  graceful_shutdown_timeout = or_int c.graceful_shutdown_timeout (30 * second);
}

-- What `Load` makes of a file: `read_file` is `os.ReadFile`, and `unmarshal` is `yaml.Unmarshal`
-- into a zero configuration.
pub data LoadError {ℓ κ} (FileError : Type ℓ) (YamlError : Type κ) : Type (ℓ ⊔ κ) where
  read_failed : FileError → LoadError FileError YamlError
  parse_failed : YamlError → LoadError FileError YamlError
  invalid : ConfigError → LoadError FileError YamlError

module _ {ℓ κ} {FileError : Type ℓ} {YamlError : Type κ} (read_file : String → FileError ⊎ List ℕ)
    (unmarshal : List ℕ → YamlError ⊎ Config) where
  abbrev pub checked : Config → Option ConfigError → LoadError FileError YamlError ⊎ Config
  checked cfg none = inr cfg
  checked cfg (some e) = inl (invalid e)

  abbrev pub parsed : YamlError ⊎ Config → LoadError FileError YamlError ⊎ Config
  parsed (inl e) = inl (parse_failed e)
  parsed (inr cfg) = checked (set_defaults cfg) (validate_config (set_defaults cfg))

  abbrev pub opened : FileError ⊎ List ℕ → LoadError FileError YamlError ⊎ Config
  opened (inl e) = inl (read_failed e)
  opened (inr bytes) = parsed (unmarshal bytes)

  unfoldable pub load : String → LoadError FileError YamlError ⊎ Config
  load path = opened (read_file path)
