-- ===== src/Config/Loading.antt =====
-- Which files `Load` accepts, and what it makes of them (internal/config/config.go).
use game_gateway.Prelude.{
  ℕ, zero, suc, ◌<◌, ◌≡◌, refl, ◌↔◌, ◌⊎◌, inl, inr, true, Option, none, some, List, arith, String,
  ℤ, pos, negsuc, leb_ℤ, Bool-cases,
}
use game_gateway.Config.{
  ConfigError, validate_config, or_int, or_text, set_server_defaults, set_redis_defaults,
  set_routing_defaults, set_pool_defaults, set_defaults, checked, load,
}
use game_gateway.Config.Schema.{is_empty, Config}
use game_gateway.Config.Valid.{Positive, NonNegative, NonEmpty, Valid, validate-Valid}

-- A file's values before the defaults: an absent value is 0 or empty.
pub record Acceptable (c : Config) : Type 0 where
  pub port_from : NonNegative c.server.health_check_port
  pub port_to : leb_ℤ c.server.health_check_port (pos 65535) ≡ true
  pub redis_pool : NonNegative c.redis.pool_size
  pub connections : NonNegative c.connection_pool.max_connections
  pub per_service : NonNegative c.connection_pool.max_connections_per_service
  pub dials : NonNegative c.connection_pool.dial_timeout
  pub refreshes : NonNegative c.routing.refresh_interval
  pub shuts_down : NonNegative c.graceful_shutdown_timeout

or_int-Positive : (z : ℤ) (d : ℕ) → 0 < d → Positive (or_int z d) ↔ NonNegative z
unfolding or_int
or_int-Positive (pos zero) zero h = absurd (omega arith)
or_int-Positive (pos zero) (suc d) h = (λ _. refl, λ _. refl)
or_int-Positive (pos (suc n)) d h = ground arith
or_int-Positive (negsuc n) d h = (λ p. p, λ p. p)

or_int-port : (z : ℤ) → leb_ℤ (or_int z 9090) (pos 65535) ≡ leb_ℤ z (pos 65535)
unfolding or_int
or_int-port (pos zero) = refl
or_int-port (pos (suc n)) = ground arith
or_int-port (negsuc n) = refl

or_text-NonEmpty : (s d : String) → NonEmpty d → NonEmpty (or_text s d)
unfolding or_text
or_text-NonEmpty s d h = elim (Bool-cases (is_empty s)) [ inl e ↦ rw e h | inr e ↦ rw e e ]

-- With the defaults set, a configuration is valid exactly if its file's values are acceptable.
set_defaults-Valid : (c : Config) → Valid (set_defaults c) ↔ Acceptable c
unfolding set_defaults set_server_defaults set_redis_defaults set_routing_defaults set_pool_defaults
set_defaults-Valid c =
    let at = λ (z : ℤ) (d : ℕ). or_int-Positive z (suc d) (omega arith) in
    (
      λ v. record {
        port_from = (at c.server.health_check_port 9089).0 v.port_from;
        port_to = rw⁻¹ (or_int-port c.server.health_check_port) v.port_to;
        redis_pool = (at c.redis.pool_size 9).0 v.redis_pool;
        connections = (at c.connection_pool.max_connections 999).0 v.connections;
        per_service = (at c.connection_pool.max_connections_per_service 99).0 v.per_service;
        dials = (at c.connection_pool.dial_timeout 4999999999).0 v.dials;
        refreshes = (at c.routing.refresh_interval 9999999999).0 v.refreshes;
        shuts_down = (at c.graceful_shutdown_timeout 29999999999).0 v.shuts_down;
      },
      λ a. record {
        listens = or_text-NonEmpty c.server.listen_addr ":8080" refl;
        port_from = (at c.server.health_check_port 9089).1 a.port_from;
        port_to = rw (or_int-port c.server.health_check_port) a.port_to;
        has_redis = or_text-NonEmpty c.redis.addr "localhost:6379" refl;
        redis_pool = (at c.redis.pool_size 9).1 a.redis_pool;
        connections = (at c.connection_pool.max_connections 999).1 a.connections;
        per_service = (at c.connection_pool.max_connections_per_service 99).1 a.per_service;
        dials = (at c.connection_pool.dial_timeout 4999999999).1 a.dials;
        refreshes = (at c.routing.refresh_interval 9999999999).1 a.refreshes;
        shuts_down = (at c.graceful_shutdown_timeout 29999999999).1 a.shuts_down;
      },
    )

module _ {FileError YamlError : Type 0} (read_file : String → FileError ⊎ List ℕ)
    (unmarshal : List ℕ → YamlError ⊎ Config) where
  checked-accepts :
      (cfg : Config) (o : Option ConfigError)
      → (checked read_file unmarshal cfg o ≡ inr cfg) ↔ (o ≡ none)
  checked-accepts cfg none = (λ _. refl, λ _. refl)
  checked-accepts cfg (some e) = (λ h. cc h, λ h. cc h)

  -- A file that can be read and parsed is accepted, with the defaults set, exactly if its numbers
  -- are acceptable: a value that is 0 or absent is never the reason to refuse it.
  pub load-accepts :
      (path : String) (bytes : List ℕ) (c : Config)
      → read_file path ≡ inr bytes
      → unmarshal bytes ≡ inr c
      → (load read_file unmarshal path ≡ inr (set_defaults c)) ↔ Acceptable c
  unfolding load
  load-accepts path bytes c f u = rw f (
      rw u (
        λ h. (set_defaults-Valid c).0 (
            (validate-Valid (set_defaults c)).0
              ((checked-accepts (set_defaults c) (validate_config (set_defaults c))).0 h)),
        λ a.
            (checked-accepts (set_defaults c) (validate_config (set_defaults c))).1
              ((validate-Valid (set_defaults c)).1 ((set_defaults-Valid c).1 a)),
      ))
