-- ===== src/Config/Valid.antt =====
-- What validation accepts, and what the defaults make of a file's values
-- (internal/config/config.go).
use game_gateway.Prelude.{
  ℕ, zero, suc, ◌≡◌, refl, ◌↔◌, inl, inr, Bool, true, false, none, arith, String, ℤ, pos, negsuc,
  is_pos, leb_ℤ, if◌then◌else◌, Bool-cases,
}
use game_gateway.Config.{
  validate_config, or_int, or_text, set_server_defaults, set_redis_defaults, set_routing_defaults,
  set_pool_defaults, set_grpc_defaults, set_security_defaults, set_defaults,
}
use game_gateway.Config.Schema.{is_empty, Config}

-- A value at least 1, and a value at least 0.
abbrev pub Positive : ℤ → Type 0
Positive z = is_pos z ≡ true

abbrev pub NonNegative : ℤ → Type 0
NonNegative z = leb_ℤ (pos 0) z ≡ true

abbrev pub NonEmpty : String → Type 0
NonEmpty s = is_empty s ≡ false

pub record Valid (c : Config) : Type 0 where
  pub listens : NonEmpty c.server.listen_addr
  pub port_from : Positive c.server.health_check_port
  pub port_to : leb_ℤ c.server.health_check_port (pos 65535) ≡ true
  pub has_redis : NonEmpty c.redis.addr
  pub redis_pool : Positive c.redis.pool_size
  pub connections : Positive c.connection_pool.max_connections
  pub per_service : Positive c.connection_pool.max_connections_per_service
  pub dials : Positive c.connection_pool.dial_timeout
  pub refreshes : Positive c.routing.refresh_interval
  pub shuts_down : Positive c.graceful_shutdown_timeout

-- Validation finds no error exactly if the two addresses are there, the health port is a port, and
-- the six other numbers it looks at are positive.
pub validate-Valid : (c : Config) → (validate_config c ≡ none) ↔ Valid c
unfolding validate_config
validate-Valid c = (
  λ h. record {
    listens = ground arith;
    port_from = ground arith;
    port_to = ground arith;
    has_redis = ground arith;
    redis_pool = ground arith;
    connections = ground arith;
    per_service = ground arith;
    dials = ground arith;
    refreshes = ground arith;
    shuts_down = ground arith;
  },
  λ v.
      rw
        (
          v.listens, v.port_from, v.port_to, v.has_redis, v.redis_pool, v.connections,
          v.per_service, v.dials, v.refreshes, v.shuts_down,
        )
        refl,
)

or_int-twice : (z : ℤ) (d : ℕ) → or_int (or_int z d) d ≡ or_int z d
unfolding or_int
or_int-twice (pos zero) d = ground arith
or_int-twice (pos (suc n)) d = ground arith
or_int-twice (negsuc n) d = refl

if-same : (b : Bool) (d : String) → (if b then d else d) ≡ d
if-same true d = refl
if-same false d = refl

or_text-twice : (s d : String) → or_text (or_text s d) d ≡ or_text s d
unfolding or_text
or_text-twice s d = elim (Bool-cases (is_empty s)) [
  | inl e ↦ rw e (if-same (is_empty d) d)
  | inr e ↦ rw e (rw e refl)
]

-- Setting the defaults once more changes nothing.
pub set_defaults-twice : (c : Config) → set_defaults (set_defaults c) ≡ set_defaults c
unfolding set_defaults set_server_defaults set_redis_defaults set_routing_defaults set_pool_defaults
    set_grpc_defaults set_security_defaults
set_defaults-twice c = simp (or_int-twice, or_text-twice) refl
