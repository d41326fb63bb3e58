-- ===== src/Gateway.antt =====
-- internal/gateway/gateway.go (handleConnection, handleTCPConnection) and config_reload.go: what a
-- client's connection takes and gives back, composed of the components' own operations. A connection
-- is a number; each function is one part of its goroutine, and those of several connections come in
-- any order. The spans, metrics, logs and timeouts are not modelled.
pub mod Establish
pub mod Lifecycle
pub mod Resources
pub mod Counting
pub mod Limiting
pub mod Bringing
pub mod Stages
pub mod Operating
pub mod Reload
pub mod Totals
pub mod Accounting
mod Examples
use game_gateway.Prelude.{
  ℕ, suc, ◌%◌, ◌^◌, Bool, true, false, not, ◌||◌, Option, none, some, List, [], String, ℤ, pos,
  negsuc, eqb_ℤ, checksum_ieee, ◌==◌, if◌then◌else◌,
}
use game_gateway.Config.Schema.{Config}
use game_gateway.Config.{ConfigError, validate_config}
use game_gateway.Limiter
use game_gateway.IpLimiter
use game_gateway.Router.{Router, new_router}
use game_gateway.Breaker
use game_gateway.Pool
use game_gateway.SessionId.{Generator}
use game_gateway.Session

-- The two limiters. A reload makes new ones; the number says which one the gateway has, since a
-- connection gives back to the limiter that let it in.
pub record Limits : Type 0 where
  pub rate_limiter : Limiter.Limiter
  pub rate_generation : ℕ
  pub ip_limiter : IpLimiter.IpLimiter
  pub ip_generation : ℕ

-- What a connection needs on its way to a backend.
pub record Core : Type 0 where
  pub router : Router
  pub breakers : Breaker.Table.Table
  pub pools : Pool.Manager.Manager
  pub generator : Generator
  pub sessions : Session.Manager

pub record Gateway : Type 0 where
  pub config : Config
  pub limits : Limits
  pub core : Core

-- What a connection was let in with.
pub record Admitted : Type 0 where
  pub ip : String
  pub rate_generation : ℕ
  pub ip_generation : ℕ

abbrev pub admit_rate : String → Limiter.Limiter × Bool → Limits → Option Admitted × Limits
admit_rate ip (l, true) g = (
  some (record { ip = ip; rate_generation = g.rate_generation; ip_generation = g.ip_generation }),
  record g { rate_limiter = l },
)
admit_rate ip (l, false) g =
    (none, record g { rate_limiter = l; ip_limiter = IpLimiter.release ip g.ip_limiter })

abbrev pub admit_ip : String → IpLimiter.IpLimiter × Bool → Limits → Option Admitted × Limits
admit_ip ip (l, true) g = admit_rate ip (Limiter.allow g.rate_limiter) (record g { ip_limiter = l })
admit_ip ip (l, false) g = (none, record g { ip_limiter = l })

-- The address first, then all connections together; a refusal gives back what was taken. The calls
-- and the set-up of their deferred releases are one part: no reload comes between them here.
unfoldable pub admit : String → ℕ → Limits → Option Admitted × Limits
unfolding IpLimiter.allow Limiter.allow IpLimiter.release
admit ip now g = admit_ip ip (IpLimiter.allow ip now g.ip_limiter) g

-- The deferred releases; a limiter that has been replaced is no longer the gateway's.
abbrev pub release_rate : ℕ → Limits → Limits
release_rate generation g =
    if generation == g.rate_generation
    then record g { rate_limiter = Limiter.release g.rate_limiter }
    else g

abbrev pub release_ip : String → ℕ → Limits → Limits
release_ip ip generation g =
    if generation == g.ip_generation
    then record g { ip_limiter = IpLimiter.release ip g.ip_limiter }
    else g

unfoldable pub leave : Admitted → Limits → Limits
unfolding Limiter.release IpLimiter.release
leave a g = release_ip a.ip a.ip_generation (release_rate a.rate_generation g)

-- A limit below 0 refuses like 0.
abbrev pub limit_of : ℤ → ℕ
limit_of (pos n) = n
limit_of (negsuc n) = 0

abbrev pub new_rate : Config → Config → Limits → Limits
new_rate old new g =
    if eqb_ℤ new.connection_pool.max_connections old.connection_pool.max_connections
    then g
    else record g {
      rate_limiter = Limiter.new_limiter new.connection_pool.max_connections;
      rate_generation = suc g.rate_generation;
    }

abbrev pub new_ip : Config → Config → ℕ → Limits → Limits
new_ip old new now g =
    if not (eqb_ℤ new.security.max_connections_per_ip old.security.max_connections_per_ip)
      || not (eqb_ℤ new.security.connection_rate_limit old.security.connection_rate_limit)
    then record g {
      ip_limiter =
          IpLimiter.new_ip_limiter (limit_of new.security.max_connections_per_ip)
            (limit_of new.security.connection_rate_limit) now;
      ip_generation = suc g.ip_generation;
    }
    else g

abbrev pub reloaded_if : Option ConfigError → Config → ℕ → Gateway → Option ConfigError × Gateway
reloaded_if (some e) new now g = (some e, g)
reloaded_if none new now g = (
  none,
  record g { config = new; limits = new_ip g.config new now (new_rate g.config new g.limits) },
)

-- `UpdateConfig`: an error, or the new configuration and the limiters whose settings changed.
unfoldable pub update_config : Config → ℕ → Gateway → Option ConfigError × Gateway
unfolding validate_config Limiter.new_limiter IpLimiter.new_ip_limiter
update_config new now g = reloaded_if (validate_config new) new now g

-- `New`: the pod's name gives the generator its number; the settings that count or last are not
-- negative.
unfoldable pub new_gateway : Config → List ℕ → ℕ → Gateway
unfolding Limiter.new_limiter IpLimiter.new_ip_limiter Pool.Manager.new_manager Session.new_manager
    new_router checksum_ieee
new_gateway cfg pod_name now = record {
  config = cfg;
  limits = record {
    rate_limiter = Limiter.new_limiter cfg.connection_pool.max_connections;
    rate_generation = 0;
    ip_limiter =
        IpLimiter.new_ip_limiter (limit_of cfg.security.max_connections_per_ip)
          (limit_of cfg.security.connection_rate_limit) now;
    ip_generation = 0;
  };
  core = record {
    router = new_router;
    breakers = [];
    pools =
        Pool.Manager.new_manager (limit_of cfg.connection_pool.idle_timeout)
          (limit_of cfg.connection_pool.max_connections_per_service);
    generator = record {
      pod_hash = checksum_ieee pod_name % 2 ^ 16;
      last_timestamp = 0;
      session_seq = 0;
    };
    sessions = Session.new_manager;
  };
}
