-- ===== src/Gateway/Reload.antt =====
-- internal/config/hotreload.go (UpdateConfig) over internal/gateway/config_reload.go: the manager of
-- the configuration file hands a new configuration to the gateway.
use game_gateway.Prelude.{ℕ, ◌≡◌, refl, Option, none, some}
use game_gateway.Config.Schema.{Config}
use game_gateway.Config.{ConfigError, validate_config}
use game_gateway.Gateway.{Gateway, update_config}

-- The manager's own configuration and the gateway.
pub record Reloading : Type 0 where
  pub config : Config
  pub gateway : Gateway

abbrev pub told : Config → Option ConfigError × Gateway → Reloading → Option ConfigError × Reloading
told new (some e, g) r = (some e, record { config = r.config; gateway = g })
told new (none, g) r = (none, record { config = new; gateway = g })

abbrev pub checked : Config → ℕ → Option ConfigError → Reloading → Option ConfigError × Reloading
checked new now (some e) r = (some e, r)
checked new now none r = told new (update_config new now r.gateway) r

unfoldable pub hot_update : Config → ℕ → Reloading → Option ConfigError × Reloading
unfolding validate_config update_config
hot_update new now r = checked new now (validate_config new) r

-- If the manager and the gateway have the same configuration, they have the same one after every
-- update, and the answer is that of the validation.
pub hot_update-config :
    (new : Config) (now : ℕ) (r : Reloading)
    → r.config ≡ r.gateway.config
    → ((hot_update new now r).1.config ≡ (hot_update new now r).1.gateway.config)
      × ((hot_update new now r).0 ≡ validate_config new)
unfolding hot_update update_config
hot_update-config new now r h = from (validate_config new) refl
  where
    from :
        (o : Option ConfigError)
        → validate_config new ≡ o
        → ((checked new now o r).1.config ≡ (checked new now o r).1.gateway.config)
          × ((checked new now o r).0 ≡ o)
    from (some e) q = (h, refl)
    from none q = rw q (refl, refl)
