-- ===== src/Config/Manager.antt =====
-- `Manager` of internal/config/config.go. The library viper is a parameter: `V` for its state, `F`
-- for the files and the environment that it reads, and its operations that the manager calls.
-- `Watch` hands `Reload` to viper as the callback for a change of the file, so a change is one more
-- call of `reload` here, with the files as they are then.
pub mod Loads
use apigateway_distributed_s.Base.{
  ℕ, ◌≡◌, Bool, true, false, Option, none, some, String, List, [], ◌∷◌, if◌then◌else◌,
}
use apigateway_distributed_s.Base.Int.{ℤ, pos}
use apigateway_distributed_s.Config.Types.{Config}
use apigateway_distributed_s.Config.Validate.{Invalid, validate_config}

pub data Value : Type 0 where
  int : ℕ → Value
  text : String → Value
  flag : Bool → Value
  texts : List String → Value

-- Documented: the file in use is the one that was set last, whatever else is done.
pub record Viper (V F : Type 0) : Type 0 where
  pub new : V
  pub set_default : String → Value → V → V
  pub set_config_file : String → V → V
  pub set_config_type : String → V → V
  pub automatic_env : V → V
  pub read_in_config : F → V → V × Bool
  pub unmarshal : F → V → Option Config
  pub config_file_used : V → String
  pub used-set_config_file : (p : String) (v : V) → config_file_used (set_config_file p v) ≡ p
  pub used-set_config_type :
      (t : String) (v : V) → config_file_used (set_config_type t v) ≡ config_file_used v
  pub used-automatic_env : (v : V) → config_file_used (automatic_env v) ≡ config_file_used v
  pub used-read_in_config :
      (f : F) (v : V) → config_file_used (read_in_config f v).0 ≡ config_file_used v

pub data LoadError : Type 0 where
  read_failed : LoadError
  unmarshal_failed : LoadError
  validation_failed : Invalid → LoadError

pub record Manager (V : Type 0) : Type 0 where
  pub config : Option Config
  pub viper : V

abbrev pub defaults : List (String × Value)
defaults =
    ("server.port", int 8080)
    ∷ ("server.host", text "0.0.0.0")
    ∷ ("server.read_timeout", text "30s")
    ∷ ("server.write_timeout", text "30s")
    ∷ ("server.idle_timeout", text "60s")
    ∷ ("server.tls.enabled", flag false)
    ∷ ("server.cors.enabled", flag true)
    ∷ ("server.cors.allowed_origins", texts ("*" ∷ []))
    ∷ ("server.cors.allowed_methods", texts ("GET" ∷ "POST" ∷ "PUT" ∷ "DELETE" ∷ "OPTIONS" ∷ []))
    ∷ ("server.cors.allowed_headers", texts ("*" ∷ []))
    ∷ ("auth.jwt.expiration_time", text "1h")
    ∷ ("auth.jwt.refresh_time", text "24h")
    ∷ ("auth.jwt.algorithm", text "HS256")
    ∷ ("auth.api_key.enabled", flag true)
    ∷ ("auth.api_key.header", text "X-API-Key")
    ∷ ("rate_limit.enabled", flag true)
    ∷ ("rate_limit.algorithm", text "token_bucket")
    ∷ ("rate_limit.default.requests", int 100)
    ∷ ("rate_limit.default.window", text "1m")
    ∷ ("rate_limit.default.burst", int 10)
    ∷ ("cache.enabled", flag true)
    ∷ ("cache.ttl", text "5m")
    ∷ ("cache.max_size", int 1000)
    ∷ ("redis.host", text "localhost")
    ∷ ("redis.port", int 6379)
    ∷ ("redis.db", int 0)
    ∷ ("redis.pool_size", int 10)
    ∷ ("database.host", text "localhost")
    ∷ ("database.port", int 5432)
    ∷ ("database.sslmode", text "disable")
    ∷ ("monitoring.prometheus.enabled", flag true)
    ∷ ("monitoring.prometheus.path", text "/metrics")
    ∷ ("monitoring.prometheus.port", int 9090)
    ∷ ("monitoring.tracing.enabled", flag false)
    ∷ ("logging.level", text "info")
    ∷ ("logging.format", text "json")
    ∷ ("logging.output", text "stdout")
    ∷ []

module _ {V F : Type 0} (vp : Viper V F) where
  unfoldable pub new_manager : Manager V
  new_manager = record { config = none; viper = vp.new }

  unfoldable pub apply_defaults : List (String × Value) → V → V
  apply_defaults [] v = v
  apply_defaults ((key, value) ∷ rest) v = apply_defaults rest (vp.set_default key value v)

  unfoldable pub set_defaults : V → V
  unfolding apply_defaults
  set_defaults v = apply_defaults defaults v

  -- The end of `Load`: the configuration is stored only if it is valid.
  unfoldable pub install : Manager V → V → Config → Manager V × Option LoadError
  install m v c = elim (validate_config c) [
    | some e ↦ (record m { viper = v }, some (validation_failed e))
    | none ↦ (record { config = some c; viper = v }, none)
  ]

  unfoldable pub decode : Manager V → V → Option Config → Manager V × Option LoadError
  unfolding install
  decode m v none = (record m { viper = v }, some unmarshal_failed)
  decode m v (some c) = install m v c

  -- `Load`, with nil for its error where it succeeds.
  unfoldable pub load : F → Manager V → String → Manager V × Option LoadError
  unfolding decode
  load f m config_path =
      let set = vp.set_config_file config_path (set_defaults m.viper) in
      let (v, read) = vp.read_in_config f (vp.automatic_env (vp.set_config_type "yaml" set)) in
      if read then decode m v (vp.unmarshal f v) else (record m { viper = v }, some read_failed)

  unfoldable pub get : Manager V → Option Config
  get m = m.config

  unfoldable pub reload : F → Manager V → Manager V × Option LoadError
  unfolding load
  reload f m = load f m (vp.config_file_used m.viper)
