-- ===== src/Config/Validate.antt =====
-- `validateConfig` of internal/config/config.go, and what it accepts.
use apigateway_distributed_s.Base.{
  ◌≡◌, ◌≢◌, ◌↔◌, true, ◌&&◌, ◌||◌, Option, none, some, arith, str_eq, eq_iff, if◌then◌else◌,
}
use apigateway_distributed_s.Base.Int.{ℤ, pos, ◌≤ℤ◌, leb_ℤ, ltb_ℤ}
use apigateway_distributed_s.Config.Types.{Config}

pub data Invalid : Type 0 where
  server_port : ℤ → Invalid
  secret_required : Invalid
  requests_not_positive : Invalid

-- `none` is the nil error.
unfoldable pub validate_config : Config → Option Invalid
validate_config c =
    if leb_ℤ c.server.port (pos 0) || ltb_ℤ (pos 65535) c.server.port
    then some (server_port c.server.port)
    else if str_eq c.auth.jwt.secret ""
    then some secret_required
    else if c.rate_limit.enabled && leb_ℤ c.rate_limit.default.requests (pos 0)
    then some requests_not_positive
    else none

-- A configuration that the gateway can run on.
pub record IsUsable (c : Config) : Type 0 where
  pub port_above : pos 1 ≤ℤ c.server.port
  pub port_below : c.server.port ≤ℤ pos 65535
  pub secret : c.auth.jwt.secret ≢ ""
  pub requests : c.rate_limit.enabled ≡ true → pos 1 ≤ℤ c.rate_limit.default.requests

IsUsable-validate_config : (c : Config) → validate_config c ≡ none → IsUsable c
unfolding validate_config
IsUsable-validate_config c h = record {
  port_above = ground arith;
  port_below = ground arith;
  secret = ground (arith, eq_iff c.auth.jwt.secret "");
  requests = ground arith;
}

validate_config-IsUsable : (c : Config) → IsUsable c → validate_config c ≡ none
unfolding validate_config
validate_config-IsUsable c u = ground (arith, eq_iff c.auth.jwt.secret "", u.secret, u.requests)

-- The validation passes a configuration exactly when its port lies from 1 to 65535, its JWT secret
-- is not empty, and its default request limit is positive if rate limiting is on.
pub validate_config-eq-none_iff : (c : Config) → (validate_config c ≡ none) ↔ IsUsable c
validate_config-eq-none_iff c = (IsUsable-validate_config c, validate_config-IsUsable c)
