-- ===== src/Gateway/Handlers.antt =====
-- The handlers of internal/gateway/gateway.go that change something or issue tokens. A body is given
-- as what `ShouldBindJSON` makes of it, and `none` where that is an error. A reply has its status and
-- the text of interest, a token or the name in a message.
use apigateway_distributed_s.Base.{
  ℕ, ◌&&◌, Option, none, some, [], ◌∷◌, String, str_eq, if◌then◌else◌,
}
use apigateway_distributed_s.Base.Int.{ℤ}
use apigateway_distributed_s.Config.Types.{Config, ServiceConfig}
use apigateway_distributed_s.Config.Manager as Config
use apigateway_distributed_s.Config.Manager.{Viper}
use apigateway_distributed_s.Auth.Jwt.{
  Claims, Jwt, JwtAuth, Result, ok, error, generate_token, refresh_token, extract_token_from_header,
}
use apigateway_distributed_s.Circuit.Breaker.{GoBreaker}
use apigateway_distributed_s.Circuit.Manager as Circuit
use apigateway_distributed_s.Circuit.Manager.{BreakerError, reset_breaker}
use apigateway_distributed_s.LoadBalancer.Random.{Generator}
use apigateway_distributed_s.Middleware.{User, absent, other, claims}
use apigateway_distributed_s.Proxy.Serve.{Url}
use apigateway_distributed_s.Proxy.Manager.{ProxyManager, update_service, remove_service}
use apigateway_distributed_s.RateLimit.Manager as RateLimit
use apigateway_distributed_s.RateLimit.Manager.{Algorithm, LimitError}

pub data Reply : Type 0 where
  status : ℕ → Reply
  token : String → Reply
  profile : Claims → Reply

pub record Login : Type 0 where
  pub username : String
  pub password : String

-- A new token, or the status of a failure.
unfoldable pub token_or : ℕ → Result String → Reply
token_or code (ok t) = token t
token_or code (error e) = status code

module _ {M : Type 0} (jwt : Jwt M) where
  unfoldable pub login : JwtAuth → Option Login → ℤ → Reply
  unfolding token_or
  login j none now = status 400
  login j (some r) now =
      if str_eq r.username "admin" && str_eq r.password "password"
      then token_or 500 (
          generate_token jwt j "user123" r.username "admin@example.com" ("admin" ∷ "user" ∷ [])
            (("department", "engineering") ∷ []) now)
      else status 401

  -- `RefreshToken` reads the clock three times.
  unfoldable pub refresh_with : JwtAuth → Result String → ℤ → ℤ → ℤ → Reply
  unfolding token_or
  refresh_with j (error e) t0 t1 t2 = status 401
  refresh_with j (ok old) t0 t1 t2 = token_or 401 (refresh_token jwt j old t0 t1 t2)

  unfoldable pub refresh : JwtAuth → String → ℤ → ℤ → ℤ → Reply
  unfolding refresh_with
  refresh j header t0 t1 t2 = refresh_with j (extract_token_from_header header) t0 t1 t2

-- The code panics where the context has no claims, for which the reply is `none`.
unfoldable pub get_user_profile : User → Option Reply
get_user_profile absent = none
get_user_profile other = none
get_user_profile (claims c) = some (profile c)

-- The status by whether there was an error.
unfoldable pub status_of : {E : Type 0} → ℕ → Option E → Reply
status_of code none = status 200
status_of code (some e) = status code

module _ {U G : Type 0} (url : Url U) (generator : Generator G) where
  unfoldable pub update_service_handler :
      ProxyManager U G → String → Option ServiceConfig → G → ProxyManager U G × Reply
  unfolding status_of
  update_service_handler pm name none seed = (pm, status 400)
  update_service_handler pm name (some cfg) seed =
      let (pm', e) = update_service url generator pm name cfg seed in (pm', status_of 500 e)

unfoldable pub delete_service_handler :
    {U G : Type 0} → ProxyManager U G → String → ProxyManager U G × Reply
delete_service_handler pm name = (remove_service pm name, status 200)

unfoldable pub reset_circuit_breaker :
    {B W R E : Type 0} → GoBreaker B W R E → Circuit.Manager B → String → Reply
unfolding status_of
reset_circuit_breaker go m name = status_of 404 (reset_breaker go m name)

unfoldable pub reset_rate_limit :
    {A W E : Type 0}
    → Algorithm A W E
    → RateLimit.Manager A
    → String
    → W
    → RateLimit.Manager A × W × Reply
unfolding status_of
reset_rate_limit alg m key w =
    let (m', w', e) = RateLimit.reset alg m key w in (m', w', status_of 500 e)

-- The gateway takes the new configuration, and keeps its own after an error.
unfoldable pub reload_config :
    {V F : Type 0}
    → Viper V F
    → F
    → Config.Manager V
    → Option Config
    → Config.Manager V × Option Config × Reply
reload_config vp f m current =
    let (m', e) = Config.reload vp f m in
    (
      m',
      elim e [ none ↦ Config.get vp m' | some _ ↦ current ],
      elim e [ none ↦ status 200 | some _ ↦ status 500 ],
    )
