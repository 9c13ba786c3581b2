-- ===== src/Middleware/Chain.antt =====
-- The chains of internal/middleware/chain.go. A handler takes what `Next` runs, the rest of the
-- chain, and acts before and behind it; a handler that aborts does not call it. A response has the
-- first status that is written. A panic ends a handler where it calls `Next`, unless it recovers.
-- A handler gets the readings of the clock and the request id that the code makes of one as
-- arguments. The bodies of responses are left out.
pub mod Guards
pub mod Admission
pub mod Ends
use apigateway_distributed_s.Base.{
  ℕ, Bool, true, false, ◌&&◌, not, Option, none, some, List, [], ◌∷◌, ◌++◌, String, concat, str_eq,
  if◌then◌else◌, Dict, insert, delete, length, ltb,
}
use apigateway_distributed_s.Base.Int.{ℤ}
use apigateway_distributed_s.Config.Types.{Config, CorsConfig}
use apigateway_distributed_s.Auth.Jwt.{Claims, Jwt, JwtAuth}
use apigateway_distributed_s.RateLimit.Manager as RateLimit
use apigateway_distributed_s.RateLimit.Manager.{Algorithm, LimitError, check_limit}
use apigateway_distributed_s.Middleware.{
  User, absent, other, claims, Verdict, next, aborted, jwt_auth, require_role,
}

-- What the handlers read of a request: an absent header is the empty text.
pub record Request : Type 0 where
  pub method : String
  pub path : String
  pub origin : String
  pub authorization : String
  pub client_ip : String

-- A line of the log or a record of the metrics, for a request that ended.
pub record Entry : Type 0 where
  pub method : String
  pub path : String
  pub status : Option ℕ
  pub request_id : String

-- The request and what the handlers change: the context of gin, the response, and the rate limiter
-- with what its algorithms share, the log and the metrics, which outlive the request.
pub record Context (A W : Type 0) : Type 0 where
  pub request : Request
  pub user : User
  pub request_id : String
  pub headers : Dict String
  pub status : Option ℕ
  pub limiter : RateLimit.Manager A
  pub shared : W
  pub logged : List Entry
  pub recorded : List Entry

pub data Outcome (A W : Type 0) : Type 0 where
  finished : Context A W → Outcome A W
  panicked : Context A W → Outcome A W

abbrev pub Handler : Type 0 → Type 0 → Type 0
Handler A W = (Context A W → Outcome A W) → Context A W → Outcome A W

unfoldable pub contains : List String → String → Bool
contains [] item = false
contains (s ∷ slice) item = if str_eq s item then true else contains slice item

-- The loop of `joinStrings`, behind the first text.
unfoldable pub join_rest : String → List String → String → String
join_rest result [] separator = result
join_rest result (s ∷ slice) separator =
    join_rest (concat result (concat separator s)) slice separator

unfoldable pub join_strings : List String → String → String
unfolding join_rest
join_strings [] separator = ""
join_strings (s ∷ slice) separator = join_rest s slice separator

-- `c.Header`, which takes a header away where the value is empty.
abbrev pub set_header : String → String → Dict String → Dict String
set_header key value h = if str_eq value "" then delete key h else insert key value h

module _ {A W : Type 0} where
  abbrev pub header : String → String → Context A W → Context A W
  header key value c = record c { headers = set_header key value c.headers }

  -- A status is written once.
  abbrev pub write_status : ℕ → Context A W → Context A W
  write_status code c = record c { status = elim c.status [ none ↦ some code | some s ↦ some s ] }

  abbrev pub entry_of : Context A W → Entry
  entry_of c = record {
    method = c.request.method;
    path = c.request.path;
    status = c.status;
    request_id = c.request_id;
  }

  -- What stands behind a call of `Next`, which a panic skips.
  unfoldable pub behind : (Context A W → Context A W) → Outcome A W → Outcome A W
  behind f (finished c) = finished (f c)
  behind f (panicked c) = panicked c

  unfoldable pub request_id : String → Handler A W
  request_id id rest c = rest (header "X-Request-ID" id (record c { request_id = id }))

  unfoldable pub logger : Handler A W
  unfolding behind
  logger rest c = behind (λ c. record c { logged = entry_of c ∷ c.logged }) (rest c)

  unfoldable pub recovered : Outcome A W → Outcome A W
  recovered (finished c) = finished c
  recovered (panicked c) = finished (write_status 500 c)

  unfoldable pub recovery : Handler A W
  unfolding recovered
  recovery rest c = recovered (rest c)

  -- The flag says whether there is a metrics manager.
  unfoldable pub metrics : Bool → Handler A W
  unfolding behind
  metrics present rest c =
      behind (λ c. if present then record c { recorded = entry_of c ∷ c.recorded } else c) (rest c)

  unfoldable pub cors_origin : CorsConfig → Context A W → Context A W
  unfolding contains
  cors_origin cfg c =
      if not (str_eq c.request.origin "") && contains cfg.allowed_origins c.request.origin
      then header "Access-Control-Allow-Origin" c.request.origin c
      else if contains cfg.allowed_origins "*"
      then header "Access-Control-Allow-Origin" "*" c
      else c

  unfoldable pub cors_headers : CorsConfig → Context A W → Context A W
  unfolding cors_origin join_strings
  cors_headers cfg c =
      let with_origin = if ltb 0 (length cfg.allowed_origins) then cors_origin cfg c else c in
      let with_methods =
        if ltb 0 (length cfg.allowed_methods)
        then header "Access-Control-Allow-Methods" (join_strings cfg.allowed_methods ", ")
            with_origin
        else with_origin in
      let with_headers =
        if ltb 0 (length cfg.allowed_headers)
        then header "Access-Control-Allow-Headers" (join_strings cfg.allowed_headers ", ")
            with_methods
        else with_methods in
      header "Access-Control-Max-Age" "86400"
        (header "Access-Control-Allow-Credentials" "true" with_headers)

  unfoldable pub cors : CorsConfig → Handler A W
  unfolding cors_headers
  cors cfg rest c =
      let c' = cors_headers cfg c in
      if str_eq c.request.method "OPTIONS" then finished (write_status 204 c') else rest c'

  -- The user of the context, or else the client's address.
  unfoldable pub limit_key : Context A W → String
  limit_key c = elim c.user [
    | absent ↦ c.request.client_ip
    | other ↦ c.request.client_ip
    | claims u ↦ if str_eq u.user_id "" then c.request.client_ip else u.user_id
  ]

  -- The end of `RateLimit`, on whether the check failed and what it allowed.
  unfoldable pub limit_verdict : {E : Type 0} → Option E → Bool → Handler A W
  limit_verdict (some e) allowed rest c = finished (write_status 500 c)
  limit_verdict none false rest c = finished (
      write_status 429 (
        header "Retry-After" "60"
          (header "X-RateLimit-Remaining" "0" (header "X-RateLimit-Limit" "100" c))))
  limit_verdict none true rest c = rest c

  unfoldable pub rate_limit : {E : Type 0} → Algorithm A W E → Handler A W
  unfolding limit_key limit_verdict
  rate_limit alg rest c =
      let (limiter, shared, allowed, failure) = check_limit alg c.limiter (limit_key c) c.shared in
      limit_verdict failure allowed rest (record c { limiter = limiter; shared = shared })

  -- An access check as a handler.
  unfoldable pub decide : Verdict → Handler A W
  decide (next u) rest c = rest (record c { user = u })
  decide (aborted code) rest c = finished (write_status code c)

  unfoldable pub jwt_handler : {M : Type 0} → Jwt M → JwtAuth → ℤ → Handler A W
  unfolding decide
  jwt_handler jwt j now rest c = decide (jwt_auth jwt j c.request.authorization now) rest c

  unfoldable pub role_handler : String → Handler A W
  unfolding decide
  role_handler role rest c = decide (require_role role c.user) rest c

  -- `Chain.Use` and the run of a chain with a route's handler behind it.
  abbrev pub use_handler : List (Handler A W) → Handler A W → List (Handler A W)
  use_handler chain h = chain ++ h ∷ []

  unfoldable pub run_chain :
      List (Handler A W) → (Context A W → Outcome A W) → Context A W → Outcome A W
  run_chain [] route c = route c
  run_chain (h ∷ chain) route c = h (run_chain chain route) c

-- What the middleware manager has; the flag says whether there is a metrics manager.
pub record Manager : Type 0 where
  pub config : Config
  pub jwt_auth : JwtAuth
  pub has_metrics : Bool

module _ {A W E : Type 0} (alg : Algorithm A W E) where
  unfoldable pub create_default_chain : Manager → String → List (Handler A W)
  create_default_chain m id =
      let core =
        use_handler (use_handler (use_handler (use_handler [] (request_id id)) logger) recovery)
          (metrics m.has_metrics) in
      let with_cors =
        if m.config.server.cors.enabled
        then use_handler core (cors m.config.server.cors)
        else core in
      if m.config.rate_limit.enabled then use_handler with_cors (rate_limit alg) else with_cors

  module _ {M : Type 0} (jwt : Jwt M) where
    unfoldable pub create_auth_chain : Manager → String → ℤ → List (Handler A W)
    unfolding create_default_chain
    create_auth_chain m id now =
        use_handler (create_default_chain m id) (jwt_handler jwt m.jwt_auth now)

    unfoldable pub create_admin_chain : Manager → String → ℤ → List (Handler A W)
    unfolding create_default_chain
    create_admin_chain m id now =
        use_handler (use_handler (create_default_chain m id) (jwt_handler jwt m.jwt_auth now))
          (role_handler "admin")
