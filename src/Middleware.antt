-- ===== src/Middleware.antt =====
-- The access checks of internal/middleware/chain.go: JWTAuth, RequireRole and RequireAnyRole. A
-- handler either passes the request on, with the context it leaves, or aborts with a status. gin is
-- left to pass a request on to the next handler exactly where the code calls `Next`.
pub mod Access
pub mod Chain
use apigateway_distributed_s.Base.{
  Bool, List, ℕ, Option, String, if◌then◌else◌, none, not, some, str_eq,
}
use apigateway_distributed_s.Base.Int.{ℤ}
use apigateway_distributed_s.Auth.Jwt.{
  Claims, Jwt, JwtAuth, Result, error, extract_token_from_header, has_any_role, has_role, ok,
  validate_token,
}

-- The value that the context holds under "user": none, one of another type, or the claims.
pub data User : Type 0 where
  absent : User
  other : User
  claims : Claims → User

pub data Verdict : Type 0 where
  next : User → Verdict
  aborted : ℕ → Verdict

abbrev pub status_unauthorized : ℕ
status_unauthorized = 401

abbrev pub status_forbidden : ℕ
status_forbidden = 403

abbrev pub status_internal_server_error : ℕ
status_internal_server_error = 500

abbrev pub passed : Result Claims → Verdict
passed (ok c) = next (claims c)
passed (error e) = aborted status_unauthorized

module _ {M : Type 0} (jwt : Jwt M) where
  -- The end of `JWTAuth`, on what the extraction returned.
  unfoldable pub check_token : JwtAuth → Result String → ℤ → Verdict
  check_token j (error e) now = aborted status_unauthorized
  check_token j (ok token) now = passed (validate_token jwt j token now)

  unfoldable pub jwt_auth : JwtAuth → String → ℤ → Verdict
  unfolding check_token
  jwt_auth j header now =
      if str_eq header ""
      then aborted status_unauthorized
      else check_token j (extract_token_from_header header) now

unfoldable pub require_role : String → User → Verdict
require_role role absent = aborted status_unauthorized
require_role role other = aborted status_internal_server_error
require_role role (claims c) =
    if not (has_role c role) then aborted status_forbidden else next (claims c)

unfoldable pub require_any_role : List String → User → Verdict
require_any_role roles absent = aborted status_unauthorized
require_any_role roles other = aborted status_internal_server_error
require_any_role roles (claims c) =
    if not (has_any_role c roles) then aborted status_forbidden else next (claims c)
