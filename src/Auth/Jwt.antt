-- ===== src/Auth/Jwt.antt =====
-- `JWTAuth` of internal/auth/jwt.go. The library github.com/golang-jwt/jwt is a parameter, and a
-- call's reading of the clock is an argument, in nanoseconds.
pub mod Roles
pub mod Tokens
use apigateway_distributed_s.Base.{
  ◌≡◌, Bool, true, false, ◌&&◌, not, Option, none, some, String, List, [], ◌∷◌, if◌then◌else◌,
  str_eq, Dict,
}
use apigateway_distributed_s.Base.Int.{ℤ, ◌+ℤ◌, ◌-ℤ◌, ◌≤ℤ◌, ltb_ℤ}
use apigateway_distributed_s.Auth.Text.{no_space, split, trim_prefix}

-- A pointer to a date is `none` where it is nil.
pub record Claims : Type 0 where
  pub user_id : String
  pub username : String
  pub email : String
  pub roles : List String
  pub metadata : Dict String
  pub expires_at : Option ℤ
  pub issued_at : Option ℤ
  pub not_before : Option ℤ
  pub issuer : String
  pub audience : List String
  pub subject : String

-- The library: `M` is its signing methods. `signed_string` is `NewWithClaims` and `SignedString`,
-- and `parse_with_claims` gives the claims and `Valid`, or an error. Documented: a token that was
-- signed with the key that the key function gives is parsed and valid from its `nbf` to before its
-- `exp`; a token is base64url texts and dots, so it has no space.
pub record Jwt (M : Type 0) : Type 0 where
  pub hs256 : M
  pub is_hmac : M → Bool
  pub new_numeric_date : ℤ → ℤ
  pub signed_string : M → Claims → String → Option String
  pub parse_with_claims : String → (M → Option String) → ℤ → Option (Claims × Bool)
  pub parse_unverified : String → Option Claims
  pub hs256_hmac : is_hmac hs256 ≡ true
  pub no_space-signed_string :
      (m : M) (c : Claims) (secret token : String)
      → signed_string m c secret ≡ some token
      → no_space token ≡ true
  pub parse_with_claims-signed_string :
      (m : M) (c : Claims) (secret token : String) (key : M → Option String) (now nbf exp : ℤ)
      → signed_string m c secret ≡ some token
      → key m ≡ some secret
      → c.not_before ≡ some nbf
      → nbf ≤ℤ now
      → c.expires_at ≡ some exp
      → ltb_ℤ now exp ≡ true
      → parse_with_claims token key now ≡ some (c, true)

pub record JwtAuth : Type 0 where
  pub secret : String
  pub expiration_time : ℤ
  pub refresh_time : ℤ
  pub issuer : String
  pub audience : String
  pub algorithm : String

-- `nil_dereference` is the panic of a claim without an expiry that is refreshed.
pub data AuthError : Type 0 where
  sign_failed : AuthError
  validation_failed : AuthError
  invalid_token : AuthError
  not_close_to_expiration : AuthError
  nil_dereference : AuthError
  empty_header : AuthError
  invalid_header_format : AuthError
  parse_failed : AuthError

pub data Result (A : Type 0) : Type 0 where
  ok : A → Result A
  error : AuthError → Result A

abbrev pub new_jwt_auth : String → ℤ → ℤ → String → String → String → JwtAuth
new_jwt_auth secret expiration_time refresh_time issuer audience algorithm = record {
  secret = secret;
  expiration_time = expiration_time;
  refresh_time = refresh_time;
  issuer = issuer;
  audience = audience;
  algorithm = algorithm;
}

module _ {M : Type 0} (jwt : Jwt M) where
  abbrev pub claims_at : JwtAuth → String → String → String → List String → Dict String → ℤ → Claims
  claims_at j user_id username email roles metadata now = record {
    user_id = user_id;
    username = username;
    email = email;
    roles = roles;
    metadata = metadata;
    expires_at = some (jwt.new_numeric_date (now +ℤ j.expiration_time));
    issued_at = some (jwt.new_numeric_date now);
    not_before = some (jwt.new_numeric_date now);
    issuer = j.issuer;
    audience = j.audience ∷ [];
    subject = user_id;
  }

  unfoldable pub generate_token :
      JwtAuth → String → String → String → List String → Dict String → ℤ → Result String
  generate_token j user_id username email roles metadata now =
      elim (jwt.signed_string jwt.hs256 (claims_at j user_id username email roles metadata now)
        j.secret) [ none ↦ error sign_failed | some token ↦ ok token ]

  -- The key function: a method that is not HMAC gets no key.
  abbrev pub key_of : JwtAuth → M → Option String
  key_of j method = if jwt.is_hmac method then some j.secret else none

  unfoldable pub validate_token : JwtAuth → String → ℤ → Result Claims
  unfolding trim_prefix
  validate_token j token now =
      elim (jwt.parse_with_claims (trim_prefix token "Bearer ") (key_of j) now) [
        | none ↦ error validation_failed
        | some (claims, valid) ↦ if valid then ok claims else error invalid_token
      ]

  -- The end of `RefreshToken`. It reads the clock again, for the new token.
  unfoldable pub renew : JwtAuth → Claims → Option ℤ → ℤ → ℤ → Result String
  unfolding generate_token ◌-ℤ◌
  renew j claims none now again = error nil_dereference
  renew j claims (some expiration_time) now again =
      if ltb_ℤ now (expiration_time -ℤ j.refresh_time)
      then error not_close_to_expiration
      else generate_token j claims.user_id claims.username claims.email claims.roles claims.metadata
          again

  -- `validated`, `now` and `again` are its three readings of the clock.
  unfoldable pub refresh_token : JwtAuth → String → ℤ → ℤ → ℤ → Result String
  unfolding validate_token renew
  refresh_token j token validated now again = elim (validate_token j token validated) [
    | error e ↦ error e
    | ok claims ↦ renew j claims claims.expires_at now again
  ]

  unfoldable pub get_token_info : String → Result Claims
  get_token_info token = elim (jwt.parse_unverified (trim_prefix token "Bearer ")) [
    | none ↦ error parse_failed
    | some claims ↦ ok claims
  ]

abbrev pub token_of : List String → Result String
token_of (scheme ∷ token ∷ []) =
    if str_eq scheme "Bearer" then ok token else error invalid_header_format
token_of parts = error invalid_header_format

unfoldable pub extract_token_from_header : String → Result String
unfolding split
extract_token_from_header header =
    if str_eq header "" then error empty_header else token_of (split header)

-- The loop of `HasRole`, which returns at the first role that is the one asked for.
unfoldable pub is_role_in : List String → String → Bool
is_role_in [] role = false
is_role_in (user_role ∷ rest) role =
    let found = is_role_in rest role in if str_eq user_role role then true else found

unfoldable pub has_role : Claims → String → Bool
unfolding is_role_in
has_role claims role = is_role_in claims.roles role

unfoldable pub has_any_role : Claims → List String → Bool
unfolding has_role
has_any_role claims [] = false
has_any_role claims (required ∷ rest) =
    let found = has_any_role claims rest in if has_role claims required then true else found

unfoldable pub has_all_roles : Claims → List String → Bool
unfolding has_role
has_all_roles claims [] = true
has_all_roles claims (required ∷ rest) =
    let all = has_all_roles claims rest in if not (has_role claims required) then false else all
