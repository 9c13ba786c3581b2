-- ===== src/Middleware/Access.antt =====
-- Which requests the access checks pass.
use mathlib.Core.List.{Memᴰ}
use apigateway_distributed_s.Base.{
  ◌≢◌, Bool, Option, none, some, false, if◌then◌else◌, [], ◌∷◌, Bool-cases, Dict, List, String,
  arith, concat, inl, inr, refl, str_eq, true, ◌≡◌, ◌⊎◌,
}
use apigateway_distributed_s.Base.Int.{ltb_ℤ, ◌+ℤ◌, ◌≤ℤ◌, ℤ}
use apigateway_distributed_s.Auth.Text.{bearer_not_empty, no_space, trim_prefix-no_space}
use apigateway_distributed_s.Auth.Jwt.{
  Claims, Jwt, JwtAuth, Result, claims_at, error, extract_token_from_header, generate_token,
  has_any_role, has_role, ok, validate_token,
}
use apigateway_distributed_s.Auth.Jwt.Roles.{has_any_role_iff}
use apigateway_distributed_s.Auth.Jwt.Tokens.{
  extract-generate_token, extract_token_from_header-bearer, validate_token-generate_token,
}
use apigateway_distributed_s.Middleware.{
  User, aborted, absent, other, check_token, claims, jwt_auth, next, passed, require_any_role,
  require_role, status_forbidden, status_unauthorized,
}

module _ {M : Type 0} (jwt : Jwt M) where
  -- A generated token in the header Authorization, at a time from its date to before its expiry,
  -- both as the library rounds them, passes JWTAuth, which leaves its claims for what follows.
  pub jwt_auth-generate_token :
      (j : JwtAuth) (u n e : String) (roles : List String) (data_of : Dict String) (now later : ℤ)
      (token : String)
      → generate_token jwt j u n e roles data_of now ≡ ok token
      → jwt.new_numeric_date now ≤ℤ later
      → ltb_ℤ later (jwt.new_numeric_date (now +ℤ j.expiration_time)) ≡ true
      → jwt_auth jwt j (concat "Bearer " token) later
        ≡ next (claims (claims_at jwt j u n e roles data_of now))
  unfolding jwt_auth
  jwt_auth-generate_token j u n e roles data_of now later token made begun going =
      rw
        (
          bearer_not_empty token,
          extract-generate_token jwt j u n e roles data_of now token made,
          jwt_auth,
          check_token,
          validate_token-generate_token jwt j u n e roles data_of now later token made begun going,
        )
        refl

  passed-next :
      (r : Result Claims) (u : User)
      → passed r ≡ next u
      → (c : Claims) × (r ≡ ok c) × (u ≡ claims c)
  passed-next (ok c) u h = (c, refl, ground arith)
  passed-next (error e) u h = absurd (ground arith)

  check_token-next :
      (j : JwtAuth) (r : Result String) (now : ℤ) (u : User)
      → check_token jwt j r now ≡ next u
      → (token : String) × (c : Claims) × (r ≡ ok token)
        × (validate_token jwt j token now ≡ ok c)
        × (u ≡ claims c)
  unfolding check_token
  check_token-next j (error e) now u h = absurd (ground arith)
  check_token-next j (ok token) now u h =
      let (c, valid, e) = passed-next (validate_token jwt j token now) u h in
      (token, c, refl, valid, e)

  -- JWTAuth passes a request on only with a header that has a token, which is valid at that moment,
  -- and leaves the claims of this token for what follows.
  pub jwt_auth-next :
      (j : JwtAuth) (header : String) (now : ℤ) (u : User)
      → jwt_auth jwt j header now ≡ next u
      → (token : String) × (c : Claims) × (extract_token_from_header header ≡ ok token)
        × (validate_token jwt j token now ≡ ok c)
        × (u ≡ claims c)
  unfolding jwt_auth
  jwt_auth-next j header now u h = elim (Bool-cases (str_eq header "")) [
    | inl e ↦ absurd (ground (arith, e))
    | inr e ↦ check_token-next j (extract_token_from_header header) now u (ground (arith, e))
  ]

  -- What the library makes of a token, with the secret as the key of the HMAC methods and no key of
  -- the others.
  abbrev pub parsed : JwtAuth → String → ℤ → Option (Claims × Bool)
  parsed j token now =
      jwt.parse_with_claims token (λ method. if jwt.is_hmac method then some j.secret else none) now

  passed_cases :
      (j : JwtAuth) (token : String) (now : ℤ) (o : Option (Claims × Bool))
      → no_space token ≡ true
      → parsed j token now ≡ o
      → ((c : Claims) × (o ≡ some (c, true))
          × (passed (validate_token jwt j token now) ≡ next (claims c)))
        ⊎ (((c : Claims) → o ≢ some (c, true))
            × (passed (validate_token jwt j token now) ≡ aborted status_unauthorized))
  unfolding validate_token
  passed_cases j token now none plain e =
      inr (λ c. ground arith, rw (trim_prefix-no_space token plain, validate_token, e) refl)
  passed_cases j token now (some (c, true)) plain e =
      inl (c, refl, rw (trim_prefix-no_space token plain, validate_token, e) refl)
  passed_cases j token now (some (c, false)) plain e =
      inr (λ c'. ground arith, rw (trim_prefix-no_space token plain, validate_token, e) refl)

  -- JWTAuth passes a request with the header `Bearer` and a token without a space exactly if the
  -- library parses the token as valid, where it gets the secret for the HMAC methods only; it
  -- leaves the parsed claims for what follows. Otherwise the status is 401.
  pub jwt_auth-cases :
      (j : JwtAuth) (token : String) (now : ℤ)
      → no_space token ≡ true
      → ((c : Claims) × (parsed j token now ≡ some (c, true))
          × (jwt_auth jwt j (concat "Bearer " token) now ≡ next (claims c)))
        ⊎ (((c : Claims) → parsed j token now ≢ some (c, true))
            × (jwt_auth jwt j (concat "Bearer " token) now ≡ aborted status_unauthorized))
  unfolding jwt_auth
  jwt_auth-cases j token now plain =
      rw
        (
          bearer_not_empty token,
          extract_token_from_header-bearer token plain,
          jwt_auth,
          check_token,
        )
        (passed_cases j token now (parsed j token now) plain refl)

-- A request with claims passes RequireAnyRole exactly when one of the claims' roles is asked for,
-- and is forbidden otherwise.
pub require_any_role-cases :
    (c : Claims) (roles : List String)
    → ((require_any_role roles (claims c) ≡ next (claims c))
        × ((r : String) × Memᴰ r roles × Memᴰ r c.roles))
      ⊎ ((require_any_role roles (claims c) ≡ aborted status_forbidden)
          × ((r : String) → Memᴰ r roles → Memᴰ r c.roles → ⊥))
unfolding require_any_role
require_any_role-cases c roles =
    let iff = has_any_role_iff c roles in
    elim (Bool-cases (has_any_role c roles)) [
      | inl e ↦ inl (rw (e, require_any_role) refl, iff.0 e)
      | inr e ↦
          inr (rw (e, require_any_role) refl, λ r m k. absurd (ground (arith, iff.1 (r, m, k))))
    ]

-- RequireRole does what RequireAnyRole does with the one role.
pub require_role-require_any_role :
    (role : String) (u : User) → require_role role u ≡ require_any_role (role ∷ []) u
unfolding require_role require_any_role has_any_role
require_role-require_any_role role absent = refl
require_role-require_any_role role other = refl
require_role-require_any_role role (claims c) = elim (Bool-cases (has_role c role)) [
  | inl e ↦ rw e refl
  | inr e ↦ rw e refl
]
