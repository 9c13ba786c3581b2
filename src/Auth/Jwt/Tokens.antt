-- ===== src/Auth/Jwt/Tokens.antt =====
-- How the tokens of internal/auth/jwt.go go through a header, their validation and their renewal.
use apigateway_distributed_s.Base.{
  ◌≡◌, refl, true, some, String, List, arith, concat, Dict, if◌then◌else◌,
}
use apigateway_distributed_s.Base.Int.{ℤ, ◌+ℤ◌, ◌-ℤ◌, ◌≤ℤ◌, ltb_ℤ}
use apigateway_distributed_s.Auth.Text.{
  no_space, split-no_space, split-bearer, trim_prefix-no_space, bearer_not_empty,
}
use apigateway_distributed_s.Auth.Jwt.{
  Jwt, JwtAuth, not_close_to_expiration, ok, error, claims_at, key_of, generate_token,
  validate_token, renew, refresh_token, extract_token_from_header,
}

-- A header of the scheme Bearer gives its token, if this has no space.
pub extract_token_from_header-bearer :
    (token : String)
    → no_space token ≡ true
    → extract_token_from_header (concat "Bearer " token) ≡ ok token
unfolding extract_token_from_header
extract_token_from_header-bearer token h =
    rw
      (
        split-bearer token,
        split-no_space token h,
        bearer_not_empty token,
        extract_token_from_header,
      )
      refl

module _ {M : Type 0} (jwt : Jwt M) where
  signed :
      (j : JwtAuth) (u n e : String) (roles : List String) (data_of : Dict String) (now : ℤ)
      (token : String)
      → generate_token jwt j u n e roles data_of now ≡ ok token
      → jwt.signed_string jwt.hs256 (claims_at jwt j u n e roles data_of now) j.secret ≡ some token
  unfolding generate_token
  signed j u n e roles data_of now token made = ground arith

  -- A token that was generated at `now` is valid at every time from its date to before its expiry,
  -- both as the library rounds them, and gives back what it was generated from.
  pub validate_token-generate_token :
      (j : JwtAuth) (u n e : String) (roles : List String) (data_of : Dict String) (now later : ℤ)
      (token : String)
      → generate_token jwt j u n e roles data_of now ≡ ok token
      → jwt.new_numeric_date now ≤ℤ later
      → ltb_ℤ later (jwt.new_numeric_date (now +ℤ j.expiration_time)) ≡ true
      → validate_token jwt j token later ≡ ok (claims_at jwt j u n e roles data_of now)
  unfolding validate_token
  validate_token-generate_token j u n e roles data_of now later token made begun going =
      let c = claims_at jwt j u n e roles data_of now in
      let s = signed j u n e roles data_of now token made in
      let key : key_of jwt j jwt.hs256 ≡ some j.secret = rw jwt.hs256_hmac refl in
      let parsed =
        jwt.parse_with_claims-signed_string jwt.hs256 c j.secret token (key_of jwt j) later
          (jwt.new_numeric_date now) (jwt.new_numeric_date (now +ℤ j.expiration_time)) s key refl
          begun refl going in
      rw
        (
          trim_prefix-no_space token (jwt.no_space-signed_string jwt.hs256 c j.secret token s),
          parsed,
          validate_token,
        )
        refl

  -- A header with a generated token gives the token.
  pub extract-generate_token :
      (j : JwtAuth) (u n e : String) (roles : List String) (data_of : Dict String) (now : ℤ)
      (token : String)
      → generate_token jwt j u n e roles data_of now ≡ ok token
      → extract_token_from_header (concat "Bearer " token) ≡ ok token
  extract-generate_token j u n e roles data_of now token made =
      let c = claims_at jwt j u n e roles data_of now in
      let s = signed j u n e roles data_of now token made in
      extract_token_from_header-bearer token
        (jwt.no_space-signed_string jwt.hs256 c j.secret token s)

  -- A valid token that was generated at `now` is renewed exactly from its refresh window on: before
  -- it the renewal is refused, and from it on it gives what a new token for the same user gives.
  pub refresh_token-generate_token :
      (j : JwtAuth) (u n e : String) (roles : List String) (data_of : Dict String)
      (now validated later again : ℤ) (token : String)
      → generate_token jwt j u n e roles data_of now ≡ ok token
      → jwt.new_numeric_date now ≤ℤ validated
      → ltb_ℤ validated (jwt.new_numeric_date (now +ℤ j.expiration_time)) ≡ true
      → refresh_token jwt j token validated later again ≡ (
          if ltb_ℤ later (jwt.new_numeric_date (now +ℤ j.expiration_time) -ℤ j.refresh_time)
          then error not_close_to_expiration
          else generate_token jwt j u n e roles data_of again)
  unfolding refresh_token renew
  refresh_token-generate_token j u n e roles data_of now validated later again token made begun
        going =
      rw
        (
          validate_token-generate_token j u n e roles data_of now validated token made begun going,
          refresh_token,
        )
        refl
