-- ===== src/Tests/Tokens.antt =====
-- The theorems on tokens, with a library that signs the claims of one login.
use apigateway_distributed_s.Base.{
  ◌≢◌, ◌⊎◌, ℕ, ◌≡◌, refl, sym, subst, inl, inr, Bool, true, false, ◌&&◌, Option, none, some, List,
  [], ◌∷◌, String, arith, ◌==◌, str_eq, eq_iff, Bool-cases, if◌then◌else◌, concat,
}
use apigateway_distributed_s.Base.Int.{ℤ, pos, negsuc, ◌+ℤ◌, ◌-ℤ◌, ◌≤ℤ◌, leb_ℤ, ltb_ℤ}
use apigateway_distributed_s.Auth.Text.{no_space, split, trim_prefix, strip}
use apigateway_distributed_s.Auth.Jwt.{
  extract_token_from_header, validate_token, Claims, Jwt, JwtAuth, ok, error,
  not_close_to_expiration, claims_at, generate_token, refresh_token,
}
use apigateway_distributed_s.Auth.Jwt.Tokens.{refresh_token-generate_token}
use apigateway_distributed_s.Middleware.{
  aborted, check_token, claims, jwt_auth, next, require_any_role, status_unauthorized,
  status_forbidden,
}
use apigateway_distributed_s.Middleware.Access.{
  jwt_auth-generate_token, jwt_auth-cases, parsed, require_any_role-cases,
}
use mathlib.Core.List.{Memᴰ}

abbrev pub auth : JwtAuth
auth = record {
  secret = "s";
  expiration_time = pos 3600;
  refresh_time = pos 600;
  issuer = "i";
  audience = "a";
  algorithm = "HS256";
}

-- The claims of the user `ann`, made at 1000.
abbrev ann : Claims
ann = record {
  user_id = "1";
  username = "ann";
  email = "e";
  roles = [];
  metadata = [];
  expires_at = some (pos 4600);
  issued_at = some (pos 1000);
  not_before = some (pos 1000);
  issuer = "i";
  audience = "a" ∷ [];
  subject = "1";
}

abbrev is_empty : {A : Type 0} → List A → Bool
is_empty [] = true
is_empty (x ∷ xs) = false

abbrev is_one : String → List String → Bool
is_one s [] = false
is_one s (x ∷ xs) = str_eq x s && is_empty xs

abbrev is_at : ℕ → Option ℤ → Bool
is_at n none = false
is_at n (some (pos m)) = m == n
is_at n (some (negsuc m)) = false

abbrev is_ann : Claims → Bool
is_ann c =
    str_eq c.user_id "1"
    && str_eq c.username "ann"
    && str_eq c.email "e"
    && is_empty c.roles
    && is_empty c.metadata
    && is_at 4600 c.expires_at
    && is_at 1000 c.issued_at
    && is_at 1000 c.not_before
    && str_eq c.issuer "i"
    && is_one "a" c.audience
    && str_eq c.subject "1"

is_empty_eq : {A : Type 0} (l : List A) → is_empty l ≡ true → l ≡ []
is_empty_eq [] h = refl
is_empty_eq (x ∷ xs) h = absurd (ground arith)

is_one_eq : (s : String) (l : List String) → is_one s l ≡ true → l ≡ s ∷ []
is_one_eq s [] h = absurd (ground arith)
is_one_eq s (x ∷ []) h = ground (arith, eq_iff x s)
is_one_eq s (x ∷ y ∷ ys) h = absurd (ground arith)

is_at_eq : (n : ℕ) (o : Option ℤ) → is_at n o ≡ true → o ≡ some (pos n)
is_at_eq n none h = absurd (ground arith)
is_at_eq n (some (pos m)) h = ground arith
is_at_eq n (some (negsuc m)) h = absurd (ground arith)

is_ann_eq : (c : Claims) → is_ann c ≡ true → c ≡ ann
is_ann_eq c h = ground (
  arith,
  eq_iff c.user_id "1",
  eq_iff c.username "ann",
  eq_iff c.email "e",
  is_empty_eq c.roles,
  is_empty_eq c.metadata,
  is_at_eq 4600 c.expires_at,
  is_at_eq 1000 c.issued_at,
  is_at_eq 1000 c.not_before,
  eq_iff c.issuer "i",
  is_one_eq "a" c.audience,
  eq_iff c.subject "1",
)

-- Its one signing method.
pub data Method : Type 0 where
  hmac : Method

abbrev sign : Method → Claims → String → Option String
sign m c secret = if is_ann c then some "t" else none

pub sign-ann :
    (m : Method) (c : Claims) (secret token : String)
    → sign m c secret ≡ some token
    → (c ≡ ann) × (str_eq token "t" ≡ true) × (no_space token ≡ true)
sign-ann m c secret token h = elim (Bool-cases (is_ann c)) [
  | inl e ↦ let t : token ≡ "t" = ground arith in (is_ann_eq c e, rw t refl, rw t refl)
  | inr e ↦ absurd (ground arith)
]

-- Its one token is `t`, whose dates it checks.
abbrev parse : String → (Method → Option String) → ℤ → Option (Claims × Bool)
parse token key now =
    if str_eq token "t" && leb_ℤ (pos 1000) now && ltb_ℤ now (pos 4600)
    then some (ann, true)
    else none

some_equal : (a b : ℤ) → ◌≡◌ {A = Option ℤ} (some a) (some b) → a ≡ b
some_equal a b h = ground arith

pub parse-sign :
    (m : Method) (c : Claims) (secret token : String) (key : Method → Option String)
    (now nbf exp : ℤ)
    → sign m c secret ≡ some token
    → key m ≡ some secret
    → c.not_before ≡ some nbf
    → nbf ≤ℤ now
    → c.expires_at ≡ some exp
    → ltb_ℤ now exp ≡ true
    → parse token key now ≡ some (c, true)
parse-sign m c secret token key now nbf exp h k b before e going =
    let (is, t, _) = sign-ann m c secret token h in
    let start : pos 1000 ≡ nbf =
      some_equal (pos 1000) nbf (subst (λ d. d.not_before ≡ some nbf) is b) in
    let end : pos 4600 ≡ exp =
      some_equal (pos 4600) exp (subst (λ d. d.expires_at ≡ some exp) is e) in
    let early : leb_ℤ (pos 1000) now ≡ true =
      subst (λ n. leb_ℤ n now ≡ true) (sym start) (ground arith) in
    let late : ltb_ℤ now (pos 4600) ≡ true = subst (λ n. ltb_ℤ now n ≡ true) (sym end) going in
    rw (is, t, early, late) refl

abbrev pub library : Jwt Method
library = record {
  hs256 = hmac;
  is_hmac = λ m. true;
  new_numeric_date = λ t. t;
  signed_string = sign;
  parse_with_claims = parse;
  parse_unverified = λ token. if str_eq token "t" then some ann else none;
  hs256_hmac = refl;
  no_space-signed_string = λ m c secret token h. (sign-ann m c secret token h).2;
  parse_with_claims-signed_string = parse-sign;
}

signed : generate_token library auth "1" "ann" "e" [] [] (pos 1000) ≡ ok "t"
unfolding generate_token ◌+ℤ◌
signed = refl

begun : library.new_numeric_date (pos 1000) ≤ℤ pos 2000
begun = omega arith

going : ltb_ℤ (pos 2000) (library.new_numeric_date (pos 1000 +ℤ auth.expiration_time)) ≡ true
unfolding ◌+ℤ◌
going = refl

jwt_auth-generate_token_example :
    jwt_auth library auth (concat "Bearer " "t") (pos 2000)
    ≡ next (claims (claims_at library auth "1" "ann" "e" [] [] (pos 1000)))
jwt_auth-generate_token_example =
    jwt_auth-generate_token library auth "1" "ann" "e" [] [] (pos 1000) (pos 2000) "t" signed begun
      going

jwt_auth-generate_token_run :
    jwt_auth library auth (concat "Bearer " "t") (pos 2000)
    ≡ next (claims (claims_at library auth "1" "ann" "e" [] [] (pos 1000)))
unfolding jwt_auth check_token extract_token_from_header validate_token split trim_prefix strip ◌+ℤ◌
jwt_auth-generate_token_run = refl

jwt_auth-cases_example :
    ((c : Claims) × (parsed library auth "t" (pos 2000) ≡ some (c, true))
      × (jwt_auth library auth (concat "Bearer " "t") (pos 2000) ≡ next (claims c)))
    ⊎ (((c : Claims) → parsed library auth "t" (pos 2000) ≢ some (c, true))
        × (jwt_auth library auth (concat "Bearer " "t") (pos 2000) ≡ aborted status_unauthorized))
jwt_auth-cases_example = jwt_auth-cases library auth "t" (pos 2000) refl

require_any_role-cases_example :
    ((require_any_role ("admin" ∷ []) (claims ann) ≡ next (claims ann))
      × ((r : String) × Memᴰ r ("admin" ∷ []) × Memᴰ r ann.roles))
    ⊎ ((require_any_role ("admin" ∷ []) (claims ann) ≡ aborted status_forbidden)
        × ((r : String) → Memᴰ r ("admin" ∷ []) → Memᴰ r ann.roles → ⊥))
require_any_role-cases_example = require_any_role-cases ann ("admin" ∷ [])

refresh_token-generate_token_example :
    refresh_token library auth "t" (pos 2000) (pos 2001) (pos 2002) ≡ (
      if ltb_ℤ
        (pos 2001)
        (library.new_numeric_date (pos 1000 +ℤ auth.expiration_time) -ℤ auth.refresh_time)
      then error not_close_to_expiration
      else generate_token library auth "1" "ann" "e" [] [] (pos 2002))
refresh_token-generate_token_example =
    refresh_token-generate_token library auth "1" "ann" "e" [] [] (pos 1000) (pos 2000) (pos 2001)
      (pos 2002) "t" signed begun going
