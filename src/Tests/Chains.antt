-- ===== src/Tests/Chains.antt =====
-- The theorems on the middleware chains at one request.
use apigateway_distributed_s.Base.{ℕ, ◌≡◌, refl, ◌⊎◌, true, none, [], ◌∷◌}
use apigateway_distributed_s.Base.Int.{pos}
use apigateway_distributed_s.Auth.Jwt.{Claims}
use apigateway_distributed_s.RateLimit.Manager as RateLimit
use apigateway_distributed_s.Middleware.{absent, other, claims}
use apigateway_distributed_s.Middleware.Chain.{
  Request, Context, finished, panicked, write_status, Manager, run_chain, create_default_chain,
}
use apigateway_distributed_s.Middleware.Chain.Guards.{Route}
use apigateway_distributed_s.Middleware.Chain.Ends.{
  labelled, logged_once, recorded_once, inner, run_chain-create_default_chain,
}
use apigateway_distributed_s.Gateway.Routes.{admin_route}
use apigateway_distributed_s.Gateway.Routes.Charges.{admin_route-TwiceCharged}
use apigateway_distributed_s.Tests.Limiters.{tokens}
use apigateway_distributed_s.Tests.Services.{sample}
use apigateway_distributed_s.Tests.Tokens.{auth, library}

abbrev manager : Manager
manager = record { config = sample; jwt_auth = auth; has_metrics = true }

abbrev arrival : Request
arrival = record {
  method = "GET";
  path = "/admin/config";
  origin = "";
  authorization = "Bearer t";
  client_ip = "10.0.0.1";
}

abbrev limiter : RateLimit.Manager ℕ
limiter = record { algorithms = ("default", 3) ∷ []; config = sample.rate_limit }

abbrev context : Context ℕ Unit
context = record {
  request = arrival;
  user = absent;
  request_id = "";
  headers = [];
  status = none;
  limiter = limiter;
  shared = tt;
  logged = [];
  recorded = [];
}

-- A route that panics without claims, as that of the profile does, and one that does not.
abbrev profile : Route ℕ Unit
profile c = elim c.user [
  | absent ↦ panicked c
  | other ↦ panicked c
  | claims u ↦ finished (write_status 200 c)
]

abbrev page : Route ℕ Unit
page c = finished (write_status 200 c)

profile_at : (c : Context ℕ Unit) (cl : Claims) → c.user ≡ claims cl → profile c ≡ page c
profile_at c cl h = rw h refl

admin_route-TwiceCharged_example :
    run_chain (admin_route tokens manager "id" library (pos 2000) "again") profile context
    ≡ run_chain (admin_route tokens manager "id" library (pos 2000) "again") page context
admin_route-TwiceCharged_example =
    admin_route-TwiceCharged tokens arrival limiter tt manager "id" "again" library (pos 2000)
      profile page (λ c a. profile_at c a.2.0 a.2.1.same_user) context
      (record { same_request = refl; same_user = refl; same_limiter = refl; same_shared = refl })

run_chain-create_default_chain_example :
    (let result = run_chain (create_default_chain tokens manager "id") profile context in
      let outcome =
        run_chain
          (inner manager "id" tokens sample.server.cors.enabled sample.rate_limit.enabled)
          profile
          (labelled manager "id" context) in
      ((c' : Context ℕ Unit) × (outcome ≡ finished c')
        × (result ≡ finished (logged_once manager "id" (recorded_once manager "id" c'))))
      ⊎ ((c' : Context ℕ Unit) × (outcome ≡ panicked c')
          × (result ≡ finished (logged_once manager "id" (write_status 500 c')))))
run_chain-create_default_chain_example =
    run_chain-create_default_chain manager "id" tokens profile context
