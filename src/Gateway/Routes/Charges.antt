-- ===== src/Gateway/Routes/Charges.antt =====
-- What a request of an admin or an api route has gone through.
use apigateway_distributed_s.Base.{◌≡◌, refl, String}
use apigateway_distributed_s.Base.Int.{ℤ}
use apigateway_distributed_s.Auth.Jwt.{Jwt}
use apigateway_distributed_s.RateLimit.Manager as RateLimit
use apigateway_distributed_s.RateLimit.Manager.{Algorithm}
use apigateway_distributed_s.Middleware.{absent}
use apigateway_distributed_s.Middleware.Chain.{
  Request, Context, Manager, run_chain, create_default_chain, create_auth_chain, create_admin_chain,
}
use apigateway_distributed_s.Middleware.Chain.Guards.{Route, Came, append-ChainGuards}
use apigateway_distributed_s.Middleware.Chain.Admission.{
  After, Admitted, Authenticated, default-ChainGuards, create_admin_chain-Admitted,
  create_auth_chain-Authenticated,
}
use apigateway_distributed_s.Gateway.Routes.{admin_route, api_route}

module _ {A W E M : Type 0} (alg : Algorithm A W E) (r : Request) (l : RateLimit.Manager A) (s : W)
    (m : Manager) (id id' : String) (jwt : Jwt M) (now : ℤ) where
  -- The limiter allowed the request once and left a context, and again from there.
  abbrev pub TwiceCharged : (RateLimit.Manager A → W → Context A W → Type 0) → Context A W → Type 0
  TwiceCharged Q c =
      (between : Context A W) × After alg r l s m.config.rate_limit.enabled absent between
      × Q between.limiter between.shared c

  came :
      (c : Context A W)
      → After alg r l s m.config.rate_limit.enabled absent c
      → Came r absent c.limiter c.shared c
  came c a = record {
    same_request = a.same_request;
    same_user = a.same_user;
    same_limiter = refl;
    same_shared = refl;
  }

  -- For a request that comes without a user, the handler of an admin route is reached only after
  -- the rate limiter, if it is enabled, allowed the address of the client twice, each time counting
  -- it, and with the claims of a valid token of the request that have the role admin.
  pub admin_route-TwiceCharged :
      (k k' : Route A W)
      → ((c : Context A W) → TwiceCharged (λ l s. Admitted alg r l s m id' jwt now) c → k c ≡ k' c)
      → (c : Context A W) → Came r absent l s c
      → run_chain (admin_route alg m id jwt now id') k c
        ≡ run_chain (admin_route alg m id jwt now id') k' c
  unfolding admin_route
  admin_route-TwiceCharged =
      append-ChainGuards (Came r absent l s) (After alg r l s m.config.rate_limit.enabled absent)
        (TwiceCharged (λ l s. Admitted alg r l s m id' jwt now)) (create_default_chain alg m id)
        (create_admin_chain alg jwt m id' now) (default-ChainGuards alg r l s m id)
        (λ k k' agree c a.
          create_admin_chain-Admitted alg r c.limiter c.shared m id' jwt now k k'
            (λ c' q. agree c' (c, a, q)) c (came c a))

  -- The same for an api route, without the role.
  pub api_route-TwiceCharged :
      (k k' : Route A W)
      → ((c : Context A W)
          → TwiceCharged (λ l s. Authenticated alg r l s m id' jwt now) c
          → k c ≡ k' c)
      → (c : Context A W) → Came r absent l s c
      → run_chain (api_route alg m id jwt now id') k c
        ≡ run_chain (api_route alg m id jwt now id') k' c
  unfolding api_route
  api_route-TwiceCharged =
      append-ChainGuards (Came r absent l s) (After alg r l s m.config.rate_limit.enabled absent)
        (TwiceCharged (λ l s. Authenticated alg r l s m id' jwt now))
        (create_default_chain alg m id) (create_auth_chain alg jwt m id' now)
        (default-ChainGuards alg r l s m id)
        (λ k k' agree c a.
          create_auth_chain-Authenticated alg r c.limiter c.shared m id' jwt now k k'
            (λ c' q. agree c' (c, a, q)) c (came c a))
