-- ===== src/Middleware/Chain/Admission.antt =====
-- What a request has gone through when the handler of its route gets it.
use apigateway_distributed_s.Base.{
  ◌≡◌, refl, ap, subst, inl, inr, Bool, true, false, Bool-cases, Option, none, some, List, String,
  if◌then◌else◌,
}
use apigateway_distributed_s.Base.Int.{ℤ}
use apigateway_distributed_s.Auth.Jwt.{
  Claims, Jwt, ok, extract_token_from_header, validate_token, has_role,
}
use apigateway_distributed_s.RateLimit.Manager as RateLimit
use apigateway_distributed_s.RateLimit.Manager.{Algorithm, check_limit}
use apigateway_distributed_s.Middleware.{
  User, absent, claims, Verdict, next, aborted, jwt_auth, require_role,
}
use apigateway_distributed_s.Middleware.Access.{jwt_auth-next}
use apigateway_distributed_s.Middleware.Chain.{
  Request, Context, Handler, cors, limit_key, limit_verdict, rate_limit, decide, jwt_handler,
  role_handler, use_handler, run_chain, Manager, create_default_chain, create_auth_chain,
  create_admin_chain,
}
use apigateway_distributed_s.Middleware.Chain.Guards.{
  Route, Guards, ChainGuards, use_handler-ChainGuards, Came, cors-Guards, core, core-Guards,
}

module _ {A W E : Type 0} (alg : Algorithm A W E) (r : Request) (l : RateLimit.Manager A)
    (s : W) where
  -- The limiter was asked for the client's address and allowed it, or is not in the chain.
  abbrev pub Charged : Bool → Context A W → Type 0
  Charged true c = check_limit alg l r.client_ip s ≡ (c.limiter, c.shared, true, none)
  Charged false c = (c.limiter ≡ l) × (c.shared ≡ s)

  pub record After (limited : Bool) (u : User) (c : Context A W) : Type 0 where
    pub same_request : c.request ≡ r
    pub same_user : c.user ≡ u
    pub charged : Charged limited c

  Came-After : (c : Context A W) → Came r absent l s c → After false absent c
  Came-After c p = record {
    same_request = p.same_request;
    same_user = p.same_user;
    charged = (p.same_limiter, p.same_shared);
  }

  limit_verdict-After :
      (k k' : Route A W)
      → ((c : Context A W) → After true absent c → k c ≡ k' c)
      → (c : Context A W) → Came r absent l s c
      → (x : RateLimit.Manager A × W × Bool × Option _) → check_limit alg l r.client_ip s ≡ x
      → limit_verdict x.3 x.2 k (record c { limiter = x.0; shared = x.1 })
        ≡ limit_verdict x.3 x.2 k' (record c { limiter = x.0; shared = x.1 })
  unfolding limit_verdict
  limit_verdict-After k k' agree c p (l', s', allowed, some e) h = refl
  limit_verdict-After k k' agree c p (l', s', false, none) h = refl
  limit_verdict-After k k' agree c p (l', s', true, none) h =
      agree _ (record { same_request = p.same_request; same_user = p.same_user; charged = h })

  rate_limit-Guards : Guards (Came r absent l s) (rate_limit alg) (After true absent)
  unfolding rate_limit limit_key
  rate_limit-Guards k k' agree c p =
      let key : limit_key c ≡ r.client_ip =
        rw p.same_user (ap (λ (r : Request). r.client_ip) p.same_request) in
      let same : check_limit alg l r.client_ip s
          ≡ check_limit alg c.limiter (limit_key c) c.shared =
        rw (key, p.same_limiter, p.same_shared) refl in
      limit_verdict-After k k' agree c p (check_limit alg c.limiter (limit_key c) c.shared) same

  module _ (m : Manager) (id : String) where
    abbrev Start : Context A W → Type 0
    Start = Came r absent l s

    chosen :
        (b : Bool) (x y : List (Handler A W))
        → ChainGuards Start x Start
        → ChainGuards Start y Start
        → ChainGuards Start (if b then x else y) Start
    chosen true x y g h = g
    chosen false x y g h = h

    limited :
        (b : Bool) (x : List (Handler A W))
        → ChainGuards Start x Start
        → ChainGuards Start (if b then use_handler x (rate_limit alg) else x) (After b absent)
    limited true x g =
        use_handler-ChainGuards Start Start (After true absent) x (rate_limit alg) g
          rate_limit-Guards
    limited false x g = λ k k' agree c p. g k k' (λ c p. agree c (Came-After c p)) c p

    pub default-ChainGuards :
        ChainGuards Start (create_default_chain alg m id) (After m.config.rate_limit.enabled absent)
    unfolding create_default_chain
    default-ChainGuards = limited m.config.rate_limit.enabled _ (
        chosen m.config.server.cors.enabled _ _
          (use_handler-ChainGuards Start Start Start (core m id) (cors m.config.server.cors)
            (core-Guards r absent l s m id) (cors-Guards r absent l s m.config.server.cors))
          (core-Guards r absent l s m id))

    module _ {M : Type 0} (jwt : Jwt M) (now : ℤ) where
      -- The claims are those of a token in the header Authorization that is valid.
      abbrev pub Verified : Claims → Type 0
      Verified cl =
          (token : String) × (extract_token_from_header r.authorization ≡ ok token)
          × (validate_token jwt m.jwt_auth token now ≡ ok cl)

      abbrev pub Authenticated : Context A W → Type 0
      Authenticated c =
          (cl : Claims) × After m.config.rate_limit.enabled (claims cl) c × Verified cl

      -- What the handler of an admin route can rely on.
      abbrev pub Admitted : Context A W → Type 0
      Admitted c =
          (cl : Claims) × After m.config.rate_limit.enabled (claims cl) c
          × Verified cl
          × (has_role cl "admin" ≡ true)

      relabel :
          (b : Bool) (c : Context A W) (u v : User)
          → After b u c
          → After b v (record c { user = v })
      relabel true c u v a = record {
        same_request = a.same_request;
        same_user = refl;
        charged = a.charged;
      }
      relabel false c u v a = record {
        same_request = a.same_request;
        same_user = refl;
        charged = a.charged;
      }

      decide-same :
          (v : Verdict) (k k' : Route A W) (c : Context A W)
          → ((u : User) → v ≡ next u → k (record c { user = u }) ≡ k' (record c { user = u }))
          → decide v k c ≡ decide v k' c
      unfolding decide
      decide-same (next u) k k' c h = h u refl
      decide-same (aborted code) k k' c h = refl

      jwt-Guards :
          Guards
            (After m.config.rate_limit.enabled absent)
            (jwt_handler jwt m.jwt_auth now)
            Authenticated
      unfolding jwt_handler
      jwt-Guards k k' agree c a = decide-same _ k k' c (λ u passes.
          let h : jwt_auth jwt m.jwt_auth r.authorization now ≡ next u =
            rw (← a.same_request) passes in
          let (token, cl, extracted, valid, is) =
            jwt_auth-next jwt m.jwt_auth r.authorization now u h in
          agree _ (
            cl,
            subst (λ v. After m.config.rate_limit.enabled v (record c { user = u })) is
                (relabel m.config.rate_limit.enabled c absent u a),
            (token, extracted, valid),
          ))

      role-Guards : Guards Authenticated (role_handler "admin") Admitted
      unfolding role_handler require_role
      role-Guards k k' agree c (cl, a, verified) =
          rw a.same_user (elim (Bool-cases (has_role cl "admin")) [
            | inr lacks ↦ rw lacks refl
            | inl holds ↦ rw holds (
                agree _ (
                  cl,
                  relabel m.config.rate_limit.enabled c (claims cl) (claims cl) a,
                  verified,
                  holds,
                ))
          ])

      -- For a request that comes without a user, what stands behind an admin chain is reached only after the rate limiter, if
      -- it is enabled, allowed the address of the client, and with the claims of a valid token of the
      -- request that have the role admin: two handlers that agree on such contexts give every request
      -- the same outcome.
      pub create_admin_chain-Admitted :
          (k k' : Route A W)
          → ((c : Context A W) → Admitted c → k c ≡ k' c)
          → (c : Context A W) → Came r absent l s c
          → run_chain (create_admin_chain alg jwt m id now) k c
            ≡ run_chain (create_admin_chain alg jwt m id now) k' c
      unfolding create_admin_chain
      create_admin_chain-Admitted =
          use_handler-ChainGuards Start Authenticated Admitted _ (role_handler "admin")
            (use_handler-ChainGuards Start (After m.config.rate_limit.enabled absent) Authenticated
              (create_default_chain alg m id) (jwt_handler jwt m.jwt_auth now) default-ChainGuards
              jwt-Guards)
            role-Guards

      -- The same for a route with authentication, whose handler is reached only with the claims of a
      -- valid token, and after the rate limiter was asked for the address of the client and not for
      -- the user.
      pub create_auth_chain-Authenticated :
          (k k' : Route A W)
          → ((c : Context A W) → Authenticated c → k c ≡ k' c)
          → (c : Context A W) → Came r absent l s c
          → run_chain (create_auth_chain alg jwt m id now) k c
            ≡ run_chain (create_auth_chain alg jwt m id now) k' c
      unfolding create_auth_chain
      create_auth_chain-Authenticated =
          use_handler-ChainGuards Start (After m.config.rate_limit.enabled absent) Authenticated
            (create_default_chain alg m id) (jwt_handler jwt m.jwt_auth now) default-ChainGuards
            jwt-Guards
