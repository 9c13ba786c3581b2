-- ===== src/Middleware/Chain/Guards.antt =====
-- What the chains let through to the handler of a route. That a handler is reached only in some
-- contexts is said by comparison: two continuations that agree there give the same outcome.
use apigateway_distributed_s.Base.{
  ◌≡◌, refl, sym, ap, ◌∙◌, inl, inr, Bool, true, false, not, ◌&&◌, Bool-cases, List, [], ◌∷◌, ◌++◌,
  String, str_eq, if◌then◌else◌, ltb, length, ltb, length,
}
use apigateway_distributed_s.Config.Types.{CorsConfig}
use apigateway_distributed_s.RateLimit.Manager as RateLimit
use apigateway_distributed_s.RateLimit.Manager.{Algorithm, check_limit}
use apigateway_distributed_s.Middleware.{User}
use apigateway_distributed_s.Middleware.Chain.{
  Request, Context, Outcome, Handler, behind, request_id, logger, recovered, recovery, metrics,
  cors, cors_headers, cors_origin, contains, header, join_strings, use_handler, run_chain, Manager,
}

abbrev pub Route : Type 0 → Type 0 → Type 0
Route A W = Context A W → Outcome A W

module _ {A W : Type 0} where
  -- From contexts of the first kind a handler passes on only contexts of the second.
  abbrev pub Guards : (Context A W → Type 0) → Handler A W → (Context A W → Type 0) → Type 0
  Guards P h Q =
      (k k' : Route A W)
      → ((c : Context A W) → Q c → k c ≡ k' c)
      → (c : Context A W) → P c
      → h k c ≡ h k' c

  abbrev pub ChainGuards :
      (Context A W → Type 0) → List (Handler A W) → (Context A W → Type 0) → Type 0
  ChainGuards P chain Q = Guards P (run_chain chain) Q

  pub nothing-ChainGuards : (P : Context A W → Type 0) → ChainGuards P [] P
  unfolding run_chain
  nothing-ChainGuards P k k' agree c p = agree c p

  pub run_chain-append :
      (chain more : List (Handler A W)) (k : Route A W) (c : Context A W)
      → run_chain (chain ++ more) k c ≡ run_chain chain (run_chain more k) c
  unfolding run_chain
  run_chain-append [] more k c = refl
  run_chain-append (g ∷ chain) more k c = λ i. g (λ c. run_chain-append chain more k c i) c

  pub append-ChainGuards :
      (P Q R : Context A W → Type 0) (chain more : List (Handler A W))
      → ChainGuards P chain Q
      → ChainGuards Q more R
      → ChainGuards P (chain ++ more) R
  append-ChainGuards P Q R chain more g b k k' agree c p =
      run_chain-append chain more k c
      ∙ g (run_chain more k) (run_chain more k') (λ c q. b k k' agree c q) c p
      ∙ sym (run_chain-append chain more k' c)

  pub use_handler-ChainGuards :
      (P Q R : Context A W → Type 0) (chain : List (Handler A W)) (h : Handler A W)
      → ChainGuards P chain Q
      → Guards Q h R
      → ChainGuards P (use_handler chain h) R
  unfolding run_chain
  use_handler-ChainGuards P Q R chain h g b =
      append-ChainGuards P Q R chain (h ∷ []) g (λ k k' agree c q. b k k' agree c q)

  -- The handlers that act behind `Next` pass on what they get.
  module _ (P : Context A W → Type 0) where
    pub logger-Guards : Guards P logger P
    unfolding logger
    logger-Guards k k' agree c p = ap (behind _) (agree c p)

    pub recovery-Guards : Guards P recovery P
    unfolding recovery
    recovery-Guards k k' agree c p = ap recovered (agree c p)

    pub metrics-Guards : (present : Bool) → Guards P (metrics present) P
    unfolding metrics
    metrics-Guards present k k' agree c p = ap (behind _) (agree c p)

-- A context that differs from another in its headers only.
module _ {A W : Type 0} (c : Context A W) where
  abbrev pub OnlyHeaders : Context A W → Type 0
  OnlyHeaders x = x ≡ record c { headers = x.headers }

  OnlyHeaders-header : (k v : String) (x : Context A W) → OnlyHeaders x → OnlyHeaders (header k v x)
  OnlyHeaders-header k v x e = ap (header k v) e

  OnlyHeaders-if :
      (b : Bool) (x y : Context A W)
      → OnlyHeaders x
      → OnlyHeaders y
      → OnlyHeaders (if b then x else y)
  OnlyHeaders-if true x y e f = e
  OnlyHeaders-if false x y e f = f

  cors_origin-OnlyHeaders : (cfg : CorsConfig) → OnlyHeaders (cors_origin cfg c)
  unfolding cors_origin
  cors_origin-OnlyHeaders cfg =
      OnlyHeaders-if
        (not (str_eq c.request.origin "") && contains cfg.allowed_origins c.request.origin)
        (header "Access-Control-Allow-Origin" c.request.origin c) _ refl
        (OnlyHeaders-if (contains cfg.allowed_origins "*")
          (header "Access-Control-Allow-Origin" "*" c) c refl refl)

  pub cors_headers-OnlyHeaders : (cfg : CorsConfig) → OnlyHeaders (cors_headers cfg c)
  unfolding cors_headers
  cors_headers-OnlyHeaders cfg =
      let with_origin = if ltb 0 (length cfg.allowed_origins) then cors_origin cfg c else c in
      let named_methods =
        header "Access-Control-Allow-Methods" (join_strings cfg.allowed_methods ", ") with_origin in
      let with_methods =
        if ltb 0 (length cfg.allowed_methods) then named_methods else with_origin in
      let named_headers =
        header "Access-Control-Allow-Headers" (join_strings cfg.allowed_headers ", ")
          with_methods in
      let origin =
        OnlyHeaders-if (ltb 0 (length cfg.allowed_origins)) (cors_origin cfg c) c
          (cors_origin-OnlyHeaders cfg) refl in
      let methods =
        OnlyHeaders-if (ltb 0 (length cfg.allowed_methods)) named_methods with_origin
          (OnlyHeaders-header "Access-Control-Allow-Methods" (join_strings cfg.allowed_methods ", ")
            with_origin origin)
          origin in
      let all =
        OnlyHeaders-if (ltb 0 (length cfg.allowed_headers)) named_headers with_methods
          (OnlyHeaders-header "Access-Control-Allow-Headers" (join_strings cfg.allowed_headers ", ")
            with_methods methods)
          methods in
      OnlyHeaders-header "Access-Control-Max-Age" "86400" _
        (OnlyHeaders-header "Access-Control-Allow-Credentials" "true" _ all)

module _ {A W : Type 0} (m : Manager) (id : String) where
  abbrev pub core : List (Handler A W)
  core =
      use_handler (use_handler (use_handler (use_handler [] (request_id id)) logger) recovery)
        (metrics m.has_metrics)

-- A context with this request, user and limiter, as it is before the rate limit.
pub record Came {A W : Type 0} (r : Request) (u : User) (l : RateLimit.Manager A) (s : W)
    (c : Context A W) : Type 0 where
  pub same_request : c.request ≡ r
  pub same_user : c.user ≡ u
  pub same_limiter : c.limiter ≡ l
  pub same_shared : c.shared ≡ s

module _ {A W : Type 0} (r : Request) (u : User) (l : RateLimit.Manager A) (s : W) where
  request_id-Guards : (id : String) → Guards (Came r u l s) (request_id id) (Came r u l s)
  unfolding request_id
  request_id-Guards id k k' agree c p = agree _ (record {
    same_request = p.same_request;
    same_user = p.same_user;
    same_limiter = p.same_limiter;
    same_shared = p.same_shared;
  })

  pub cors-Guards : (cfg : CorsConfig) → Guards (Came r u l s) (cors cfg) (Came r u l s)
  unfolding cors
  cors-Guards cfg k k' agree c p = elim (Bool-cases (str_eq c.request.method "OPTIONS")) [
    | inl e ↦ rw e refl
    | inr e ↦
        let same = cors_headers-OnlyHeaders c cfg in
        rw e (
          agree _ (record {
            same_request = ap (λ (c : Context A W). c.request) same ∙ p.same_request;
            same_user = ap (λ (c : Context A W). c.user) same ∙ p.same_user;
            same_limiter = ap (λ (c : Context A W). c.limiter) same ∙ p.same_limiter;
            same_shared = ap (λ (c : Context A W). c.shared) same ∙ p.same_shared;
          }))
  ]

  module _ (m : Manager) (id : String) where
    pub core-Guards : ChainGuards (Came r u l s) (core m id) (Came r u l s)
    core-Guards =
        let P = Came r u l s in
        use_handler-ChainGuards P P P _ (metrics m.has_metrics)
          (use_handler-ChainGuards P P P _ recovery
            (use_handler-ChainGuards P P P _ logger
              (use_handler-ChainGuards P P P [] (request_id id) (nothing-ChainGuards P)
                (request_id-Guards id))
              (logger-Guards P))
            (recovery-Guards P))
          (metrics-Guards P m.has_metrics)
