-- ===== src/Middleware/Chain/Ends.antt =====
-- How a request ends that goes through the default chain.
use apigateway_distributed_s.Base.{
  ◌≡◌, refl, ◌∙◌, ◌⊎◌, inl, inr, Bool, true, false, Bool-cases, List, [], ◌∷◌, String,
  if◌then◌else◌,
}
use apigateway_distributed_s.RateLimit.Manager.{Algorithm}
use apigateway_distributed_s.Middleware.Chain.{
  Context, Outcome, finished, panicked, Handler, behind, header, entry_of, write_status, request_id,
  logger, recovered, recovery, metrics, cors, rate_limit, use_handler, run_chain, Manager,
  create_default_chain,
}
use apigateway_distributed_s.Middleware.Chain.Guards.{Route, core}

Outcome-cases :
    {A W : Type 0} (o : Outcome A W)
    → ((c : Context A W) × (o ≡ finished c)) ⊎ ((c : Context A W) × (o ≡ panicked c))
Outcome-cases (finished c) = inl (c, refl)
Outcome-cases (panicked c) = inr (c, refl)

module _ {A W : Type 0} (m : Manager) (id : String) where
  -- The context that the core passes on.
  abbrev pub labelled : Context A W → Context A W
  labelled c = header "X-Request-ID" id (record c { request_id = id })

  -- The context with its line in the log.
  abbrev pub logged_once : Context A W → Context A W
  logged_once c = record c { logged = entry_of c ∷ c.logged }

  abbrev pub recorded_once : Context A W → Context A W
  recorded_once c = if m.has_metrics then record c { recorded = entry_of c ∷ c.recorded } else c

  core-ends :
      (k : Route A W) (c : Context A W)
      → ((c' : Context A W) × (k (labelled c) ≡ finished c')
          × (run_chain (core m id) k c ≡ finished (logged_once (recorded_once c'))))
        ⊎ ((c' : Context A W) × (k (labelled c) ≡ panicked c')
            × (run_chain (core m id) k c ≡ finished (logged_once (write_status 500 c'))))
  unfolding run_chain request_id logger recovery metrics recovered behind
  core-ends k c = elim (Outcome-cases (k (labelled c))) [
    | inl (c', e) ↦
        inl
          (c', e, rw e (elim (Bool-cases m.has_metrics) [ inl h ↦ rw h refl | inr h ↦ rw h refl ]))
    | inr (c', e) ↦ inr (c', e, rw e refl)
  ]

  module _ {E : Type 0} (alg : Algorithm A W E) where
    -- The handlers of the chain that may refuse a request.
    abbrev pub inner : Bool → Bool → List (Handler A W)
    inner true true = cors m.config.server.cors ∷ rate_limit alg ∷ []
    inner true false = cors m.config.server.cors ∷ []
    inner false true = rate_limit alg ∷ []
    inner false false = []

    run-inner :
        (a b : Bool) (k : Route A W) (c : Context A W)
        → run_chain
            (let with_cors =
                if a then use_handler (core m id) (cors m.config.server.cors) else core m id in
              if b then use_handler with_cors (rate_limit alg) else with_cors)
            k
            c
          ≡ run_chain (core m id) (run_chain (inner a b) k) c
    unfolding run_chain
    run-inner true true k c = refl
    run-inner true false k c = refl
    run-inner false true k c = refl
    run-inner false false k c = refl

    -- Every request ends without a panic behind the default chain, whatever CORS, the rate limit and
    -- its route do. It has one line in the log, with the status that the client gets and the id
    -- of the request, written last. Where nothing panics the metrics have a record besides, if there
    -- are metrics; where something panics, the status is 500 unless one was written before, and the
    -- metrics have no record of the request.
    pub run_chain-create_default_chain :
        (k : Route A W) (c : Context A W)
        → (let result = run_chain (create_default_chain alg m id) k c in
            let outcome =
              run_chain
                (inner m.config.server.cors.enabled m.config.rate_limit.enabled)
                k
                (labelled c) in
            ((c' : Context A W) × (outcome ≡ finished c')
              × (result ≡ finished (logged_once (recorded_once c'))))
            ⊎ ((c' : Context A W) × (outcome ≡ panicked c')
                × (result ≡ finished (logged_once (write_status 500 c')))))
    unfolding create_default_chain
    run_chain-create_default_chain k c =
        let a = m.config.server.cors.enabled in
        let b = m.config.rate_limit.enabled in
        elim (core-ends (run_chain (inner a b) k) c) [
          | inl (c', e, ends) ↦ inl (c', e, run-inner a b k c ∙ ends)
          | inr (c', e, ends) ↦ inr (c', e, run-inner a b k c ∙ ends)
        ]
