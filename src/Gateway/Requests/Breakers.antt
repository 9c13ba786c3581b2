-- ===== src/Gateway/Requests/Breakers.antt =====
-- What the circuit breakers do for the requests of the gateway.
use apigateway_distributed_s.Base.{
  ◌≡◌, ◌∙◌, ap, All, false, refl, sym, subst, inl, inr, Bool-cases, Option, none, some, List, [],
  ◌∷◌, String, insert, lookup, lookup-insert, str_eq, arith, some_injective,
}
use apigateway_distributed_s.LoadBalancer.Random.{Generator}
use apigateway_distributed_s.Circuit.Breaker.{
  closed, Outcome, returned, map_result, GoBreaker, CircuitBreaker, call, state, without_result,
}
use apigateway_distributed_s.Circuit.Manager.{get_breaker}
use apigateway_distributed_s.Proxy.Serve.{Url, ReverseProxy, Sent, passed_on, aborted, http_error}
use apigateway_distributed_s.Proxy.Serve.Whole.{is_aborted, Completes, serve-whole}
use apigateway_distributed_s.Proxy.Serve.Visits.{Visit, serve}
use apigateway_distributed_s.Proxy.Manager.{ProxyManager, get_proxy}
use apigateway_distributed_s.Gateway.Paths.{parts_of}
use apigateway_distributed_s.Gateway.Requests.{
  Work, Gateway, serve_service, outcome_of, run_service, after_call, send_through, request_service,
  route_parts, proxy_request, proxy_requests,
}

-- Documented of gobreaker: a closed breaker runs the function and passes on how it ends, and stays
-- closed where the function returns no error, since only an error or a panic asks whether it is to
-- trip.
pub record TripsOnFailures {B W R E : Type 0} (go : GoBreaker B W R E) : Type 0 where
  pub closed_runs :
      (b : B) (fn : W → W × Outcome R E) (w : W)
      → go.state b ≡ closed
      → ((go.execute b fn w).1 ≡ (fn w).0) × ((go.execute b fn w).2 ≡ (fn w).1)
  pub closed_success :
      (b : B) (fn : W → W × Outcome R E) (w : W) (r : R)
      → go.state b ≡ closed
      → (fn w).1 ≡ returned r none
      → go.state (go.execute b fn w).0 ≡ closed

module _ {B U G R E : Type 0} (go : GoBreaker B (Work U G) R E) (url : Url U)
    (generator : Generator G) (trips : TripsOnFailures go) where
  abbrev pub AllClosed : Gateway B U G → Type 0
  AllClosed g =
      (name : String) (cb : CircuitBreaker B)
      → get_breaker g.circuit_manager name ≡ some cb
      → state go cb ≡ closed

  abbrev pub without_breakers : Gateway B U G → Gateway B U G
  without_breakers g = record g { circuit_manager = record { breakers = [] } }

  -- A step of two gateways, the second without breakers.
  pub record Same (x y : Gateway B U G × Sent) : Type 0 where
    pub same_sent : x.1 ≡ y.1
    pub same_rest : without_breakers x.0 ≡ y.0
    pub still_closed : AllClosed x.0

  -- A call of a function that returns no error through a closed breaker is the call itself, and
  -- leaves a closed breaker.
  abbrev Transparent : CircuitBreaker B → Type 0
  Transparent cb =
      (fn : Work U G → Work U G × Outcome Unit E) (w : Work U G)
      → (fn w).1 ≡ returned tt none
      → (cb' : CircuitBreaker B) × (state go cb' ≡ closed)
        × (call go cb fn w ≡ (cb', (fn w).0, returned tt none))

  call-at :
      (o : Option B)
      → state go (record { breaker = o }) ≡ closed
      → Transparent (record { breaker = o })
  unfolding call state
  call-at none h fn w fine =
      (record { breaker = none }, refl, λ i. (record { breaker = none }, (fn w).0, fine i))
  call-at (some b) h fn w fine =
      let run = without_result go fn in
      let (same, passed) = trips.closed_runs b run w h in
      let fine' : (run w).1 ≡ returned go.nil none = ap (map_result (λ _. go.nil)) fine in
      let out = ap (map_result (λ _. tt)) (passed ∙ fine') in
      (
        record { breaker = some (go.execute b run w).0 },
        trips.closed_success b run w go.nil h fine',
        λ i. (record { breaker = some (go.execute b run w).0 }, same i, out i),
      )

  call-Transparent : (cb : CircuitBreaker B) → state go cb ≡ closed → Transparent cb
  call-Transparent cb h = call-at cb.breaker h

  pub insert-AllClosed :
      (g : Gateway B U G) (name : String) (cb : CircuitBreaker B) (pm : ProxyManager U G)
      → AllClosed g
      → state go cb ≡ closed
      → AllClosed (record {
        circuit_manager = record { breakers = insert name cb g.circuit_manager.breakers };
        proxy_manager = pm;
      })
  unfolding get_breaker
  insert-AllClosed g name cb pm all h other cb' found = elim (Bool-cases (str_eq name other)) [
    | inl e ↦
        let same : cb ≡ cb' =
          some_injective cb cb'
            (ground (arith, lookup-insert name other cb g.circuit_manager.breakers)) in
        subst (λ cb. state go cb ≡ closed) same h
    | inr e ↦ all other cb' (ground (arith, lookup-insert name other cb g.circuit_manager.breakers))
  ]

  outcome_of-whole :
      (pm : ProxyManager U G) (s : Sent)
      → is_aborted s ≡ false
      → outcome_of go url generator (pm, some s) ≡ returned tt none
  outcome_of-whole pm (passed_on resp) h = refl
  outcome_of-whole pm aborted h = absurd (ground arith)
  outcome_of-whole pm (http_error status) h = refl

  run_service-whole :
      (name : String) (rp : ReverseProxy U G) (v : Visit U) (w : Work U G)
      → Completes v
      → (run_service go url generator name rp v w).1 ≡ returned tt none
  unfolding serve_service
  run_service-whole name rp v w h =
      outcome_of-whole (serve_service go url generator name rp v w).0 (serve url generator rp v).1
        (serve-whole url generator rp v h)

  send-Same :
      (g : Gateway B U G) (name : String) (rp : ReverseProxy U G) (v : Visit U)
      → Completes v
      → AllClosed g
      → (o : Option (CircuitBreaker B)) → get_breaker g.circuit_manager name ≡ o
      → Same
          (send_through go url generator g name rp v o)
          (send_through go url generator (without_breakers g) name rp v none)
  unfolding send_through
  send-Same g name rp v h all none e = record {
    same_sent = refl;
    same_rest = refl;
    still_closed = all;
  }
  send-Same g name rp v h all (some cb) e =
      let (cb', still, same) =
        call-Transparent cb (all name cb e) (run_service go url generator name rp v)
          (g.proxy_manager, none) (run_service-whole name rp v (g.proxy_manager, none) h) in
      subst
        (λ r.
          Same (after_call go url generator g name r)
            (send_through go url generator (without_breakers g) name rp v none))
        (sym same)
        (record {
          same_sent = refl;
          same_rest = refl;
          still_closed =
              insert-AllClosed g name cb'
                (serve_service go url generator name rp v (g.proxy_manager, none)).0 all still;
        })

  request-Same :
      (g : Gateway B U G) (name : String) (v : Visit U)
      → Completes v
      → AllClosed g
      → (o : Option (ReverseProxy U G))
      → Same
          (request_service go url generator g name v o)
          (request_service go url generator (without_breakers g) name v o)
  unfolding request_service get_breaker lookup
  request-Same g name v h all none = record {
    same_sent = refl;
    same_rest = refl;
    still_closed = all;
  }
  request-Same g name v h all (some rp) =
      send-Same g name rp v h all (get_breaker g.circuit_manager name) refl

  path-Same :
      (g : Gateway B U G) (v : Visit U)
      → Completes v
      → AllClosed g
      → (parts : List String)
      → Same
          (route_parts go url generator g v parts)
          (route_parts go url generator (without_breakers g) v parts)
  unfolding route_parts
  path-Same g v h all [] = record { same_sent = refl; same_rest = refl; still_closed = all }
  path-Same g v h all (name ∷ parts) = request-Same g name v h all (get_proxy g.proxy_manager name)

  -- While no breaker is open or half open, which is how they are made, and no response breaks off,
  -- the breakers do nothing: any sequence of requests, also if exchanges fail or time out in it, is
  -- answered as it would be without breakers, and leaves no breaker open or half open, since the
  -- function that a breaker runs returns no error.
  pub proxy_requests-AllClosed :
      (g : Gateway B U G) (requests : List (String × Visit U))
      → All (λ r. Completes r.1) requests
      → AllClosed g
      → ((proxy_requests go url generator g requests).1
          ≡ (proxy_requests go url generator (without_breakers g) requests).1)
        × AllClosed (proxy_requests go url generator g requests).0
  unfolding proxy_requests proxy_request
  proxy_requests-AllClosed g [] h all = (refl, all)
  proxy_requests-AllClosed g ((path, v) ∷ requests) h all =
      let first = path-Same g v h.0 all (parts_of path) in
      let (rest, closed_after) =
        proxy_requests-AllClosed (proxy_request go url generator g path v).0 requests h.1
          first.still_closed in
      (rw (first.same_sent, rest, first.same_rest) refl, closed_after)
