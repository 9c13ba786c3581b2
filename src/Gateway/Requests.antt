-- ===== src/Gateway/Requests.antt =====
-- `proxyRequest` of internal/gateway/gateway.go with the circuit breakers and the proxies it calls.
-- A breaker runs a function on the proxies and on the response that the client has so far.
pub mod Breakers
use apigateway_distributed_s.Base.{
  Option, none, some, List, [], ◌∷◌, String, Dict, insert, lookup, Bool, true, false, if◌then◌else◌,
}
use apigateway_distributed_s.LoadBalancer.Random.{Generator}
use apigateway_distributed_s.Circuit.Breaker.{
  Outcome, returned, panicked, GoBreaker, CircuitBreaker, call, is_open,
}
use apigateway_distributed_s.Circuit.Manager as Circuit
use apigateway_distributed_s.Circuit.Manager.{get_breaker}
use apigateway_distributed_s.Proxy.Serve.{Url, ReverseProxy, Sent, passed_on, aborted, http_error}
use apigateway_distributed_s.Proxy.Serve.Visits.{Visit, serve}
use apigateway_distributed_s.Proxy.Manager.{ProxyManager, get_proxy, list_services}
use apigateway_distributed_s.Gateway.Paths.{parts_of}

-- The proxies, and what was sent to the client.
abbrev pub Work : Type 0 → Type 0 → Type 0
Work U G = ProxyManager U G × Option Sent

-- The managers that a request changes.
pub record Gateway (B U G : Type 0) : Type 0 where
  pub circuit_manager : Circuit.Manager B
  pub proxy_manager : ProxyManager U G

-- The first answer is the one that the client gets.
abbrev pub or_send : Sent → Option Sent → Sent
or_send s none = s
or_send s (some first) = first

module _ {B U G R E : Type 0} (go : GoBreaker B (Work U G) R E) (url : Url U)
    (generator : Generator G) where
  -- `serviceProxy.ServeHTTP`, on the proxy that the map points to.
  unfoldable pub serve_service : String → ReverseProxy U G → Visit U → Work U G → Work U G
  serve_service name rp v (pm, _) =
      let (rp', sent) = serve url generator rp v in
      (record { proxies = insert name rp' pm.proxies }, some sent)

  -- How the function that a breaker runs ends: it panics with `ServeHTTP`, and returns nil otherwise.
  abbrev pub outcome_of : Work U G → Outcome Unit E
  outcome_of (pm, none) = returned tt none
  outcome_of (pm, some aborted) = panicked
  outcome_of (pm, some (passed_on resp)) = returned tt none
  outcome_of (pm, some (http_error status)) = returned tt none

  abbrev pub run_service :
      String → ReverseProxy U G → Visit U → Work U G → Work U G × Outcome Unit E
  run_service name rp v w = let w' = serve_service name rp v w in (w', outcome_of w')

  -- What the client gets after the breaker's call: a panic goes on to the caller.
  abbrev pub sent_after : Option Sent → Outcome Unit E → Sent
  sent_after sent panicked = aborted
  sent_after sent (returned _ none) = or_send (http_error 200) sent
  sent_after sent (returned _ (some e)) = or_send (http_error 503) sent

  -- The end of `proxyRequest`, on the result of the breaker's call.
  unfoldable pub after_call :
      Gateway B U G → String → CircuitBreaker B × Work U G × Outcome Unit E → Gateway B U G × Sent
  after_call g name (cb, (pm, sent), out) =
      let g' : Gateway B U G = record {
        circuit_manager = record { breakers = insert name cb g.circuit_manager.breakers };
        proxy_manager = pm;
      } in
      (g', sent_after sent out)

  unfoldable pub send_through :
      Gateway B U G
      → String
      → ReverseProxy U G
      → Visit U
      → Option (CircuitBreaker B)
      → Gateway B U G × Sent
  unfolding serve_service call after_call
  send_through g name rp v none =
      let (pm, sent) = serve_service name rp v (g.proxy_manager, none) in
      (record g { proxy_manager = pm }, or_send (http_error 200) sent)
  send_through g name rp v (some cb) =
      after_call g name (call go cb (run_service name rp v) (g.proxy_manager, none))

  unfoldable pub request_service :
      Gateway B U G → String → Visit U → Option (ReverseProxy U G) → Gateway B U G × Sent
  unfolding send_through get_breaker
  request_service g name v none = (g, http_error 404)
  request_service g name v (some rp) = send_through g name rp v (get_breaker g.circuit_manager name)

  -- The end of `proxyRequest`, on the parts of the path.
  unfoldable pub route_parts : Gateway B U G → Visit U → List String → Gateway B U G × Sent
  unfolding request_service get_proxy
  route_parts g v [] = (g, http_error 404)
  route_parts g v (name ∷ parts) = request_service g name v (get_proxy g.proxy_manager name)

  unfoldable pub proxy_request : Gateway B U G → String → Visit U → Gateway B U G × Sent
  unfolding parts_of route_parts
  proxy_request g path v = route_parts g v (parts_of path)

  -- The loop of `getServiceHealth`: true stands for the text "healthy".
  unfoldable pub health_of : Gateway B U G → List String → Dict Bool
  unfolding get_breaker is_open
  health_of g [] = []
  health_of g (name ∷ names) =
      insert name
        (elim (get_breaker g.circuit_manager name) [
          | none ↦ true
          | some cb ↦ if is_open go cb then false else true
        ])
        (health_of g names)

  unfoldable pub get_service_health : Gateway B U G → Dict Bool
  unfolding health_of list_services
  get_service_health g = health_of g (list_services g.proxy_manager)

  -- Requests one after the other, each with its path.
  unfoldable pub proxy_requests :
      Gateway B U G → List (String × Visit U) → Gateway B U G × List Sent
  unfolding proxy_request
  proxy_requests g [] = (g, [])
  proxy_requests g ((path, v) ∷ rest) =
      let (g', sent) = proxy_request g path v in
      let (g'', all) = proxy_requests g' rest in (g'', sent ∷ all)
