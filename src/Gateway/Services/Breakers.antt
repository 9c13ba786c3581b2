-- ===== src/Gateway/Services/Breakers.antt =====
-- The circuit breakers of a gateway that was set up from a configuration.
use apigateway_distributed_s.Base.{
  ◌≡◌, refl, All, Bool, true, false, Bool-cases, inl, inr, Option, none, some, List, [], ◌∷◌,
  String, Dict, if◌then◌else◌, arith, lookup,
}
use apigateway_distributed_s.Config.Types.{ServiceConfig, CircuitBreakerConfig}
use apigateway_distributed_s.LoadBalancer.Random.{Generator}
use apigateway_distributed_s.Circuit.Breaker.{
  closed, Settings, GoBreaker, state, new_circuit_breaker,
}
use apigateway_distributed_s.Circuit.Manager as Circuit
use apigateway_distributed_s.Circuit.Manager.{create_breaker, get_breaker}
use apigateway_distributed_s.Proxy.Serve.{Url}
use apigateway_distributed_s.Proxy.Serve.Visits.{Visit}
use apigateway_distributed_s.Proxy.Manager.{ProxyManager, add_service}
use apigateway_distributed_s.Gateway.Requests.{Work, Gateway, proxy_requests}
use apigateway_distributed_s.Proxy.Serve.Whole.{Completes}
use apigateway_distributed_s.Gateway.Requests.Breakers.{
  TripsOnFailures, AllClosed, without_breakers, insert-AllClosed, proxy_requests-AllClosed,
}
use apigateway_distributed_s.Gateway.Services.{new_gateway, break_service, initialize_services}

module _ {B U G R E : Type 0} (go : GoBreaker B (Work U G) R E) (url : Url U)
    (generator : Generator G) (seed_of : String → G) (trips : TripsOnFailures go)
    (starts_closed : (s : Settings) → go.state (go.new_circuit_breaker s) ≡ closed) where
  new-closed :
      (name : String) (cfg : CircuitBreakerConfig)
      → state go (new_circuit_breaker go name cfg) ≡ closed
  unfolding state new_circuit_breaker
  new-closed name cfg = elim (Bool-cases cfg.enabled) [
    | inl e ↦ rw (new_circuit_breaker, e) (starts_closed _)
    | inr e ↦ rw (new_circuit_breaker, e) refl
  ]

  chosen-AllClosed :
      (b : Bool) (x y : Circuit.Manager B) (pm : ProxyManager U G)
      → AllClosed go url generator trips (record { circuit_manager = x; proxy_manager = pm })
      → AllClosed go url generator trips (record { circuit_manager = y; proxy_manager = pm })
      → AllClosed go url generator trips
          (record { circuit_manager = if b then x else y; proxy_manager = pm })
  chosen-AllClosed true x y pm hx hy = hx
  chosen-AllClosed false x y pm hx hy = hy

  break_service-AllClosed :
      (g : Gateway B U G) (pm : ProxyManager U G) (name : String) (cfg : ServiceConfig)
      → AllClosed go url generator trips g
      → AllClosed go url generator trips (record {
        circuit_manager = break_service go url generator seed_of g.circuit_manager name cfg;
        proxy_manager = pm;
      })
  unfolding break_service create_breaker
  break_service-AllClosed g pm name cfg all =
      let cb = new_circuit_breaker go name cfg.circuit_breaker in
      chosen-AllClosed cfg.circuit_breaker.enabled
        (create_breaker go g.circuit_manager name cfg.circuit_breaker).0 g.circuit_manager pm
        (insert-AllClosed go url generator trips g name cb pm all
          (new-closed name cfg.circuit_breaker))
        all

  finished-AllClosed :
      (e : Option String) (rest : Gateway B U G × Option String) (g : Gateway B U G)
      → AllClosed go url generator trips rest.0
      → AllClosed go url generator trips g
      → AllClosed go url generator trips
          (elim e as (λ _. Gateway B U G × Option String) [
            | none ↦ rest
            | some bad ↦ (g, some bad)
          ]).0
  finished-AllClosed none rest g hr hg = hr
  finished-AllClosed (some bad) rest g hr hg = hg

  pub initialize_services-AllClosed :
      (services : Dict ServiceConfig) (g : Gateway B U G)
      → AllClosed go url generator trips g
      → AllClosed go url generator trips (initialize_services go url generator seed_of services g).0
  unfolding initialize_services
  initialize_services-AllClosed [] g all = all
  initialize_services-AllClosed ((name, cfg) ∷ services) g all =
      let added = add_service url generator g.proxy_manager name cfg (seed_of name) in
      let g' : Gateway B U G = record {
        circuit_manager = break_service go url generator seed_of g.circuit_manager name cfg;
        proxy_manager = added.0;
      } in
      let all' = break_service-AllClosed g added.0 name cfg all in
      finished-AllClosed added.1 (initialize_services go url generator seed_of services g') g'
        (initialize_services-AllClosed services g' all') all'

  new_gateway-AllClosed : AllClosed go url generator trips new_gateway
  unfolding get_breaker lookup
  new_gateway-AllClosed name cb found = absurd (ground arith)

  -- If the library makes its breakers closed, a gateway that is set up from any configuration
  -- answers any requests whose responses do not break off as the same gateway without its breakers
  -- does, and so after an error of the setup, with the services before it.
  pub proxy_requests-initialize_services :
      (services : Dict ServiceConfig) (requests : List (String × Visit U))
      → All (λ r. Completes r.1) requests
      → let g : Gateway B U G =
          (initialize_services go url generator seed_of services new_gateway).0 in
        ((proxy_requests go url generator g requests).1
          ≡ (proxy_requests go url generator
              (without_breakers go url generator trips g)
              requests).1)
        × AllClosed go url generator trips (proxy_requests go url generator g requests).0
  proxy_requests-initialize_services services requests whole =
      proxy_requests-AllClosed go url generator trips
        (initialize_services go url generator seed_of services new_gateway).0 requests whole
        (initialize_services-AllClosed services new_gateway new_gateway-AllClosed)
