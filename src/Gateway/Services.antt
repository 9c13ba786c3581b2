-- ===== src/Gateway/Services.antt =====
-- `initializeServices` of cmd/gateway/main.go, which fills the managers of a new gateway from the
-- configuration. The seed of a random balancer is given for each service.
pub mod Breakers
use apigateway_distributed_s.Base.{Option, none, some, List, [], ◌∷◌, String, Dict, if◌then◌else◌}
use apigateway_distributed_s.Config.Types.{ServiceConfig}
use apigateway_distributed_s.LoadBalancer.Random.{Generator}
use apigateway_distributed_s.Circuit.Breaker.{GoBreaker}
use apigateway_distributed_s.Circuit.Manager as Circuit
use apigateway_distributed_s.Circuit.Manager.{create_breaker}
use apigateway_distributed_s.Proxy.Serve.{Url}
use apigateway_distributed_s.Proxy.Manager.{ProxyManager, new_proxy_manager, add_service}
use apigateway_distributed_s.Gateway.Requests.{Work, Gateway}

abbrev pub new_gateway : {B U G : Type 0} → Gateway B U G
new_gateway = record {
  circuit_manager = record { breakers = [] };
  proxy_manager = new_proxy_manager;
}

module _ {B U G R E : Type 0} (go : GoBreaker B (Work U G) R E) (url : Url U)
    (generator : Generator G) (seed_of : String → G) where
  -- A breaker for the service, if it is enabled.
  unfoldable pub break_service : Circuit.Manager B → String → ServiceConfig → Circuit.Manager B
  unfolding create_breaker
  break_service cm name cfg =
      if cfg.circuit_breaker.enabled then (create_breaker go cm name cfg.circuit_breaker).0 else cm

  -- The error names the URL that does not parse, and ends the loop.
  unfoldable pub initialize_services :
      Dict ServiceConfig → Gateway B U G → Gateway B U G × Option String
  unfolding break_service add_service
  initialize_services [] g = (g, none)
  initialize_services ((name, cfg) ∷ services) g =
      let cm = break_service g.circuit_manager name cfg in
      let (pm, e) = add_service url generator g.proxy_manager name cfg (seed_of name) in
      let g' : Gateway B U G = record { circuit_manager = cm; proxy_manager = pm } in
      let rest = initialize_services services g' in
      elim e [ none ↦ rest | some bad ↦ (g', some bad) ]
