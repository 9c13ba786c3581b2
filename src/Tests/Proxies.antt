-- ===== src/Tests/Proxies.antt =====
-- The theorems on the reverse proxy, with URLs that are texts.
use apigateway_distributed_s.Base.{
  ℕ, ◌≡◌, refl, ◌⊎◌, false, none, some, List, [], ◌∷◌, String, str_eq, if◌then◌else◌,
}
use apigateway_distributed_s.Base.Int.{pos}
use apigateway_distributed_s.Config.Types.{ServiceConfig}
use apigateway_distributed_s.LoadBalancer.LeastConnections
use apigateway_distributed_s.LoadBalancer.LeastConnections.{
  LeastConnections, ConnectionTarget, new_target,
}
use apigateway_distributed_s.LoadBalancer.Target.{update_first}
use apigateway_distributed_s.Proxy.Balancer.{
  least_connections, next_target, get_targets, mark_unhealthy,
}
use apigateway_distributed_s.Proxy.Headers.{Request}
use apigateway_distributed_s.Proxy.Serve.{
  Url, ReverseProxy, failed, http_error, serve_http, serve_target, forward, deliver,
  handle_proxy_error,
}
use apigateway_distributed_s.Proxy.Serve.Made.{Parsed, Invalid}
use apigateway_distributed_s.Proxy.Serve.Visits.{Visit, serve_all}
use apigateway_distributed_s.Proxy.Serve.Outage.{
  settled, next_target-serve_failed, serve_all-serve_failed,
}
use apigateway_distributed_s.Proxy.Manager.{
  ProxyManager, new_proxy_manager, get_proxy, add_service, update_service,
}
use apigateway_distributed_s.Proxy.Manager.Services.{get_proxy-add_service}
use apigateway_distributed_s.Tests.Balancers.{counting}
use apigateway_distributed_s.Tests.Services.{service}

abbrev pub text_url : Url String
text_url = record {
  parse = λ s. if str_eq s "" then none else some s;
  to_string = λ u. u;
  host = λ u. u;
  direct = λ u r. r;
}

abbrev pub two : LeastConnections String
two = record { targets = new_target "a" ∷ new_target "b" ∷ [] }

abbrev pub proxy_of : LeastConnections String → ReverseProxy String ℕ
proxy_of lc = record {
  load_balancer = least_connections lc;
  timeout = pos 30;
  retries = pos 3;
  service_name = "users";
}

abbrev pub incoming : Request
incoming = record {
  host = "gateway";
  header = ("Accept", "text/html" ∷ []) ∷ [];
  remote_addr = "10.0.0.1:5000";
  tls = false;
}

abbrev pub broken : Visit String
broken = record {
  time = "2024-01-01T00:00:00Z";
  late = false;
  upstream = λ u r. failed false;
  request = incoming;
}

next_target-serve_failed_example : str_eq "b" "a" ≡ false
unfolding LeastConnections.next_target LeastConnections.select LeastConnections.consider
    LeastConnections.connect LeastConnections.mark_unhealthy update_first serve_http next_target
    serve_target forward deliver handle_proxy_error mark_unhealthy
next_target-serve_failed_example =
    next_target-serve_failed text_url counting (proxy_of two) two broken "a" "b" false refl
      ((refl, tt), (tt, tt)) refl refl refl

serve_all-serve_failed_example :
    serve_all text_url counting
      (settled text_url counting (proxy_of (record { targets = new_target "a" ∷ [] })) broken "a")
      (broken ∷ broken ∷ [])
    ≡ (
      (settled text_url counting (proxy_of (record { targets = new_target "a" ∷ [] })) broken "a"),
      http_error 503 ∷ http_error 503 ∷ [],
    )
unfolding LeastConnections.next_target
serve_all-serve_failed_example =
    serve_all-serve_failed text_url counting (proxy_of (record { targets = new_target "a" ∷ [] }))
      (new_target "a") broken "a" false (broken ∷ broken ∷ []) refl refl refl

abbrev started : ProxyManager String ℕ
started = new_proxy_manager

abbrev half_broken : ServiceConfig
half_broken = record service { urls = "http://a" ∷ "" ∷ [] }

get_proxy-add_service_example :
    (add_service text_url counting started "users" half_broken 0
      ≡ update_service text_url counting started "users" half_broken 0)
    × (((us : List String) × (rp : ReverseProxy String ℕ) × Parsed text_url half_broken.urls us
          × (get_targets rp.load_balancer ≡ us)
          × ((add_service text_url counting started "users" half_broken 0).1 ≡ none)
          × ((other : String)
              → get_proxy (add_service text_url counting started "users" half_broken 0).0 other
                ≡ (if str_eq "users" other then some rp else get_proxy started other)))
        ⊎ ((bad : String) × Invalid text_url half_broken.urls bad
            × (add_service text_url counting started "users" half_broken 0 ≡ (started, some bad))))
get_proxy-add_service_example =
    get_proxy-add_service text_url counting started "users" half_broken 0
