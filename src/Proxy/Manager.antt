-- ===== src/Proxy/Manager.antt =====
-- `ProxyManager` of internal/proxy/reverse_proxy.go: the proxies by the names of their services.
pub mod Services
use apigateway_distributed_s.Base.{
  ℕ, Option, none, some, List, [], String, ◌⊎◌, inl, inr, length, map, Dict, lookup, insert, delete,
}
use apigateway_distributed_s.Config.Types.{ServiceConfig}
use apigateway_distributed_s.LoadBalancer.Random.{Generator}
use apigateway_distributed_s.Proxy.Serve.{Url, ReverseProxy, new_reverse_proxy}

pub record ProxyManager (U G : Type 0) : Type 0 where
  pub proxies : Dict (ReverseProxy U G)

module _ {U G : Type 0} where
  abbrev pub new_proxy_manager : ProxyManager U G
  new_proxy_manager = record { proxies = [] }

  -- `none` is nil.
  unfoldable pub get_proxy : ProxyManager U G → String → Option (ReverseProxy U G)
  get_proxy pm service = lookup service pm.proxies

  unfoldable pub remove_service : ProxyManager U G → String → ProxyManager U G
  remove_service pm name = record { proxies = delete name pm.proxies }

  unfoldable pub list_services : ProxyManager U G → List String
  list_services pm = map (λ e. e.0) pm.proxies

  unfoldable pub get_stats : ProxyManager U G → ℕ × List String
  unfolding list_services
  get_stats pm = (length pm.proxies, list_services pm)

  -- The end of `AddService` and `UpdateService`. An error names the URL that does not parse.
  unfoldable pub put_proxy :
      ProxyManager U G → String → ReverseProxy U G ⊎ String → ProxyManager U G × Option String
  put_proxy pm name (inr bad) = (pm, some bad)
  put_proxy pm name (inl proxy) = (record { proxies = insert name proxy pm.proxies }, none)

  module _ (url : Url U) (generator : Generator G) where
    unfoldable pub add_service :
        ProxyManager U G → String → ServiceConfig → G → ProxyManager U G × Option String
    unfolding put_proxy new_reverse_proxy
    add_service pm name cfg seed = put_proxy pm name (new_reverse_proxy url generator name cfg seed)

    unfoldable pub update_service :
        ProxyManager U G → String → ServiceConfig → G → ProxyManager U G × Option String
    unfolding put_proxy new_reverse_proxy
    update_service pm name cfg seed =
        put_proxy pm name (new_reverse_proxy url generator name cfg seed)
