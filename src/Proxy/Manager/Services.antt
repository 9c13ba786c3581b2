-- ===== src/Proxy/Manager/Services.antt =====
-- What the proxy manager has of a service after its changes.
use apigateway_distributed_s.Base.{
  ◌≡◌, refl, ◌⊎◌, inl, inr, none, some, List, String, str_eq, if◌then◌else◌, lookup-insert,
  lookup-delete,
}
use apigateway_distributed_s.Config.Types.{ServiceConfig}
use apigateway_distributed_s.LoadBalancer.Random.{Generator}
use apigateway_distributed_s.Proxy.Balancer.{get_targets}
use apigateway_distributed_s.Proxy.Serve.{Url, ReverseProxy}
use apigateway_distributed_s.Proxy.Serve.Made.{Parsed, Invalid, new_reverse_proxy-cases}
use apigateway_distributed_s.Proxy.Manager.{
  ProxyManager, get_proxy, add_service, update_service, remove_service, put_proxy,
}

module _ {U G : Type 0} (url : Url U) (generator : Generator G) where
  -- `AddService` and `UpdateService` do the same: where all URLs of the configuration parse, the
  -- service has a proxy with these targets, and every other service is as before; else the error
  -- names the first URL that does not parse, and nothing changes.
  pub get_proxy-add_service :
      (pm : ProxyManager U G) (name : String) (cfg : ServiceConfig) (seed : G)
      → (add_service url generator pm name cfg seed ≡ update_service url generator pm name cfg seed)
        × (((us : List U) × (rp : ReverseProxy U G) × Parsed url cfg.urls us
              × (get_targets rp.load_balancer ≡ us)
              × ((add_service url generator pm name cfg seed).1 ≡ none)
              × ((other : String)
                  → get_proxy (add_service url generator pm name cfg seed).0 other
                    ≡ (if str_eq name other then some rp else get_proxy pm other)))
            ⊎ ((bad : String) × Invalid url cfg.urls bad
                × (add_service url generator pm name cfg seed ≡ (pm, some bad))))
  unfolding add_service update_service put_proxy get_proxy
  get_proxy-add_service pm name cfg seed = (
    refl,
    elim (new_reverse_proxy-cases url generator name cfg seed) [
      | inl (us, rp, parsed, made, targets) ↦ inl (
        us,
        rp,
        parsed,
        targets,
        rw made refl,
        λ other. rw made (lookup-insert name other rp pm.proxies),
      )
      | inr (bad, invalid, refused) ↦ inr (bad, invalid, rw refused refl)
    ],
  )

  -- `RemoveService` takes the proxy of its service, and no other.
  pub get_proxy-remove_service :
      (pm : ProxyManager U G) (name other : String)
      → get_proxy (remove_service pm name) other
        ≡ (if str_eq name other then none else get_proxy pm other)
  unfolding remove_service get_proxy
  get_proxy-remove_service pm name other = lookup-delete name other pm.proxies
