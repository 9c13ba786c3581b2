-- ===== src/Proxy/Serve/Made.antt =====
-- What `NewReverseProxy` makes of a configuration.
use apigateway_distributed_s.Base.{
  ◌≡◌, refl, ap, ◌⊎◌, inl, inr, none, some, Option-cases, List, [], ◌∷◌, ◌++◌, String, map,
}
use apigateway_distributed_s.Config.Types.{ServiceConfig}
use apigateway_distributed_s.LoadBalancer.Random.{Generator}
use apigateway_distributed_s.Proxy.Balancer.{new_balancer, get_targets}
use apigateway_distributed_s.Proxy.Balancer.Targets.{get_targets-new_balancer}
use apigateway_distributed_s.Proxy.Serve.{Url, ReverseProxy, parse_all, new_reverse_proxy}

module _ {U : Type 0} (url : Url U) where
  -- All texts parse, to these URLs.
  abbrev pub Parsed : List String → List U → Type 0
  Parsed ss us = map url.parse ss ≡ map some us

  -- The first text that does not parse, behind those that do.
  pub record Invalid (ss : List String) (bad : String) : Type 0 where
    pub front : List String
    pub back : List String
    pub urls : List U
    pub split : ss ≡ front ++ bad ∷ back
    pub before : Parsed front urls
    pub refused : url.parse bad ≡ none

  parse_all-cases :
      (ss : List String)
      → ((us : List U) × Parsed ss us × (parse_all url ss ≡ inl us))
        ⊎ ((bad : String) × Invalid ss bad × (parse_all url ss ≡ inr bad))
  unfolding parse_all
  parse_all-cases [] = inl ([], refl, refl)
  parse_all-cases (s ∷ ss) = elim (Option-cases (url.parse s)) [
    | inl e ↦ inr (
      s,
      record { front = []; back = ss; urls = []; split = refl; before = refl; refused = e },
      rw (parse_all, e) refl,
    )
    | inr (u, e) ↦ elim (parse_all-cases ss) [
      | inl (us, all, f) ↦ inl (u ∷ us, rw (e, all) refl, rw (parse_all, e, f) refl)
      | inr (bad, i, f) ↦ inr (
        bad,
        record {
          front = s ∷ i.front;
          back = i.back;
          urls = u ∷ i.urls;
          split = ap (◌∷◌ s) i.split;
          before = rw (e, i.before) refl;
          refused = i.refused;
        },
        rw (parse_all, e, f) refl,
      )
    ]
  ]

  abbrev pub made : {G : Type 0} → String → ServiceConfig → G → List U → ReverseProxy U G
  made name cfg seed us = record {
    load_balancer = new_balancer cfg.load_balancer seed us;
    timeout = cfg.timeout;
    retries = cfg.retries;
    service_name = name;
  }

  -- `NewReverseProxy` makes a proxy whose balancer has the URLs of the configuration in their order
  -- if all of them parse, whatever balancer is named; else its error names the first that does not.
  pub new_reverse_proxy-cases :
      {G : Type 0} (generator : Generator G) (name : String) (cfg : ServiceConfig) (seed : G)
      → ((us : List U) × (rp : ReverseProxy U G) × Parsed cfg.urls us
          × (new_reverse_proxy url generator name cfg seed ≡ inl rp)
          × (get_targets rp.load_balancer ≡ us))
        ⊎ ((bad : String) × Invalid cfg.urls bad
            × (new_reverse_proxy url generator name cfg seed ≡ inr bad))
  unfolding new_reverse_proxy
  new_reverse_proxy-cases generator name cfg seed = elim (parse_all-cases cfg.urls) [
    | inl (us, all, f) ↦ inl (
      us,
      made name cfg seed us,
      all,
      rw (new_reverse_proxy, f) refl,
      get_targets-new_balancer cfg.load_balancer seed us,
    )
    | inr (bad, i, f) ↦ inr (bad, i, rw (new_reverse_proxy, f) refl)
  ]
