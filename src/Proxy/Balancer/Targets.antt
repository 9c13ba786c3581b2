-- ===== src/Proxy/Balancer/Targets.antt =====
-- Which targets the balancer of a reverse proxy has.
use apigateway_distributed_s.Base.{
  ◌≡◌, refl, ap, inl, inr, false, Bool-cases, ℕ, some, List, [], ◌∷◌, ◌++◌, get_elem?, String, map,
  str_eq,
}
use apigateway_distributed_s.LoadBalancer.RoundRobin
use apigateway_distributed_s.LoadBalancer.Weighted
use apigateway_distributed_s.LoadBalancer.Weighted.{weigh}
use apigateway_distributed_s.LoadBalancer.LeastConnections
use apigateway_distributed_s.LoadBalancer.LeastConnections.{
  new_target, ConnectionTarget, LeastConnections,
}
use apigateway_distributed_s.LoadBalancer.Random
use apigateway_distributed_s.LoadBalancer.Random.{Generator}
use apigateway_distributed_s.LoadBalancer.Target.{remove_first, map-update_first}
use apigateway_distributed_s.LoadBalancer.Laws.{IsLoadBalancer}
use apigateway_distributed_s.LoadBalancer.Contract.{
  round_robin-IsLoadBalancer, weighted-IsLoadBalancer, least_connections-IsLoadBalancer,
  random-IsLoadBalancer,
}
use apigateway_distributed_s.Proxy.Balancer.{
  Balancer, round_robin, weighted, least_connections, random, new_balancer, next_target, add_target,
  remove_target, get_targets, mark_unhealthy,
}

module _ {U : Type 0} where
  url-new_target : (us : List U) → map (λ t. t.url) (map new_target us) ≡ us
  url-new_target [] = refl
  url-new_target (u ∷ us) = ap (◌∷◌ u) (url-new_target us)

  url-weigh : (us : List U) → map (λ t. t.url) (weigh us []) ≡ us
  unfolding weigh
  url-weigh [] = refl
  url-weigh (u ∷ us) = ap (◌∷◌ u) (url-weigh us)

module _ {U G : Type 0} where
  -- By whatever name it is chosen, a new balancer has the targets that it is given.
  pub get_targets-new_balancer :
      (name : String) (seed : G) (us : List U) → get_targets (new_balancer name seed us) ≡ us
  unfolding get_targets new_balancer RoundRobin.get_targets RoundRobin.new_round_robin
      Weighted.get_targets Weighted.new_weighted_round_robin LeastConnections.get_targets
      LeastConnections.new_least_connections Random.get_targets Random.new_random
  get_targets-new_balancer name seed us = elim (Bool-cases (str_eq name "round_robin")) [
    | inl a ↦ rw a refl
    | inr a ↦ elim (Bool-cases (str_eq name "weighted_round_robin")) [
      | inl b ↦ rw (a, b) (url-weigh us)
      | inr b ↦ elim (Bool-cases (str_eq name "least_connections")) [
        | inl c ↦ rw (a, b, c) (url-new_target us)
        | inr c ↦ elim (Bool-cases (str_eq name "random")) [
          | inl d ↦ rw (a, b, c, d) refl
          | inr d ↦ rw (a, b, c, d) refl
        ]
      ]
    ]
  ]

  module _ (generator : Generator G) (to_string : U → String) where
    add_law : (s : Balancer U G) (u : U) → get_targets (add_target s u) ≡ get_targets s ++ u ∷ []
    unfolding add_target get_targets
    add_law (round_robin b) u = (round_robin-IsLoadBalancer to_string).add b u
    add_law (weighted b) u = (weighted-IsLoadBalancer to_string).add b u
    add_law (least_connections b) u = (least_connections-IsLoadBalancer to_string).add b u
    add_law (random b) u = (random-IsLoadBalancer generator to_string).add b u

    remove_law :
        (s : Balancer U G) (u : U)
        → get_targets (remove_target to_string s u)
          ≡ remove_first to_string (to_string u) (get_targets s)
    unfolding remove_target get_targets
    remove_law (round_robin b) u = (round_robin-IsLoadBalancer to_string).remove b u
    remove_law (weighted b) u = (weighted-IsLoadBalancer to_string).remove b u
    remove_law (least_connections b) u = (least_connections-IsLoadBalancer to_string).remove b u
    remove_law (random b) u = (random-IsLoadBalancer generator to_string).remove b u

    keep_law : (s : Balancer U G) → get_targets (next_target generator s).0 ≡ get_targets s
    unfolding next_target get_targets
    keep_law (round_robin b) = (round_robin-IsLoadBalancer to_string).keep b
    keep_law (weighted b) = (weighted-IsLoadBalancer to_string).keep b
    keep_law (least_connections b) = (least_connections-IsLoadBalancer to_string).keep b
    keep_law (random b) = (random-IsLoadBalancer generator to_string).keep b

    member_law :
        (s : Balancer U G) (u : U)
        → (next_target generator s).1 ≡ some u
        → (j : ℕ) × (get_elem? (get_targets s) j ≡ some u)
    unfolding next_target get_targets
    member_law (round_robin b) u = (round_robin-IsLoadBalancer to_string).member b u
    member_law (weighted b) u = (weighted-IsLoadBalancer to_string).member b u
    member_law (least_connections b) u = (least_connections-IsLoadBalancer to_string).member b u
    member_law (random b) u = (random-IsLoadBalancer generator to_string).member b u

    pub balancer-IsLoadBalancer :
        IsLoadBalancer to_string
          (next_target generator)
          add_target
          (remove_target to_string)
          get_targets
    balancer-IsLoadBalancer = record {
      add = add_law;
      remove = remove_law;
      keep = keep_law;
      member = member_law;
    }

  module _ (to_string : U → String) where
    pub get_targets-mark_unhealthy :
        (b : Balancer U G) (u : U) → get_targets (mark_unhealthy to_string b u) ≡ get_targets b
    unfolding get_targets mark_unhealthy LeastConnections.get_targets
        LeastConnections.mark_unhealthy
    get_targets-mark_unhealthy (round_robin b) u = refl
    get_targets-mark_unhealthy (weighted b) u = refl
    get_targets-mark_unhealthy (random b) u = refl
    get_targets-mark_unhealthy (least_connections b) u =
        map-update_first to_string (λ (t : ConnectionTarget U). t.url) (to_string u)
          (λ t. record t { healthy = false }) (λ t. refl) b.targets
