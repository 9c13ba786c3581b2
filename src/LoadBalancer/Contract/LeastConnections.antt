-- ===== src/LoadBalancer/Contract/LeastConnections.antt =====
-- The least-connections balancer keeps the contract. It answers nil where no target is healthy.
use mathlib.Core.List.{map-append}
use apigateway_distributed_s.Base.{
  ℕ, ◌≡◌, refl, ap, ◌∙◌, inl, inr, some, String, arith, get_elem?, map-set, some_injective,
  get_elem?-map,
}
use apigateway_distributed_s.LoadBalancer.LeastConnections
use apigateway_distributed_s.LoadBalancer.LeastConnections.{LeastConnections, ConnectionTarget}
use apigateway_distributed_s.LoadBalancer.LeastConnections.Least.{busier, next_target-IsLeast}
use apigateway_distributed_s.LoadBalancer.Target.{map-remove_first}
use apigateway_distributed_s.LoadBalancer.Laws.{IsLoadBalancer}

module _ {ℓ} {U : Type ℓ} where
  abbrev url : ConnectionTarget U → U
  url t = t.url

  keep_at :
      (lc : LeastConnections U)
      → LeastConnections.get_targets (LeastConnections.next_target lc).0
        ≡ LeastConnections.get_targets lc
  unfolding LeastConnections.get_targets
  keep_at lc = elim (next_target-IsLeast lc) [
    | inl (found, _) ↦ rw found refl
    | inr (j, b, is, found) ↦ rw found (map-set url lc.targets j b (busier b) is.there refl)
  ]

  member_at :
      (lc : LeastConnections U) (u : U)
      → (LeastConnections.next_target lc).1 ≡ some u
      → (j : ℕ) × (get_elem? (LeastConnections.get_targets lc) j ≡ some u)
  unfolding LeastConnections.get_targets
  member_at lc u e = elim (next_target-IsLeast lc) [
    | inl (found, _) ↦ absurd (ground arith)
    | inr (j, b, is, found) ↦ (
      j,
      get_elem?-map url lc.targets j b is.there ∙ ap some (some_injective b.url u (ground arith)),
    )
  ]

  -- `LeastConnections` is a load balancer: it adds at the end, removes the first match, and answers
  -- one of its targets or nil, and a call leaves the list of URLs as it is.
  pub least_connections-IsLoadBalancer :
      (to_string : U → String)
      → IsLoadBalancer to_string LeastConnections.next_target LeastConnections.add_target
          (LeastConnections.remove_target to_string)
          LeastConnections.get_targets
  unfolding LeastConnections.get_targets LeastConnections.add_target LeastConnections.remove_target
  least_connections-IsLoadBalancer to_string = record {
    add = λ s u. map-append url s.targets _;
    remove = λ s u. map-remove_first to_string url (to_string u) s.targets;
    keep = keep_at;
    member = member_at;
  }
