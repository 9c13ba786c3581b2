-- ===== src/LoadBalancer/Laws.antt =====
-- What the interface `LoadBalancer` of pkg/loadbalancer/load_balancer.go promises to its client, the
-- reverse proxy: laws over the operations, in terms of the list that `GetTargets` returns.
use apigateway_distributed_s.Base.{
  ℕ, ◌<◌, ◌≡◌, Option, some, List, [], ◌∷◌, ◌++◌, String, length, get_elem?,
}
use apigateway_distributed_s.LoadBalancer.Target.{remove_first}

module _ {ℓ} {U S : Type ℓ} (to_string : U → String) (next_target : S → S × Option U)
    (add_target remove_target : S → U → S) (get_targets : S → List U) where
  pub record IsLoadBalancer : Type ℓ where
    -- A new target goes to the end.
    pub add : (s : S) (u : U) → get_targets (add_target s u) ≡ get_targets s ++ u ∷ []
    -- The first target that prints like the given one goes.
    pub remove :
        (s : S) (u : U)
        → get_targets (remove_target s u) ≡ remove_first to_string (to_string u) (get_targets s)
    -- A call of `NextTarget` leaves the targets, and answers one of them or nil.
    pub keep : (s : S) → get_targets (next_target s).0 ≡ get_targets s
    pub member :
        (s : S) (u : U)
        → (next_target s).1 ≡ some u
        → (j : ℕ) × (get_elem? (get_targets s) j ≡ some u)

-- A balancer that never answers nil while it has a target.
pub record AlwaysAnswers {ℓ} {U S : Type ℓ} (next_target : S → S × Option U)
    (get_targets : S → List U) : Type ℓ where
  pub answers : (s : S) → 0 < length (get_targets s) → (u : U) × ((next_target s).1 ≡ some u)
