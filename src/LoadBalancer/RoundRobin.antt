-- ===== src/LoadBalancer/RoundRobin.antt =====
-- `RoundRobin` of pkg/loadbalancer/load_balancer.go. The counter is a uint64 and wraps at 2^64.
-- `U` stands for `*url.URL` and `to_string` for its `String()`, of Go's net/url.
pub mod Rotation
use apigateway_distributed_s.Base.{
  ℕ, zero, suc, ◌+◌, ◌%◌, ◌^◌, Option, none, List, [], ◌∷◌, ◌++◌, String, length, get_elem?,
}
use apigateway_distributed_s.LoadBalancer.Target.{remove_first}

pub record RoundRobin {ℓ} (U : Type ℓ) : Type ℓ where
  pub targets : List U
  pub current : ℕ

module _ {ℓ} {U : Type ℓ} where
  unfoldable pub new_round_robin : List U → RoundRobin U
  new_round_robin targets = record { targets = targets; current = 0 }

  -- `none` is the nil that the code returns where there is no target.
  unfoldable pub next_target : RoundRobin U → RoundRobin U × Option U
  next_target rr = elim rr.targets [
    | [] ↦ (rr, none)
    | t ∷ ts ↦
        let current = (rr.current + 1) % 2 ^ 64 in
        let index = current % length (t ∷ ts) in
        (record rr { current = current }, get_elem? (t ∷ ts) index)
  ]

  unfoldable pub add_target : RoundRobin U → U → RoundRobin U
  add_target rr target = record rr { targets = rr.targets ++ target ∷ [] }

  unfoldable pub remove_target : (U → String) → RoundRobin U → U → RoundRobin U
  remove_target to_string rr target = record rr {
    targets = remove_first to_string (to_string target) rr.targets;
  }

  unfoldable pub get_targets : RoundRobin U → List U
  get_targets rr = rr.targets

  -- The answers of `k` calls of `next_target` in a row.
  unfoldable pub next_targets : ℕ → RoundRobin U → RoundRobin U × List (Option U)
  next_targets zero rr = (rr, [])
  next_targets (suc k) rr =
      let (rr', t) = next_target rr in let (rr'', ts) = next_targets k rr' in (rr'', t ∷ ts)
