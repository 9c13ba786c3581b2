-- ===== src/LoadBalancer/Weighted.antt =====
-- `WeightedRoundRobin` of pkg/loadbalancer/load_balancer.go. The code keeps a pointer to the target
-- that it selects, and the model the target's position in the list beside it, since each entry of
-- the list is an object of its own. Go's `int` has 64 bits, and its sums wrap. `U` stands for `*url.URL` and `to_string` for its `String()`.
pub mod Sums
pub mod Scan
pub mod Step
pub mod Totals
pub mod Configured
pub mod Fair
use mathlib.Core.Option
use apigateway_distributed_s.Base.{
  ℕ, zero, suc, ◌+◌, Bool, true, Option, none, some, List, [], ◌∷◌, ◌++◌, String, map, set,
  if◌then◌else◌,
}
use apigateway_distributed_s.Base.Int.{ℤ, pos, ◌+ℤ◌, ◌-ℤ◌, ltb_ℤ, int64}
use apigateway_distributed_s.LoadBalancer.Target.{remove_first}

pub record WeightedTarget {ℓ} (U : Type ℓ) : Type ℓ where
  pub url : U
  pub weight : ℤ
  pub current_weight : ℤ

-- The field `current` of the code is never read or written.
pub record WeightedRoundRobin {ℓ} (U : Type ℓ) : Type ℓ where
  pub targets : List (WeightedTarget U)

-- The weight of the next target, which is 1 unless `weights` has a positive entry for it, and the
-- entries that are left for the targets behind it.
unfoldable pub weight_or_default : List ℤ → ℤ × List ℤ
weight_or_default [] = (pos 1, [])
weight_or_default (w ∷ ws) = (if ltb_ℤ (pos 0) w then w else pos 1, ws)

module _ {ℓ} {U : Type ℓ} where
  unfoldable pub weigh : List U → List ℤ → List (WeightedTarget U)
  unfolding weight_or_default
  weigh [] ws = []
  weigh (url ∷ urls) ws =
      let (weight, rest) = weight_or_default ws in
      record { url = url; weight = weight; current_weight = pos 0 } ∷ weigh urls rest

  unfoldable pub new_weighted_round_robin : List U → List ℤ → WeightedRoundRobin U
  unfolding weigh
  new_weighted_round_robin urls weights = record { targets = weigh urls weights }

  abbrev pub raise : WeightedTarget U → WeightedTarget U
  raise t = record t { current_weight = int64 (t.current_weight +ℤ t.weight) }

  -- The loop that adds each weight to `totalWeight` and to its target's current weight.
  unfoldable pub raise_all : ℤ → List (WeightedTarget U) → ℤ × List (WeightedTarget U)
  raise_all total [] = (total, [])
  raise_all total (t ∷ ts) =
      let (sum, raised) = raise_all (int64 (total +ℤ t.weight)) ts in (sum, raise t ∷ raised)

  -- `selected == nil || target.CurrentWeight > selected.CurrentWeight`
  abbrev pub is_better : WeightedTarget U → Option (ℕ × WeightedTarget U) → Bool
  is_better t none = true
  is_better t (some (_, best)) = ltb_ℤ best.current_weight t.current_weight

  -- The loop that finds the target with the highest current weight, from position `i` on.
  unfoldable pub select :
      ℕ → Option (ℕ × WeightedTarget U) → List (WeightedTarget U) → Option (ℕ × WeightedTarget U)
  select i selected [] = selected
  select i selected (t ∷ ts) =
      select (suc i) (if is_better t selected then some (i, t) else selected) ts

  -- `selected.CurrentWeight -= totalWeight`, and the position and URL of the selected target.
  unfoldable pub lower_selected :
      ℤ
      → List (WeightedTarget U)
      → Option (ℕ × WeightedTarget U)
      → WeightedRoundRobin U × Option (ℕ × U)
  lower_selected total ts none = (record { targets = ts }, none)
  lower_selected total ts (some (i, best)) = (
    record {
      targets = set ts i (record best { current_weight = int64 (best.current_weight -ℤ total) });
    },
    some (i, best.url),
  )

  abbrev pub pick_raised : ℤ × List (WeightedTarget U) → WeightedRoundRobin U × Option (ℕ × U)
  pick_raised (total, ts) = lower_selected total ts (select 0 none ts)

  -- `NextTarget` with the position of the answer beside its URL.
  unfoldable pub next_pick : WeightedRoundRobin U → WeightedRoundRobin U × Option (ℕ × U)
  unfolding raise_all select lower_selected
  next_pick wrr = elim wrr.targets [
    | [] ↦ (wrr, none)
    | t ∷ ts ↦ pick_raised (raise_all (pos 0) (t ∷ ts))
  ]

  unfoldable pub next_target : WeightedRoundRobin U → WeightedRoundRobin U × Option U
  unfolding next_pick
  next_target wrr = let (wrr', pick) = next_pick wrr in (wrr', Option.map (λ p. p.1) pick)

  unfoldable pub add_target : WeightedRoundRobin U → U → WeightedRoundRobin U
  add_target wrr target = record {
    targets = wrr.targets ++ record { url = target; weight = pos 1; current_weight = pos 0 } ∷ [];
  }

  unfoldable pub remove_target : (U → String) → WeightedRoundRobin U → U → WeightedRoundRobin U
  remove_target to_string wrr target = record {
    targets = remove_first (λ t. to_string t.url) (to_string target) wrr.targets;
  }

  unfoldable pub get_targets : WeightedRoundRobin U → List U
  get_targets wrr = map (λ t. t.url) wrr.targets

  -- The state and the answers after `k` calls in a row.
  unfoldable pub next_picks :
      ℕ → WeightedRoundRobin U → WeightedRoundRobin U × List (Option (ℕ × U))
  next_picks zero wrr = (wrr, [])
  next_picks (suc k) wrr =
      let (wrr', p) = next_pick wrr in let (wrr'', ps) = next_picks k wrr' in (wrr'', p ∷ ps)
