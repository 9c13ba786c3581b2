-- ===== src/LoadBalancer/Random.antt =====
-- `Random` of pkg/loadbalancer/load_balancer.go. Go's generator `rand.Rand` is a parameter: `G` for
-- its state, and `intn` for `Intn`. `U` stands for `*url.URL` and `to_string` for its `String()`.
use apigateway_distributed_s.Base.{
  ℕ, ◌<◌, Option, none, List, [], ◌∷◌, ◌++◌, String, length, get_elem?,
}
use apigateway_distributed_s.LoadBalancer.Target.{remove_first}

-- Documented of `Intn(n)`: for a positive `n` it returns a number of the half-open range [0, n).
pub record Generator {ℓ} (G : Type ℓ) : Type ℓ where
  pub intn : ℕ → G → ℕ × G
  pub intn-lt : (n : ℕ) (g : G) → 0 < n → (intn n g).0 < n

pub record Random {ℓ} (U G : Type ℓ) : Type ℓ where
  pub targets : List U
  pub rand : G

module _ {ℓ} {U G : Type ℓ} (generator : Generator G) where
  unfoldable pub next_target : Random U G → Random U G × Option U
  next_target r = elim r.targets [
    | [] ↦ (r, none)
    | t ∷ ts ↦
        let (index, rand) = generator.intn (length (t ∷ ts)) r.rand in
        (record r { rand = rand }, get_elem? (t ∷ ts) index)
  ]

module _ {ℓ} {U G : Type ℓ} where
  -- `seed` stands for the state of `rand.New(rand.NewSource(time.Now().UnixNano()))`.
  unfoldable pub new_random : G → List U → Random U G
  new_random seed targets = record { targets = targets; rand = seed }

  unfoldable pub add_target : Random U G → U → Random U G
  add_target r target = record r { targets = r.targets ++ target ∷ [] }

  unfoldable pub remove_target : (U → String) → Random U G → U → Random U G
  remove_target to_string r target = record r {
    targets = remove_first to_string (to_string target) r.targets;
  }

  unfoldable pub get_targets : Random U G → List U
  get_targets r = r.targets
