-- ===== src/LoadBalancer/Contract/Random.antt =====
-- The random balancer keeps the contract, by what is documented of Go's generator.
use apigateway_distributed_s.Base.{
  ℕ, ◌<◌, ◌≡◌, refl, some, List, [], ◌∷◌, String, arith, length, get_elem?, get_elem?-total,
}
use apigateway_distributed_s.LoadBalancer.Random
use apigateway_distributed_s.LoadBalancer.Random.{Random, Generator}
use apigateway_distributed_s.LoadBalancer.Laws.{IsLoadBalancer, AlwaysAnswers}

module _ {ℓ} {U G : Type ℓ} (generator : Generator G) where
  keep_at :
      (ts : List U) (g : G)
      → Random.get_targets (Random.next_target generator (record { targets = ts; rand = g })).0 ≡ ts
  unfolding Random.get_targets Random.next_target
  keep_at [] g = refl
  keep_at (t ∷ ts) g = refl

  member_at :
      (ts : List U) (g : G) (u : U)
      → (Random.next_target generator (record { targets = ts; rand = g })).1 ≡ some u
      → (j : ℕ) × (get_elem? ts j ≡ some u)
  unfolding Random.next_target
  member_at [] g u e = absurd (ground arith)
  member_at (t ∷ ts) g u e = ((generator.intn (length (t ∷ ts)) g).0, e)

  answers_at :
      (ts : List U) (g : G)
      → 0 < length ts
      → (u : U) × ((Random.next_target generator (record { targets = ts; rand = g })).1 ≡ some u)
  unfolding Random.next_target
  answers_at [] g h = absurd (omega arith)
  answers_at (t ∷ ts) g h = get_elem?-total (t ∷ ts) _ (generator.intn-lt (length (t ∷ ts)) g h)

  -- `Random` is a load balancer: it adds at the end, removes the first match, and answers one of
  -- its targets, which a call leaves as they are, whatever the generator draws.
  pub random-IsLoadBalancer :
      (to_string : U → String)
      → IsLoadBalancer to_string
          (Random.next_target generator)
          Random.add_target
          (Random.remove_target to_string)
          Random.get_targets
  unfolding Random.get_targets Random.add_target Random.remove_target
  random-IsLoadBalancer to_string = record {
    add = λ s u. refl;
    remove = λ s u. refl;
    keep = λ s. keep_at s.targets s.rand;
    member = λ s u. member_at s.targets s.rand u;
  }

  -- `Random` answers a target whenever it has one, since the generator draws within the bound.
  pub random-AlwaysAnswers : AlwaysAnswers {U = U} (Random.next_target generator) Random.get_targets
  unfolding Random.get_targets
  random-AlwaysAnswers = record { answers = λ s. answers_at s.targets s.rand }
