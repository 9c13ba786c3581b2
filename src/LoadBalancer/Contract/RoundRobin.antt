-- ===== src/LoadBalancer/Contract/RoundRobin.antt =====
-- The round-robin balancer keeps the contract, whatever its counter.
use native.Mathlib.Nat.{mod-lt}
use apigateway_distributed_s.Base.{
  ℕ, ◌+◌, ◌%◌, ◌^◌, ◌<◌, ◌≡◌, refl, some, List, [], ◌∷◌, String, arith, length, get_elem?,
  get_elem?-total,
}
use apigateway_distributed_s.LoadBalancer.RoundRobin
use apigateway_distributed_s.LoadBalancer.RoundRobin.{RoundRobin}
use apigateway_distributed_s.LoadBalancer.Laws.{IsLoadBalancer, AlwaysAnswers}

module _ {ℓ} {U : Type ℓ} where
  keep_at :
      (ts : List U) (c : ℕ)
      → RoundRobin.get_targets (RoundRobin.next_target (record { targets = ts; current = c })).0
        ≡ ts
  unfolding RoundRobin.get_targets RoundRobin.next_target
  keep_at [] c = refl
  keep_at (t ∷ ts) c = refl

  member_at :
      (ts : List U) (c : ℕ) (u : U)
      → (RoundRobin.next_target (record { targets = ts; current = c })).1 ≡ some u
      → (j : ℕ) × (get_elem? ts j ≡ some u)
  unfolding RoundRobin.next_target
  member_at [] c u e = absurd (ground arith)
  member_at (t ∷ ts) c u e = ((c + 1) % 2 ^ 64 % length (t ∷ ts), e)

  answers_at :
      (ts : List U) (c : ℕ)
      → 0 < length ts
      → (u : U) × ((RoundRobin.next_target (record { targets = ts; current = c })).1 ≡ some u)
  unfolding RoundRobin.next_target
  answers_at [] c h = absurd (omega arith)
  answers_at (t ∷ ts) c h = get_elem?-total (t ∷ ts) _ (mod-lt ((c + 1) % 2 ^ 64) h)

  -- `RoundRobin` is a load balancer: it adds at the end, removes the first match, and answers one
  -- of its targets, which a call leaves as they are.
  pub round_robin-IsLoadBalancer :
      (to_string : U → String)
      → IsLoadBalancer to_string RoundRobin.next_target RoundRobin.add_target
          (RoundRobin.remove_target to_string)
          RoundRobin.get_targets
  unfolding RoundRobin.get_targets RoundRobin.add_target RoundRobin.remove_target
  round_robin-IsLoadBalancer to_string = record {
    add = λ s u. refl;
    remove = λ s u. refl;
    keep = λ s. keep_at s.targets s.current;
    member = λ s u. member_at s.targets s.current u;
  }

  -- `RoundRobin` answers a target whenever it has one, also when its counter wraps.
  pub round_robin-AlwaysAnswers :
      AlwaysAnswers {U = U} RoundRobin.next_target RoundRobin.get_targets
  unfolding RoundRobin.get_targets
  round_robin-AlwaysAnswers = record { answers = λ s. answers_at s.targets s.current }
