-- ===== src/Tests/Balancers.antt =====
-- The theorems on the load balancers at three backends named `a`, `b` and `c`.
use apigateway_distributed_s.Base.{
  ℕ, ◌+◌, ◌%◌, ◌<◌, ◌≡◌, refl, ◌⊎◌, Bool, true, false, none, some, List, [], ◌∷◌, String, map, set,
  count_if, All, arith, str_eq, ◌==◌,
}
use apigateway_distributed_s.Base.Int.{ℤ, pos}
use apigateway_distributed_s.LoadBalancer.RoundRobin.{RoundRobin, next_targets}
use apigateway_distributed_s.LoadBalancer.RoundRobin.Rotation.{next_targets-rotation}
use apigateway_distributed_s.LoadBalancer.Weighted.{new_weighted_round_robin, next_picks}
use apigateway_distributed_s.LoadBalancer.Weighted.Fair.{next_picks-fair}
use apigateway_distributed_s.LoadBalancer.Weighted.Sums.{every}
use apigateway_distributed_s.LoadBalancer.Weighted.Configured.{configured, shares}
use apigateway_distributed_s.LoadBalancer.Weighted.Totals.{passes}
use apigateway_distributed_s.LoadBalancer.LeastConnections.Scan.{IsUnhealthy, IsLeast}
use apigateway_distributed_s.LoadBalancer.LeastConnections.{
  LeastConnections, ConnectionTarget, next_target, release_connection, mark_unhealthy,
}
use apigateway_distributed_s.LoadBalancer.LeastConnections.Least.{
  busier, next_target-IsLeast, release_connection-next_target,
}
use apigateway_distributed_s.LoadBalancer.LeastConnections.Health.{next_target-mark_unhealthy}
use apigateway_distributed_s.LoadBalancer.Random.{Generator}

pub remainder : (g n : ℕ) → 0 < n → g % n < n
remainder g n h = omega arith

abbrev backends : List String
backends = "a" ∷ "b" ∷ "c" ∷ []

abbrev same : String → String
same s = s

abbrev fresh_robin : RoundRobin String
fresh_robin = record { targets = backends; current = 0 }

next_targets-rotation_example :
    next_targets 3 fresh_robin
    ≡ (record fresh_robin { current = 3 }, map some ("b" ∷ "c" ∷ "a" ∷ []))
next_targets-rotation_example = next_targets-rotation fresh_robin (omega arith) (omega arith)

abbrev weights : List ℤ
weights = pos 5 ∷ pos 1 ∷ pos 1 ∷ []

abbrev is_first : ℕ → String → Bool
is_first i u = i == 0

next_picks-fair_example :
    let wrr = new_weighted_round_robin backends weights in
    let r = next_picks (shares every backends (configured weights)) wrr in
    (r.0 ≡ wrr) × (count_if (passes is_first) r.1 ≡ shares is_first backends (configured weights))
next_picks-fair_example = next_picks-fair backends weights is_first (omega arith)

-- The first target is down, and the second is the less busy of the others.
abbrev busy : LeastConnections String
busy = record {
  targets =
      record { url = "a"; connections = pos 0; healthy = false }
      ∷ record { url = "b"; connections = pos 1; healthy = true }
      ∷ record { url = "c"; connections = pos 2; healthy = true }
      ∷ [];
}

next_target-IsLeast_example :
    ((next_target busy ≡ (busy, none)) × All IsUnhealthy busy.targets)
    ⊎ ((j : ℕ) × (b : ConnectionTarget String) × IsLeast busy.targets j b
        × (next_target busy ≡ (record { targets = set busy.targets j (busier b) }, some b.url)))
next_target-IsLeast_example = next_target-IsLeast busy

next_target-busy : (next_target busy).1 ≡ some "b"
unfolding next_target
next_target-busy = refl

release_connection-next_target_example : release_connection same (next_target busy).0 "b" ≡ busy
release_connection-next_target_example =
    release_connection-next_target same busy "b" ((refl, (refl, tt)), ((refl, tt), (tt, tt)))
      ((omega arith, omega arith), ((omega arith, omega arith), ((omega arith, omega arith), tt)))
      next_target-busy

next_target_marked : (next_target (mark_unhealthy same busy "b")).1 ≡ some "c"
unfolding next_target mark_unhealthy
next_target_marked = refl

next_target-mark_unhealthy_example : str_eq (same "c") (same "b") ≡ false
next_target-mark_unhealthy_example =
    next_target-mark_unhealthy same busy "b" "c" ((refl, (refl, tt)), ((refl, tt), (tt, tt)))
      next_target_marked

-- A generator that counts up.
abbrev pub counting : Generator ℕ
counting = record { intn = λ n g. (g % n, g + 1); intn-lt = λ n g h. remainder g n h }
