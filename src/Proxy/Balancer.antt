-- ===== src/Proxy/Balancer.antt =====
-- The interface `LoadBalancer` of pkg/loadbalancer/load_balancer.go as the reverse proxy uses it: a
-- value of one of the four types, and the test whether it is a `HealthChecker` besides.
pub mod Targets
use apigateway_distributed_s.Base.{Option, List, [], String, str_eq, if◌then◌else◌}
use apigateway_distributed_s.LoadBalancer.RoundRobin
use apigateway_distributed_s.LoadBalancer.RoundRobin.{RoundRobin}
use apigateway_distributed_s.LoadBalancer.Weighted
use apigateway_distributed_s.LoadBalancer.Weighted.{WeightedRoundRobin}
use apigateway_distributed_s.LoadBalancer.LeastConnections
use apigateway_distributed_s.LoadBalancer.LeastConnections.{LeastConnections}
use apigateway_distributed_s.LoadBalancer.Random
use apigateway_distributed_s.LoadBalancer.Random.{Random, Generator}

pub data Balancer (U G : Type 0) : Type 0 where
  round_robin : RoundRobin U → Balancer U G
  weighted : WeightedRoundRobin U → Balancer U G
  least_connections : LeastConnections U → Balancer U G
  random : Random U G → Balancer U G

module _ {U G : Type 0} where
  -- The switch of `NewReverseProxy`; the seed is for the random balancer.
  unfoldable pub new_balancer : String → G → List U → Balancer U G
  new_balancer name seed targets =
      if str_eq name "round_robin"
      then round_robin (RoundRobin.new_round_robin targets)
      else if str_eq name "weighted_round_robin"
      then weighted (Weighted.new_weighted_round_robin targets [])
      else if str_eq name "least_connections"
      then least_connections (LeastConnections.new_least_connections targets)
      else if str_eq name "random"
      then random (Random.new_random seed targets)
      else round_robin (RoundRobin.new_round_robin targets)

  unfoldable pub next_target : Generator G → Balancer U G → Balancer U G × Option U
  next_target generator (round_robin b) =
      let (b', t) = RoundRobin.next_target b in (round_robin b', t)
  next_target generator (weighted b) = let (b', t) = Weighted.next_target b in (weighted b', t)
  next_target generator (least_connections b) =
      let (b', t) = LeastConnections.next_target b in (least_connections b', t)
  next_target generator (random b) = let (b', t) = Random.next_target generator b in (random b', t)

  unfoldable pub get_targets : Balancer U G → List U
  get_targets (round_robin b) = RoundRobin.get_targets b
  get_targets (weighted b) = Weighted.get_targets b
  get_targets (least_connections b) = LeastConnections.get_targets b
  get_targets (random b) = Random.get_targets b

  unfoldable pub add_target : Balancer U G → U → Balancer U G
  add_target (round_robin b) target = round_robin (RoundRobin.add_target b target)
  add_target (weighted b) target = weighted (Weighted.add_target b target)
  add_target (least_connections b) target = least_connections (LeastConnections.add_target b target)
  add_target (random b) target = random (Random.add_target b target)

  unfoldable pub remove_target : (U → String) → Balancer U G → U → Balancer U G
  remove_target to_string (round_robin b) target =
      round_robin (RoundRobin.remove_target to_string b target)
  remove_target to_string (weighted b) target = weighted (Weighted.remove_target to_string b target)
  remove_target to_string (least_connections b) target =
      least_connections (LeastConnections.remove_target to_string b target)
  remove_target to_string (random b) target = random (Random.remove_target to_string b target)

  -- Only `LeastConnections` has the methods of `HealthChecker`.
  unfoldable pub mark_unhealthy : (U → String) → Balancer U G → U → Balancer U G
  mark_unhealthy to_string (least_connections b) target =
      least_connections (LeastConnections.mark_unhealthy to_string b target)
  mark_unhealthy to_string (round_robin b) target = round_robin b
  mark_unhealthy to_string (weighted b) target = weighted b
  mark_unhealthy to_string (random b) target = random b
