-- ===== src/LoadBalancer.antt =====
-- pkg/loadbalancer/load_balancer.go: the four balancers.
pub mod Target
pub mod RoundRobin
pub mod Weighted
pub mod LeastConnections
pub mod Random
pub mod Laws
pub mod Contract
