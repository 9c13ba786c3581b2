-- ===== src/LoadBalancer/Contract.antt =====
-- What the interface `LoadBalancer` of pkg/loadbalancer/load_balancer.go promises to its client, the
-- reverse proxy: laws over the operations, in terms of the list that `GetTargets` returns.
mod RoundRobin
mod Weighted
mod Random
mod LeastConnections
pub use RoundRobin.*
pub use Weighted.*
pub use Random.*
pub use LeastConnections.*
