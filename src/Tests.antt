-- ===== src/Tests.antt =====
-- Runs of the models on concrete inputs, and the theorems applied to them.
pub mod Balancers
pub mod Caches
pub mod Chains
pub mod Events
pub mod Gateways
pub mod Limiters
pub mod Proxies
pub mod Services
pub mod Stores
pub mod Tokens
