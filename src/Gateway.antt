-- ===== src/Gateway.antt =====
-- internal/gateway/gateway.go: the request that no other route takes, and the handlers of the admin
-- and token routes.
pub mod Paths
pub mod Requests
pub mod Routes
pub mod Services
pub mod Handlers
