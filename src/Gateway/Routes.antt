-- ===== src/Gateway/Routes.antt =====
-- The handlers in front of the routes of internal/gateway/gateway.go. gin puts those of the router in
-- front of those of a group. Each chain has its own request id.
pub mod Charges
use apigateway_distributed_s.Base.{List, [], ◌∷◌, ◌++◌, String}
use apigateway_distributed_s.Base.Int.{ℤ}
use apigateway_distributed_s.Auth.Jwt.{Jwt}
use apigateway_distributed_s.RateLimit.Manager.{Algorithm}
use apigateway_distributed_s.Middleware.Chain.{
  Handler, Manager, create_default_chain, create_auth_chain, create_admin_chain, jwt_handler,
}

module _ {A W E : Type 0} (alg : Algorithm A W E) (m : Manager) (id : String) where
  -- The public routes, the login, and the requests for the services.
  unfoldable pub open_route : List (Handler A W)
  unfolding create_default_chain
  open_route = create_default_chain alg m id

  module _ {M : Type 0} (jwt : Jwt M) (now : ℤ) where
    -- The refresh and the logout take the last handler of an auth chain.
    unfoldable pub token_route : List (Handler A W)
    unfolding create_default_chain jwt_handler
    token_route = create_default_chain alg m id ++ jwt_handler jwt m.jwt_auth now ∷ []

    unfoldable pub admin_route : String → List (Handler A W)
    unfolding create_default_chain create_admin_chain
    admin_route id' = create_default_chain alg m id ++ create_admin_chain alg jwt m id' now

    unfoldable pub api_route : String → List (Handler A W)
    unfolding create_default_chain create_auth_chain
    api_route id' = create_default_chain alg m id ++ create_auth_chain alg jwt m id' now
