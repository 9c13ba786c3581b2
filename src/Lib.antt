-- ===== src/Lib.antt =====
-- Verification of the API gateway: its load balancers, rate limiters, configuration, tokens, circuit
-- breakers, caches, middleware, reverse proxy and the requests that go through them, as functions on
-- explicit state.
--
-- The parts and how they interact. The configuration manager (internal/config/config.go) loads,
-- validates and hands out the configuration that the other parts are built from. A request passes the
-- chains of internal/middleware/chain.go, which ask the rate limit manager
-- (internal/ratelimit/manager.go) and with it one of the algorithms of
-- internal/ratelimit/algorithms.go, and check tokens by internal/auth/jwt.go. The gateway
-- (internal/gateway/gateway.go) finds the service of the request by its path and runs the reverse
-- proxy of the service (internal/proxy/reverse_proxy.go) through its circuit breaker
-- (internal/circuit/breaker.go); the proxy asks a load balancer (pkg/loadbalancer/load_balancer.go)
-- for a target. The caches (internal/cache) and event processing (internal/events) stand by
-- themselves: no other part calls them.
--
-- Which file models which part:
--  * Base: the shared names and helpers. Base.Tests has the Boolean tests, Base.Lists the lists over
--    the native numbers, Base.Int Go's signed integers, and Base.Maps Go's maps with string keys.
--  * LoadBalancer: pkg/loadbalancer/load_balancer.go. RoundRobin, Weighted, Random and
--    LeastConnections have one function for each method of the type of that name (NextTarget is
--    next_target); Laws states what the interface LoadBalancer promises, and Contract shows it of the
--    four types. Weighted.Sums, Scan, Step, Totals, Configured and Fair lead to the fairness of the
--    smooth weighted algorithm; LeastConnections.Scan, Least and Health are about the choice and the health marks.
--  * RateLimit: internal/ratelimit. SlidingWindow, FixedWindow, TokenBucket and Distributed are the
--    types of algorithms.go with allow and reset; Spec modules state the abstract limiters, with a log
--    of admissions for each key, and Refines modules compare. Manager is manager.go.
--  * Config: internal/config/config.go. Types has the records, Validate validateConfig, and Manager
--    the rest, with Manager.Loads on what a sequence of loads leaves.
--  * Auth: internal/auth/jwt.go. Text has what it uses of Go's strings, Jwt the methods of JWTAuth,
--    Jwt.Tokens the way of a token through its validation, and Jwt.Roles the role tests.
--  * Middleware: JWTAuth, RequireRole and RequireAnyRole of internal/middleware/chain.go, with what they
--    pass in Middleware.Access. Middleware.Chain has the other handlers and the chains, where a
--    handler takes the rest of its chain; Guards, Admission and Ends are about what a chain lets
--    through and how it ends.
--  * Circuit: internal/circuit/breaker.go. Breaker is CircuitBreaker and Manager its manager, with
--    Manager.Safety and Manager.Health on what it tells. A protected function returns or panics.
--  * Cache: internal/cache. Lru is LRUCache of memory_cache.go on an explicit memory of list items, with
--    its specification in Lru.Spec; Linked, Keys, Rep, Fills, Moves, Steps and Sets lead to Lru.Refines and
--    Lru.Bounds. Memory is MemoryCache, Redis and Manager are RedisCache and Manager of redis_cache.go,
--    with a module for each thing that is shown of the manager.
--  * Proxy: internal/proxy/reverse_proxy.go. Balancer is the interface LoadBalancer as a sum of the four
--    types, Headers has modifyRequest and modifyResponse, Serve is ReverseProxy and Manager is
--    ProxyManager. A request may end with a panic (aborted), and an exchange that times out ends in a
--    step of its own (end_late).
--  * Gateway: internal/gateway/gateway.go. Requests has proxyRequest and getServiceHealth, Routes the
--    handlers in front of the routes, and Handlers those that issue tokens or change something.
--    Services is initializeServices of cmd/gateway/main.go, with Services.Breakers on what the
--    breakers of such a gateway do.
--  * Events: internal/events/processor.go. Events has the set-up of the clients and the publishing, as the
--    commands that are sent, and Consumers the loops over the messages.
--  * Tests: runs of the models and the theorems applied to concrete inputs.
--
-- Conventions. A method is a function from the state to the state and the result. A call is atomic:
-- the code holds a lock for its whole change, or for the change of one key. A reading of the clock is
-- an argument. Nil is none. The counter of RoundRobin wraps at 2^64, a connection count and the
-- sums of weights at 2^63; limits and durations are integers without a bound, since the code adds few
-- of them. No
-- definition needs fuel: every loop runs over a list. Log lines and metrics are left out, but for
-- those of the middleware, which are lists that its handlers write.
--
-- Libraries are parameters, as records of their operations with the behaviour that they document:
-- math/rand (LoadBalancer.Random.Generator), golang.org/x/time/rate (RateLimit.TokenBucket.RateLimiter),
-- the sorted sets of Redis (RateLimit.Distributed.SortedSets), viper (Config.Manager.Viper), golang-jwt
-- (Auth.Jwt.Jwt), gobreaker (Circuit.Breaker.GoBreaker), go-cache (Cache.Memory.GoCache), Redis
-- (Cache.Redis.RedisServer), encoding/json (Cache.Manager.Json) and net/url with the director of
-- net/http/httputil (Proxy.Serve.Url). gin is left to run a chain as its documentation says.
--
-- Not modelled: how gin finds the route of a request, the handlers of the gateway that only show
-- something, the start and the end of the clients for events, metrics (pkg/metrics), which only
-- records, and the rest of the commands (cmd), which only start the other parts. Calls that
-- interleave within one method are not modelled either.
pub mod Auth
pub mod Base
pub mod Cache
pub mod Circuit
pub mod Config
pub mod Events
pub mod Gateway
pub mod LoadBalancer
pub mod Middleware
pub mod Proxy
pub mod RateLimit
pub mod Tests
