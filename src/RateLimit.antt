-- ===== src/RateLimit.antt =====
-- internal/ratelimit: the algorithms of algorithms.go and the manager of manager.go. A point in
-- time is a number of nanoseconds since Go's zero time.
pub mod Call
pub mod SlidingWindow
pub mod FixedWindow
pub mod TokenBucket
pub mod Distributed
pub mod Manager
