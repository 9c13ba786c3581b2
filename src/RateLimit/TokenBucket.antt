-- ===== src/RateLimit/TokenBucket.antt =====
-- `TokenBucket` of internal/ratelimit/algorithms.go. The limiter of golang.org/x/time/rate is a
-- parameter: `L` for its state, with its constructor and its `Allow` at a reading of the clock. Its
-- `Tokens` is only logged. The rate and the burst are Go ints.
pub mod Keys
use apigateway_distributed_s.Base.{ℕ, Bool, none, some, [], String, Dict, lookup, insert, delete}
use apigateway_distributed_s.Base.Int.{ℤ}

pub record RateLimiter (L : Type 0) : Type 0 where
  pub new_limiter : ℤ → ℤ → L
  pub allow : L → ℕ → L × Bool

pub record TokenBucket (L : Type 0) : Type 0 where
  pub limiters : Dict L
  pub rate : ℤ
  pub burst : ℤ

unfoldable pub new_token_bucket : {L : Type 0} → ℤ → ℤ → TokenBucket L
new_token_bucket rps burst = record { limiters = []; rate = rps; burst = burst }

module _ {L : Type 0} (rate : RateLimiter L) where
  -- The limiter of a key; a key without one gets a new one.
  unfoldable pub limiter_of : TokenBucket L → String → L
  limiter_of tb key = elim (lookup key tb.limiters) [
    | none ↦ rate.new_limiter tb.rate tb.burst
    | some l ↦ l
  ]

  unfoldable pub allow : TokenBucket L → String → ℕ → TokenBucket L × Bool
  unfolding limiter_of
  allow tb key now =
      let (limiter, allowed) = rate.allow (limiter_of tb key) now in
      (record tb { limiters = insert key limiter tb.limiters }, allowed)

unfoldable pub reset : {L : Type 0} → TokenBucket L → String → TokenBucket L
reset tb key = record tb { limiters = delete key tb.limiters }
