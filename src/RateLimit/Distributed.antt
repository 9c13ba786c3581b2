-- ===== src/RateLimit/Distributed.antt =====
-- `DistributedRateLimit` of internal/ratelimit/algorithms.go, with the Lua script that it sends to
-- Redis. The sorted sets of Redis are a parameter, with the documented behaviour of the commands
-- that the script calls. The script adds each entry with its member for score, so a set is known by
-- its members, which are the milliseconds of admissions. Redis and the caller share one clock.
pub mod Window
use apigateway_distributed_s.Base.{
  ℕ, zero, suc, ◌+◌, ◌*◌, ◌/◌, ◌-◌, ◌≡◌, Bool, true, false, ◌||◌, Option, none, some, List, [], ◌∷◌,
  ◌==◌, ltb, leb, if◌then◌else◌,
}
use apigateway_distributed_s.Base.Int.{ℤ, pos, ◌-ℤ◌, ltb_ℤ}

-- Documented: ZADD adds a member or finds it there, ZREMRANGEBYSCORE from -inf to a score drops the
-- members up to it, and ZCARD counts the members.
pub record SortedSets (Z : Type 0) : Type 0 where
  pub empty : Z
  pub has : ℕ → Z → Bool
  pub zadd : ℕ → Z → Z
  pub zremrangebyscore : ℤ → Z → Z
  pub zcard : Z → ℕ
  pub zcard-empty : zcard empty ≡ 0
  pub has-empty : (m : ℕ) → has m empty ≡ false
  pub has-zadd : (m n : ℕ) (z : Z) → has m (zadd n z) ≡ ((m == n) || has m z)
  pub zcard-zadd : (n : ℕ) (z : Z) → zcard (zadd n z) ≡ (if has n z then zcard z else suc (zcard z))
  pub zadd_present : (n : ℕ) (z : Z) → has n z ≡ true → zadd n z ≡ z
  pub zremrangebyscore_none :
      (x : ℤ) (z : Z)
      → ((m : ℕ) → has m z ≡ true → ltb_ℤ x (pos m) ≡ true)
      → zremrangebyscore x z ≡ z

-- A key of Redis: its set, and the millisecond at which EXPIRE takes it away.
pub record Entry (Z : Type 0) : Type 0 where
  pub members : Z
  pub deadline : Option ℕ

-- `window` is the configured duration in nanoseconds; neither it nor the limit is negative here.
pub record DistributedRateLimit : Type 0 where
  pub limit : ℕ
  pub window : ℕ

-- What a round trip to Redis gives: the script's table, or an error.
pub data Reply (A : Type 0) : Type 0 where
  reply : A → Reply A
  failed : Reply A

module _ {Z : Type 0} (redis : SortedSets Z) where
  abbrev pub present : ℕ → Entry Z → Z
  present now e = elim e.deadline [
    | none ↦ e.members
    | some d ↦ if leb d now then redis.empty else e.members
  ]

  -- The script with ARGV = window, limit, now. EXPIRE takes seconds, and the clock is in
  -- milliseconds.
  unfoldable pub script : ℕ → ℕ → ℕ → Entry Z → Entry Z × (ℕ × ℕ)
  unfolding ◌-ℤ◌
  script window limit now e =
      let members = redis.zremrangebyscore (pos now -ℤ pos (window * 1000)) (present now e) in
      let current = redis.zcard members in
      if ltb current limit
      then (
        record { members = redis.zadd now members; deadline = some (now + window * 1000) },
        (1, limit - current - 1),
      )
      else (record e { members = members }, (0, 0))

  -- `Allow`. The flag says whether Redis answers: where it does not, the call is an error and the
  -- key stays as it was.
  unfoldable pub allow : DistributedRateLimit → Bool → ℕ → Entry Z → Entry Z × Reply Bool
  unfolding script
  allow drl false now e = (e, failed)
  allow drl true now e =
      let window_ms = drl.window / 1_000_000 in
      let (e', values) = script window_ms drl.limit now e in (e', reply (values.0 == 1))

  -- The answers of `n` calls in the same millisecond.
  unfoldable pub repeat : ℕ → DistributedRateLimit → ℕ → Entry Z → List (Reply Bool)
  repeat zero drl now e = []
  repeat (suc n) drl now e = let (e', answer) = allow drl true now e in answer ∷ repeat n drl now e'

unfoldable pub reset : {Z : Type 0} → SortedSets Z → Entry Z → Entry Z
reset redis e = record { members = redis.empty; deadline = none }
