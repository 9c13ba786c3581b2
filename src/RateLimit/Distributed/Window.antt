-- ===== src/RateLimit/Distributed/Window.antt =====
-- How long, and how finely, the distributed limiter counts. `Allow` hands the script its window in
-- milliseconds, and the script multiplies it by 1000 as if it were in seconds.
use apigateway_distributed_s.Base.{
  ℕ, zero, suc, ◌+◌, ◌*◌, ◌/◌, ◌≤◌, ◌<◌, ◌≡◌, refl, true, false, none, some, List, [], ◌∷◌, arith,
  ◌==◌, ltb, lt→ltb,
}
use apigateway_distributed_s.Base.Int.{pos, ◌-ℤ◌, ltb_ℤ}
use apigateway_distributed_s.RateLimit.Distributed.{
  SortedSets, Entry, DistributedRateLimit, reply, script, present, allow, repeat,
}

abbrev pub replicate {ℓ} : {A : Type ℓ} → ℕ → A → List A
replicate zero a = []
replicate (suc n) a = a ∷ replicate n a

above_cutoff : (now k m : ℕ) → now < m + k → ltb_ℤ (pos now -ℤ pos k) (pos m) ≡ true
unfolding ◌-ℤ◌
above_cutoff now k m h = ground arith

module _ {Z : Type 0} (redis : SortedSets Z) where
  -- Every admission that a set holds is within `k` milliseconds of `now`.
  abbrev pub IsWithin : ℕ → ℕ → Z → Type 0
  IsWithin k now z = (m : ℕ) → redis.has m z ≡ true → now < m + k

  nothing_old :
      (k now : ℕ) (z : Z) → IsWithin k now z → redis.zremrangebyscore (pos now -ℤ pos k) z ≡ z
  nothing_old k now z h = redis.zremrangebyscore_none _ z (λ m e. above_cutoff now k m (h m e))

  script_full :
      (window limit now : ℕ) (e : Entry Z)
      → IsWithin (window * 1000) now (present redis now e)
      → limit ≤ redis.zcard (present redis now e)
      → script redis window limit now e ≡ (record e { members = present redis now e }, (0, 0))
  unfolding script
  script_full window limit now e h full =
      let shut : ltb (redis.zcard (present redis now e)) limit ≡ false = ground arith in
      rw (nothing_old (window * 1000) now (present redis now e) h, shut) refl

  -- While the key's set holds the limit of admissions and all are within 1000 times the configured
  -- window, in milliseconds, a call is refused: also where all of them are older than the window.
  pub allow-late :
      (drl : DistributedRateLimit) (now : ℕ) (e : Entry Z)
      → IsWithin (drl.window / 1_000_000 * 1000) now (present redis now e)
      → drl.limit ≤ redis.zcard (present redis now e)
      → (allow redis drl true now e).1 ≡ reply false
  unfolding allow
  allow-late drl now e h full =
      rw (script_full (drl.window / 1_000_000) drl.limit now e h full) refl

  script_room :
      (window limit now : ℕ) (e : Entry Z)
      → IsWithin (window * 1000) now (present redis now e)
      → redis.zcard (present redis now e) < limit
      → (script redis window limit now e).0 ≡ record {
        members = redis.zadd now (present redis now e);
        deadline = some (now + window * 1000);
      }
        × ((script redis window limit now e).1.0 ≡ 1)
  unfolding script
  script_room window limit now e h room =
      let open_ : ltb (redis.zcard (present redis now e)) limit ≡ true = lt→ltb _ _ room in
      (
        rw (nothing_old (window * 1000) now (present redis now e) h, open_) refl,
        rw (nothing_old (window * 1000) now (present redis now e) h, open_) refl,
      )

  module _ (drl : DistributedRateLimit) (now : ℕ) (long : 1_000_000 ≤ drl.window)
      (two : 2 ≤ drl.limit) where
    abbrev far : ℕ
    far = drl.window / 1_000_000 * 1000

    abbrev one : Entry Z
    one = record { members = redis.zadd now redis.empty; deadline = some (now + far) }

    present-one : present redis now one ≡ redis.zadd now redis.empty
    present-one = ground arith

    one-IsWithin : IsWithin far now (redis.zadd now redis.empty)
    one-IsWithin m e = ground (arith, redis.has-zadd m now redis.empty, redis.has-empty m)

    one_card : redis.zcard (redis.zadd now redis.empty) ≡ 1
    one_card =
        ground (arith, redis.zcard-zadd now redis.empty, redis.has-empty now, redis.zcard-empty)

    again : (script redis (drl.window / 1_000_000) drl.limit now one).0 ≡ one
    again =
        let r =
          script_room (drl.window / 1_000_000) drl.limit now one (rw present-one one-IsWithin)
            (rw (present-one, one_card) two) in
        let same : redis.zadd now (redis.zadd now redis.empty) ≡ redis.zadd now redis.empty =
          redis.zadd_present now _ (ground (arith, redis.has-zadd now now redis.empty)) in
        rw (r.0, present-one, same) refl

    again_allowed : (script redis (drl.window / 1_000_000) drl.limit now one).1.0 ≡ 1
    again_allowed =
        (script_room (drl.window / 1_000_000) drl.limit now one (rw present-one one-IsWithin)
          (rw (present-one, one_card) two)).1

    allow_lem :
        (e : Entry Z)
        → let r = script redis (drl.window / 1_000_000) drl.limit now e in
          allow redis drl true now e ≡ (r.0, reply (r.1.0 == 1))
    unfolding allow
    allow_lem e = refl

    repeat-one : (n : ℕ) → repeat redis n drl now one ≡ replicate n (reply true)
    unfolding repeat
    repeat-one zero = refl
    repeat-one (suc n) = rw (allow_lem one, again, again_allowed, repeat-one n) refl

    abbrev pub fresh : Entry Z
    fresh = record { members = redis.empty; deadline = none }

    first :
        (script redis (drl.window / 1_000_000) drl.limit now fresh).0 ≡ one
        × ((script redis (drl.window / 1_000_000) drl.limit now fresh).1.0 ≡ 1)
    first =
        script_room (drl.window / 1_000_000) drl.limit now fresh
          (λ m e. absurd (ground (arith, redis.has-empty m))) (rw redis.zcard-empty (omega arith))

    -- With a limit of at least two and a window of at least a millisecond, any number of calls in the
    -- same millisecond is admitted for a key that has no admissions before them, since they make one
    -- entry of the set.
    pub repeat-same_millisecond : (n : ℕ) → repeat redis n drl now fresh ≡ replicate n (reply true)
    unfolding repeat
    repeat-same_millisecond zero = refl
    repeat-same_millisecond (suc n) = rw (allow_lem fresh, first.0, first.1, repeat-one n) refl
