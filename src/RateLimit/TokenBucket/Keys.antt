-- ===== src/RateLimit/TokenBucket/Keys.antt =====
-- The token buckets of different keys are independent: each key sees a limiter of its own.
use apigateway_distributed_s.Base.{
  ℕ, ◌≡◌, refl, ap, ◌∙◌, inl, inr, Bool, List, [], ◌∷◌, String, arith, str_eq, Dict, lookup, insert,
  delete, lookup-insert, lookup-delete, if◌then◌else◌, Bool-cases, eq_iff, eq_refl,
}
use apigateway_distributed_s.Base.Int.{ℤ}
use apigateway_distributed_s.RateLimit.Call.{Call, allows, resets}
use apigateway_distributed_s.RateLimit.TokenBucket.{
  RateLimiter, TokenBucket, new_token_bucket, limiter_of, allow, reset,
}

module _ {L : Type 0} (rate : RateLimiter L) where
  -- The answers to the calls of one key, out of a sequence of calls of all keys.
  unfoldable pub run_key : String → TokenBucket L → List Call → List Bool
  run_key key tb [] = []
  run_key key tb (allows k now ∷ cs) =
      let (tb', ok) = allow rate tb k now in
      let rest = run_key key tb' cs in if str_eq k key then ok ∷ rest else rest
  run_key key tb (resets k ∷ cs) = run_key key (reset tb k) cs

  -- One limiter alone, given the calls of its key and no others.
  unfoldable pub run_one : ℤ → ℤ → String → L → List Call → List Bool
  run_one rps burst key l [] = []
  run_one rps burst key l (allows k now ∷ cs) =
      let (l', ok) = rate.allow l now in
      let here = run_one rps burst key l' cs in
      let other = run_one rps burst key l cs in if str_eq k key then ok ∷ here else other
  run_one rps burst key l (resets k ∷ cs) =
      run_one rps burst key (if str_eq k key then rate.new_limiter rps burst else l) cs

  module _ (rps burst : ℤ) where
    abbrev at : Dict L → TokenBucket L
    at ls = record { limiters = ls; rate = rps; burst = burst }

    limiter_of-insert :
        (k j : String) (l : L) (ls : Dict L)
        → limiter_of rate (at (insert k l ls)) j
          ≡ (if str_eq k j then l else limiter_of rate (at ls) j)
    unfolding limiter_of
    limiter_of-insert k j l ls = rw (lookup-insert k j l ls, limiter_of) (ground arith)

    limiter_of-delete :
        (k j : String) (ls : Dict L)
        → limiter_of rate (at (delete k ls)) j
          ≡ (if str_eq k j then rate.new_limiter rps burst else limiter_of rate (at ls) j)
    unfolding limiter_of
    limiter_of-delete k j ls = rw (lookup-delete k j ls, limiter_of) (ground arith)

    allow_lem :
        (k : String) (now : ℕ) (ls : Dict L)
        → let r = rate.allow (limiter_of rate (at ls) k) now in
          allow rate (at ls) k now ≡ (at (insert k r.0 ls), r.1)
    unfolding allow
    allow_lem k now ls = refl

    reset_lem : (k : String) (ls : Dict L) → reset (at ls) k ≡ at (delete k ls)
    unfolding reset
    reset_lem k ls = refl

    run_key-eq-run_one :
        (key : String) (cs : List Call) (ls : Dict L)
        → run_key key (at ls) cs ≡ run_one rps burst key (limiter_of rate (at ls) key) cs
    unfolding run_key run_one
    run_key-eq-run_one key [] ls = refl
    run_key-eq-run_one key (allows k now ∷ cs) ls =
        rw
          (
            allow_lem k now ls,
            run_key-eq-run_one key cs (insert k (rate.allow (limiter_of rate (at ls) k) now).0 ls),
            limiter_of-insert k key (rate.allow (limiter_of rate (at ls) k) now).0 ls,
          )
          (elim (Bool-cases (str_eq k key)) [
            | inl same ↦ let e : k ≡ key = (eq_iff k key).0 same in rw (e, eq_refl key) refl
            | inr other ↦ rw other refl
          ])
    run_key-eq-run_one key (resets k ∷ cs) ls = rw (reset_lem k ls) (
        run_key-eq-run_one key cs (delete k ls)
        ∙ ap (λ l. run_one rps burst key l cs) (limiter_of-delete k key ls))

  -- In any sequence of calls and resets of any keys, a key gets the answers that a limiter of its
  -- own gives to its calls alone, which starts anew at each reset of the key.
  pub run_key-run_one :
      (rps burst : ℤ) (key : String) (cs : List Call)
      → run_key key (new_token_bucket rps burst) cs
        ≡ run_one rps burst key (rate.new_limiter rps burst) cs
  unfolding new_token_bucket limiter_of lookup
  run_key-run_one rps burst key cs = run_key-eq-run_one rps burst key cs []
