-- ===== src/RateLimit/FixedWindow/Burst.antt =====
-- How many requests the fixed-window limiter can admit within one window's length, wherever that
-- stretch of time begins: it meets two aligned windows at most.
use native.Mathlib.Nat.{div-add-mod, add-mod_right}
use native.Mathlib.Decide.{dec_lt}
use apigateway_distributed_s.Base.{
  ℕ, ◌+◌, ◌*◌, ◌/◌, ◌≤◌, ◌<◌, ◌≡◌, ◌⊎◌, inl, inr, Bool, true, ◌&&◌, List, [], ◌∷◌, String, arith,
  count_if, ltb, leb,
}
use apigateway_distributed_s.Base.Int.{ℤ, pos, pos_part}
use apigateway_distributed_s.RateLimit.Call.{no_logs}
use apigateway_distributed_s.RateLimit.FixedWindow.{new_fixed_window}
use apigateway_distributed_s.RateLimit.FixedWindow.Spec.{Visit, Monotone, admissions, is_in, start}
use apigateway_distributed_s.RateLimit.FixedWindow.Log.{start_lem, start_mono}
use apigateway_distributed_s.RateLimit.FixedWindow.Refines.{admissions-le-window_limit}

-- Does `r` lie in the half-open interval of length `w` that starts at `a`?
abbrev pub is_near : ℕ → ℕ → ℕ → Bool
is_near w a r = leb a r && ltb r (a + w)

start_next : (w t : ℕ) → 0 < w → start w (t + w) ≡ start w t + w
start_next w t h = omega (arith, add-mod_right t w, div-add-mod t w)

two_starts :
    (w a r : ℕ) → 0 < w → a ≤ r → r < a + w → (start w r ≡ start w a) ⊎ (start w r ≡ start w a + w)
two_starts w a r h k l =
    let low = start_mono w a r h k in
    let high : start w r ≤ start w a + w =
      rw (← start_next w a h) (start_mono w r (a + w) h (omega arith)) in
    elim (dec_lt (a / w) (r / w)) [
      | yes p ↦
          let far : w * (a / w) + w ≤ w * (r / w) = grind arith in
          inr (omega (arith, start_lem w a, start_lem w r, far, high))
      | no p ↦
          let near : w * (r / w) ≤ w * (a / w) = grind arith in
          inl (omega (arith, start_lem w a, start_lem w r, near, low))
    ]

count-le-add :
    (p q s : ℕ → Bool) (rs : List ℕ)
    → ((r : ℕ) → p r ≡ true → (q r ≡ true) ⊎ (s r ≡ true))
    → count_if p rs ≤ count_if q rs + count_if s rs
count-le-add p q s [] h = omega arith
count-le-add p q s (r ∷ rs) h = ground (arith, h r, count-le-add p q s rs h)

-- After any history of calls with a clock that does not go back, no half-open interval of the
-- window's length holds more admissions of a key since its last reset than twice the limit.
pub admissions-le-twice_limit :
    (limit : ℤ) (w : ℕ) (vs : List Visit) (k : String) (a : ℕ)
    → 0 < w
    → Monotone 0 vs
    → count_if (is_near w a) (admissions (new_fixed_window limit (pos w)) no_logs vs k)
      ≤ 2 * pos_part limit
admissions-le-twice_limit limit w vs k a h m =
    let log = admissions (new_fixed_window limit (pos w)) no_logs vs k in
    omega (
      arith,
      count-le-add (is_near w a) (is_in w (start w a)) (is_in w (start w a + w)) log
          (λ r near. ground (arith, two_starts w a r h)),
      admissions-le-window_limit limit w vs k (start w a) h m,
      admissions-le-window_limit limit w vs k (start w a + w) h m,
    )
