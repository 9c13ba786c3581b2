-- ===== src/RateLimit/SlidingWindow/Spec.antt =====
-- The sliding-window limiter as a client sees it: a log of admissions for each key, and an answer
-- that counts the recent ones.
use apigateway_distributed_s.Base.{
  ℕ, ◌+◌, Bool, ◌&&◌, Option, none, some, List, [], ◌∷◌, ltb, leb, count_if, update,
}
use apigateway_distributed_s.Base.Int.{ℤ, pos_part}
use apigateway_distributed_s.RateLimit.Call.{Call, allows, resets, Logs, note}
use apigateway_distributed_s.RateLimit.SlidingWindow.{SlidingWindow, allow, reset}

-- The answers of the code to a sequence of calls; a reset answers nothing.
unfoldable pub run : SlidingWindow → List Call → List (Option Bool)
run sw [] = []
run sw (allows k t ∷ cs) = let (sw', ok) = allow sw k t in some ok ∷ run sw' cs
run sw (resets k ∷ cs) = none ∷ run (reset sw k) cs

-- Is an admission at `r` within `w` of the moment `now`?
abbrev pub is_recent : ℕ → ℕ → ℕ → Bool
is_recent w now r = leb now (r + w)

-- Does `r` lie in the closed interval of length `w` that starts at `a`?
abbrev pub is_within : ℕ → ℕ → ℕ → Bool
is_within w a r = leb a r && leb r (a + w)

-- The abstract answer: are there fewer recent admissions than the limit?
abbrev pub has_room : ℤ → ℕ → ℕ → List ℕ → Bool
has_room limit w now log = ltb (count_if (is_recent w now) log) (pos_part limit)

unfoldable pub run_spec : ℤ → ℕ → Logs → List Call → List (Option Bool)
run_spec limit w logs [] = []
run_spec limit w logs (allows k t ∷ cs) =
    let ok = has_room limit w t (logs k) in some ok ∷ run_spec limit w (note logs k t ok) cs
run_spec limit w logs (resets k ∷ cs) = none ∷ run_spec limit w (update logs k []) cs

-- The log of admissions that the answers of the code make.
unfoldable pub admissions : SlidingWindow → Logs → List Call → Logs
admissions sw logs [] = logs
admissions sw logs (allows k t ∷ cs) =
    let (sw', ok) = allow sw k t in admissions sw' (note logs k t ok) cs
admissions sw logs (resets k ∷ cs) = admissions (reset sw k) (update logs k []) cs
