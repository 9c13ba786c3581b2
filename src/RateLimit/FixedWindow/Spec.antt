-- ===== src/RateLimit/FixedWindow/Spec.antt =====
-- The fixed-window limiter as a client sees it: a log of admissions for each key, and an answer
-- that counts those of the current window.
use apigateway_distributed_s.Base.{
  ℕ, ◌-◌, ◌%◌, ◌≤◌, Bool, Option, none, some, List, [], ◌∷◌, String, ltb, ◌==◌, count_if, update,
}
use apigateway_distributed_s.Base.Int.{ℤ, pos_part}
use apigateway_distributed_s.RateLimit.Call.{Logs, note}
use apigateway_distributed_s.RateLimit.FixedWindow.{FixedWindow, allow, reset}

-- A call with its two readings of the clock.
pub data Visit : Type 0 where
  allows : String → ℕ → ℕ → Visit
  resets : String → Visit

-- The readings of the clock do not go back, nor before `last`.
abbrev pub Monotone : ℕ → List Visit → Type 0
Monotone last [] = Unit
Monotone last (allows k created now ∷ vs) = (last ≤ now) × (created ≤ now) × Monotone now vs
Monotone last (resets k ∷ vs) = Monotone last vs

unfoldable pub run : FixedWindow → List Visit → List (Option Bool)
run fw [] = []
run fw (allows k created now ∷ vs) = let (fw', ok) = allow fw k created now in some ok ∷ run fw' vs
run fw (resets k ∷ vs) = none ∷ run (reset fw k) vs

-- The multiple of `w` at which the window of `t` starts.
abbrev pub start : ℕ → ℕ → ℕ
start w t = t - t % w

-- Does the window of `r` start at `s`?
abbrev pub is_in : ℕ → ℕ → ℕ → Bool
is_in w s r = start w r == s

-- The abstract answer: are there fewer admissions in the window of `now` than the limit?
abbrev pub has_room : ℤ → ℕ → ℕ → List ℕ → Bool
has_room limit w now log = ltb (count_if (is_in w (start w now)) log) (pos_part limit)

unfoldable pub run_windows : ℤ → ℕ → Logs → List Visit → List (Option Bool)
run_windows limit w logs [] = []
run_windows limit w logs (allows k created now ∷ vs) =
    let ok = has_room limit w now (logs k) in some ok ∷ run_windows limit w (note logs k now ok) vs
run_windows limit w logs (resets k ∷ vs) = none ∷ run_windows limit w (update logs k []) vs

-- The log of admissions that the answers of the code make.
unfoldable pub admissions : FixedWindow → Logs → List Visit → Logs
admissions fw logs [] = logs
admissions fw logs (allows k created now ∷ vs) =
    let (fw', ok) = allow fw k created now in admissions fw' (note logs k now ok) vs
admissions fw logs (resets k ∷ vs) = admissions (reset fw k) (update logs k []) vs
