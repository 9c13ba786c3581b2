-- ===== src/RateLimit/Call.antt =====
-- The calls that a client makes of a rate limiter of internal/ratelimit/algorithms.go, each with
-- the reading of the clock, and the log of admissions that an observer keeps.
use apigateway_distributed_s.Base.{ℕ, ◌≤◌, Bool, true, false, List, [], ◌∷◌, ◌++◌, String, update}

pub data Call : Type 0 where
  allows : String → ℕ → Call
  resets : String → Call

-- The readings of the clock do not go back, nor before `last`.
abbrev pub Monotone : ℕ → List Call → Type 0
Monotone last [] = Unit
Monotone last (allows k t ∷ cs) = (last ≤ t) × Monotone t cs
Monotone last (resets k ∷ cs) = Monotone last cs

-- The moments of a key's admissions since its last reset.
abbrev pub Logs : Type 0
Logs = String → List ℕ

abbrev pub no_logs : Logs
no_logs k = []

abbrev pub note : Logs → String → ℕ → Bool → Logs
note logs k t true = update logs k (logs k ++ t ∷ [])
note logs k t false = logs
