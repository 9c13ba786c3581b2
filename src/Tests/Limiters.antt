-- ===== src/Tests/Limiters.antt =====
-- The theorems on the rate limiters at short histories of calls.
use apigateway_distributed_s.Base.{
  ℕ, zero, suc, ◌*◌, ◌≤◌, ◌≡◌, ◌≢◌, refl, Bool, true, false, ◌||◌, none, some, List, [], ◌∷◌,
  String, count_if, length, arith, lookup, insert, delete, Bool-cases, inl, inr, ◌==◌,
  if◌then◌else◌,
}
use apigateway_distributed_s.Base.Int.{ℤ, pos, pos_part, ltb_ℤ}
use apigateway_distributed_s.Config.Types.{RateLimitConfig, RateLimitRule}
use apigateway_distributed_s.RateLimit.Call.{Call, Monotone, no_logs}
use apigateway_distributed_s.RateLimit.SlidingWindow
use apigateway_distributed_s.RateLimit.FixedWindow
use apigateway_distributed_s.RateLimit.SlidingWindow.{new_sliding_window}
use apigateway_distributed_s.RateLimit.SlidingWindow.Spec as Sliding
use apigateway_distributed_s.RateLimit.SlidingWindow.Refines.{run-run_spec, admissions-le-limit}
use apigateway_distributed_s.RateLimit.FixedWindow.{new_fixed_window}
use apigateway_distributed_s.RateLimit.FixedWindow.Spec as Fixed
use apigateway_distributed_s.RateLimit.FixedWindow.Refines.{
  run-run_windows, admissions-le-window_limit,
}
use apigateway_distributed_s.RateLimit.FixedWindow.Burst.{is_near, admissions-le-twice_limit}
use apigateway_distributed_s.RateLimit.TokenBucket.{RateLimiter, new_token_bucket}
use apigateway_distributed_s.RateLimit.TokenBucket.Keys.{run_key, run_one, run_key-run_one}
use apigateway_distributed_s.RateLimit.Distributed.{
  SortedSets, Entry, DistributedRateLimit, reply, present, allow, repeat,
}
use apigateway_distributed_s.RateLimit.Distributed.Window.{
  IsWithin, replicate, allow-late, repeat-same_millisecond,
}
use apigateway_distributed_s.RateLimit.Manager.{
  Algorithm, new_manager, algorithm_of, judge, check_limit, reset, update_config,
}
use apigateway_distributed_s.RateLimit.Manager.Default.{
  Operation, checks, updates, run, algorithm_of-run,
}

-- Two admissions, a refusal, a reset and a call after the window.
abbrev calls : List Call
calls =
    Call.allows "k" 10
    ∷ Call.allows "k" 12
    ∷ Call.allows "k" 15
    ∷ Call.resets "k"
    ∷ Call.allows "k" 40
    ∷ []

abbrev calls-Monotone : Monotone 0 calls
calls-Monotone = (omega arith, (omega arith, (omega arith, (omega arith, tt))))

sliding_answers :
    Sliding.run (new_sliding_window (pos 2) (pos 20)) calls
    ≡ some true ∷ some true ∷ some false ∷ none ∷ some true ∷ []
unfolding Sliding.run new_sliding_window SlidingWindow.allow SlidingWindow.reset lookup insert
    delete
sliding_answers = refl

run-run_spec_example :
    Sliding.run (new_sliding_window (pos 2) (pos 20)) calls
    ≡ Sliding.run_spec (pos 2) 20 no_logs calls
run-run_spec_example = run-run_spec (pos 2) 20 calls calls-Monotone

admissions-le-limit_example :
    count_if
      (Sliding.is_within 20 10)
      (Sliding.admissions (new_sliding_window (pos 2) (pos 20)) no_logs calls "k")
    ≤ pos_part (pos 2)
admissions-le-limit_example = admissions-le-limit (pos 2) 20 calls "k" 10 calls-Monotone

-- Two admissions at the end of one window, and two at the start of the next one.
abbrev visits : List Fixed.Visit
visits =
    Fixed.allows "k" 18 18
    ∷ Fixed.allows "k" 19 19
    ∷ Fixed.allows "k" 20 20
    ∷ Fixed.allows "k" 20 21
    ∷ []

fixed_answers :
    Fixed.run (new_fixed_window (pos 2) (pos 10)) visits
    ≡ some true ∷ some true ∷ some true ∷ some true ∷ []
unfolding Fixed.run new_fixed_window FixedWindow.allow lookup insert
fixed_answers = refl

abbrev visits-Monotone : Fixed.Monotone 0 visits
visits-Monotone = (
  omega arith,
  omega arith,
  (omega arith, omega arith, (omega arith, omega arith, (omega arith, omega arith, tt))),
)

run-run_windows_example :
    Fixed.run (new_fixed_window (pos 2) (pos 10)) visits
    ≡ Fixed.run_windows (pos 2) 10 no_logs visits
run-run_windows_example = run-run_windows (pos 2) 10 visits (omega arith) visits-Monotone

admissions-le-window_limit_example :
    count_if
      (Fixed.is_in 10 20)
      (Fixed.admissions (new_fixed_window (pos 2) (pos 10)) no_logs visits "k")
    ≤ pos_part (pos 2)
admissions-le-window_limit_example =
    admissions-le-window_limit (pos 2) 10 visits "k" 20 (omega arith) visits-Monotone

admissions-le-twice_limit_example :
    count_if
      (is_near 10 15)
      (Fixed.admissions (new_fixed_window (pos 2) (pos 10)) no_logs visits "k")
    ≤ 2 * pos_part (pos 2)
admissions-le-twice_limit_example =
    admissions-le-twice_limit (pos 2) 10 visits "k" 15 (omega arith) visits-Monotone

-- A limiter that never gets new tokens.
abbrev draining : RateLimiter ℕ
draining = record {
  new_limiter = λ rps burst. pos_part burst;
  allow = λ tokens now. elim tokens [ zero ↦ (zero, false) | suc n ↦ (n, true) ];
}

run_key-run_one_example :
    run_key draining "k" (new_token_bucket (pos 1) (pos 2)) calls
    ≡ run_one draining (pos 1) (pos 2) "k" (draining.new_limiter (pos 1) (pos 2)) calls
run_key-run_one_example = run_key-run_one draining (pos 1) (pos 2) "k" calls

-- A sorted set as the list of its members.
abbrev has : ℕ → List ℕ → Bool
has m [] = false
has m (x ∷ z) = (m == x) || has m z

abbrev after : ℤ → List ℕ → List ℕ
after x [] = []
after x (m ∷ z) = if ltb_ℤ x (pos m) then m ∷ after x z else after x z

abbrev zadd : ℕ → List ℕ → List ℕ
zadd n z = if has n z then z else n ∷ z

has-zadd : (m n : ℕ) (z : List ℕ) → has m (zadd n z) ≡ ((m == n) || has m z)
has-zadd m n z = split (has n z) refl
  where
    split : (b : Bool) → has n z ≡ b → has m (if b then z else n ∷ z) ≡ ((m == n) || has m z)
    split true h = elim (Bool-cases (m == n)) [
      | inl e ↦ let q : m ≡ n = ground arith in rw (q, h) (ground arith)
      | inr e ↦ rw e refl
    ]
    split false h = refl

zcard-zadd :
    (n : ℕ) (z : List ℕ) → length (zadd n z) ≡ (if has n z then length z else suc (length z))
zcard-zadd n z = ground arith

after_none :
    (x : ℤ) (z : List ℕ) → ((m : ℕ) → has m z ≡ true → ltb_ℤ x (pos m) ≡ true) → after x z ≡ z
after_none x [] h = refl
after_none x (m ∷ z) h =
    let rest : after x z ≡ z = after_none x z (λ k e. h k (ground arith)) in
    let first : ltb_ℤ x (pos m) ≡ true = h m (ground arith) in rw (first, rest) refl

abbrev sets : SortedSets (List ℕ)
sets = record {
  empty = [];
  has = has;
  zadd = zadd;
  zremrangebyscore = after;
  zcard = length;
  zcard-empty = refl;
  has-empty = λ m. refl;
  has-zadd = has-zadd;
  zcard-zadd = zcard-zadd;
  zadd_present = λ n z h. rw h refl;
  zremrangebyscore_none = after_none;
}

-- A limit of two in a second, with two admissions that are 9 and 8 minutes old.
abbrev per_second : DistributedRateLimit
per_second = record { limit = 2; window = 1_000_000_000 }

abbrev old_entry : Entry (List ℕ)
old_entry = record { members = 60_000 ∷ 120_000 ∷ []; deadline = some 1_120_000 }

old-IsWithin : IsWithin sets 1_000_000 600_000 (present sets 600_000 old_entry)
old-IsWithin m e = ground arith

allow-late_example : (allow sets per_second true 600_000 old_entry).1 ≡ reply false
allow-late_example = allow-late sets per_second 600_000 old_entry old-IsWithin (omega arith)

repeat-same_millisecond_example :
    repeat sets 5 per_second 600_000 (record { members = []; deadline = none })
    ≡ replicate 5 (reply true)
repeat-same_millisecond_example =
    repeat-same_millisecond sets per_second 600_000 (omega arith) (omega arith) 5

abbrev rule : RateLimitRule
rule = record { requests = pos 3; window = pos 1_000_000_000; burst = pos 2 }

abbrev limits : RateLimitConfig
limits = record {
  enabled = true;
  algorithm = "token_bucket";
  default = rule;
  per_user = ("ann", rule) ∷ [];
  per_service = [];
}

-- An algorithm that counts down its tokens.
abbrev pub tokens : Algorithm ℕ Unit String
tokens = record {
  new_token_bucket = λ rps burst. pos_part burst;
  new_sliding_window = λ limit window. pos_part limit;
  new_fixed_window = λ limit window. pos_part limit;
  new_distributed_rate_limit = λ limit window. pos_part limit;
  allow = λ a key w. elim a [ zero ↦ (zero, w, false, none) | suc n ↦ (n, w, true, none) ];
  reset = λ a key w. (a, w, none);
}

abbrev operations : List Operation
operations =
    checks "user:ann" ∷ Operation.resets "user:ann" ∷ updates limits false ∷ checks "other" ∷ []

still_on : (run tokens operations (new_manager tokens limits false) tt).0.config.enabled ≡ true
unfolding run check_limit reset update_config judge algorithm_of lookup insert
still_on = refl

algorithm_of-run_example :
    algorithm_of tokens (run tokens operations (new_manager tokens limits false) tt).0 "user:ann"
    ≢ none
algorithm_of-run_example = algorithm_of-run tokens limits false operations tt "user:ann" still_on
