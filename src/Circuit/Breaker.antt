-- ===== src/Circuit/Breaker.antt =====
-- `CircuitBreaker` of internal/circuit/breaker.go, a wrapper of github.com/sony/gobreaker, which is
-- a parameter. `W` is what a protected function reads and changes.
use apigateway_distributed_s.Base.{
  ℕ, ◌-◌, ◌%◌, ◌^◌, ◌≡◌, Bool, true, false, Option, none, some, String, leb, if◌then◌else◌,
}
use apigateway_distributed_s.Base.Int.{ℤ, pos, negsuc}
use apigateway_distributed_s.Config.Types.{CircuitBreakerConfig}

pub data State : Type 0 where
  closed : State
  half_open : State
  opened : State

-- The counts are uint32.
pub record Counts : Type 0 where
  pub requests : ℕ
  pub total_successes : ℕ
  pub total_failures : ℕ
  pub consecutive_successes : ℕ
  pub consecutive_failures : ℕ

-- `OnStateChange` only logs.
pub record Settings : Type 0 where
  pub name : String
  pub max_requests : ℕ
  pub interval : ℤ
  pub timeout : ℤ
  pub ready_to_trip : Counts → Bool

-- How a protected function ends: it returns a result and an error, or panics.
pub data Outcome (R E : Type 0) : Type 0 where
  returned : R → Option E → Outcome R E
  panicked : Outcome R E

-- A breaker of the library: `B` for its state, `R` for the results and `E` for the errors of the
-- functions that it runs. `nil` is the nil result. Documented: the names of the states.
pub record GoBreaker (B W R E : Type 0) : Type 0 where
  pub new_circuit_breaker : Settings → B
  pub execute : B → (W → W × Outcome R E) → W → B × W × Outcome R E
  pub state : B → State
  pub counts : B → Counts
  pub state_string : State → String
  pub nil : R
  pub string-closed : state_string closed ≡ "closed"
  pub string-half_open : state_string half_open ≡ "half-open"
  pub string-opened : state_string opened ≡ "open"

abbrev pub map_result : {R S E : Type 0} → (R → S) → Outcome R E → Outcome S E
map_result f (returned r e) = returned (f r) e
map_result f panicked = panicked

-- `uint32(n)` of a Go int.
unfoldable pub uint32 : ℤ → ℕ
uint32 (pos n) = n % 2 ^ 32
uint32 (negsuc n) = 2 ^ 32 - 1 - n % 2 ^ 32

-- `none` for a breaker that is disabled.
pub record CircuitBreaker (B : Type 0) : Type 0 where
  pub breaker : Option B

abbrev pub no_counts : Counts
no_counts = record {
  requests = 0;
  total_successes = 0;
  total_failures = 0;
  consecutive_successes = 0;
  consecutive_failures = 0;
}

abbrev pub is_opened : State → Bool
is_opened s = elim s [ opened ↦ true | _ ↦ false ]

abbrev pub is_closed : State → Bool
is_closed s = elim s [ closed ↦ true | _ ↦ false ]

abbrev pub is_half_opened : State → Bool
is_half_opened s = elim s [ half_open ↦ true | _ ↦ false ]

module _ {B W R E : Type 0} (go : GoBreaker B W R E) where
  unfoldable pub new_circuit_breaker : String → CircuitBreakerConfig → CircuitBreaker B
  unfolding uint32
  new_circuit_breaker name cfg =
      if cfg.enabled
      then record {
        breaker = some (
            go.new_circuit_breaker record {
              name = name;
              max_requests = uint32 cfg.half_open_requests;
              interval = cfg.recovery_timeout;
              timeout = cfg.recovery_timeout;
              ready_to_trip =
                  λ counts. leb (uint32 cfg.failure_threshold) counts.consecutive_failures;
            });
      }
      else record { breaker = none }

  unfoldable pub execute :
      CircuitBreaker B → (W → W × Outcome R E) → W → CircuitBreaker B × W × Outcome R E
  execute cb fn w = elim cb.breaker [
    | none ↦ let (w', out) = fn w in (cb, w', out)
    | some b ↦ let (b', w', out) = go.execute b fn w in (record { breaker = some b' }, w', out)
  ]

  -- A function without a result, as the closure that `Call` makes of it.
  abbrev pub without_result : (W → W × Outcome Unit E) → W → W × Outcome R E
  without_result fn w = let (w', out) = fn w in (w', map_result (λ _. go.nil) out)

  unfoldable pub call :
      CircuitBreaker B → (W → W × Outcome Unit E) → W → CircuitBreaker B × W × Outcome Unit E
  call cb fn w = elim cb.breaker [
    | none ↦ let (w', out) = fn w in (cb, w', out)
    | some b ↦
        let (b', w', out) = go.execute b (without_result fn) w in
        (record { breaker = some b' }, w', map_result (λ _. tt) out)
  ]

  unfoldable pub state : CircuitBreaker B → State
  state cb = elim cb.breaker [ none ↦ closed | some b ↦ go.state b ]

  unfoldable pub counts : CircuitBreaker B → Counts
  counts cb = elim cb.breaker [ none ↦ no_counts | some b ↦ go.counts b ]

  unfoldable pub is_open : CircuitBreaker B → Bool
  unfolding state
  is_open cb = is_opened (state cb)

  abbrev pub is_closed_breaker : CircuitBreaker B → Bool
  is_closed_breaker cb = is_closed (state cb)

  abbrev pub is_half_open : CircuitBreaker B → Bool
  is_half_open cb = is_half_opened (state cb)
