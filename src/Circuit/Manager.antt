-- ===== src/Circuit/Manager.antt =====
-- `Manager` of internal/circuit/breaker.go. A breaker that the map holds is a pointer, so a call
-- through it changes the breaker of the map.
pub mod Safety
pub mod Health
use apigateway_distributed_s.Base.{
  ℕ, ◌+◌, ◌≡◌, Bool, true, false, Option, none, some, String, List, [], ◌∷◌, length, if◌then◌else◌,
  str_eq, Dict, lookup, insert, delete,
}
use apigateway_distributed_s.Config.Types.{CircuitBreakerConfig}
use apigateway_distributed_s.Circuit.Breaker.{
  State, Counts, Outcome, returned, panicked, GoBreaker, CircuitBreaker, new_circuit_breaker,
  execute, call, state, counts, is_open,
}

pub record Manager (B : Type 0) : Type 0 where
  pub breakers : Dict (CircuitBreaker B)

pub data BreakerError (E : Type 0) : Type 0 where
  not_found : String → BreakerError E
  of_call : E → BreakerError E

pub record BreakerInfo : Type 0 where
  pub name : String
  pub state : String
  pub counts : Counts

pub record Stats : Type 0 where
  pub total_breakers : ℕ
  pub opened : ℕ
  pub half_open : ℕ
  pub closed : ℕ
  pub breakers : Dict BreakerInfo

abbrev pub wrap : {R E : Type 0} → Outcome R E → Outcome R (BreakerError E)
wrap (returned r none) = returned r none
wrap (returned r (some e)) = returned r (some (of_call e))
wrap panicked = panicked

unfoldable pub new_manager : {B : Type 0} → Manager B
new_manager = record { breakers = [] }

unfoldable pub get_breaker : {B : Type 0} → Manager B → String → Option (CircuitBreaker B)
get_breaker m name = lookup name m.breakers

unfoldable pub remove_breaker : {B : Type 0} → Manager B → String → Manager B
remove_breaker m name = record { breakers = delete name m.breakers }

-- The loop that counts the states with one name.
unfoldable pub count_states : String → Dict BreakerInfo → ℕ
count_states s [] = 0
count_states s ((_, info) ∷ rest) =
    let n = count_states s rest in if str_eq info.state s then n + 1 else n

module _ {B W R E : Type 0} (go : GoBreaker B W R E) where
  unfoldable pub create_breaker :
      Manager B → String → CircuitBreakerConfig → Manager B × CircuitBreaker B
  create_breaker m name cfg =
      let breaker = new_circuit_breaker go name cfg in
      (record { breakers = insert name breaker m.breakers }, breaker)

  unfoldable pub execute_with_breaker :
      Manager B → String → (W → W × Outcome R E) → W → Manager B × W × Outcome R (BreakerError E)
  unfolding get_breaker
  execute_with_breaker m name fn w = elim (get_breaker m name) [
    | none ↦ (m, w, returned go.nil (some (not_found name)))
    | some cb ↦
        let (cb', w', out) = execute go cb fn w in
        (record { breakers = insert name cb' m.breakers }, w', wrap out)
  ]

  unfoldable pub call_with_breaker :
      Manager B
      → String
      → (W → W × Outcome Unit E)
      → W
      → Manager B × W × Outcome Unit (BreakerError E)
  unfolding get_breaker
  call_with_breaker m name fn w = elim (get_breaker m name) [
    | none ↦ (m, w, returned tt (some (not_found name)))
    | some cb ↦
        let (cb', w', out) = call go cb fn w in
        (record { breakers = insert name cb' m.breakers }, w', wrap out)
  ]

  abbrev pub info_of : String → CircuitBreaker B → BreakerInfo
  info_of name cb = record {
    name = name;
    state = go.state_string (state go cb);
    counts = counts go cb;
  }

  unfoldable pub collect_states : Dict (CircuitBreaker B) → Dict BreakerInfo → Dict BreakerInfo
  collect_states [] states = states
  collect_states ((name, cb) ∷ rest) states =
      collect_states rest (insert name (info_of name cb) states)

  unfoldable pub get_all_states : Manager B → Dict BreakerInfo
  unfolding collect_states
  get_all_states m = collect_states m.breakers []

  unfoldable pub get_stats : Manager B → Stats
  unfolding get_all_states count_states
  get_stats m =
      let states = get_all_states m in
      record {
        total_breakers = length states;
        opened = count_states "open" states;
        half_open = count_states "half-open" states;
        closed = count_states "closed" states;
        breakers = states;
      }

  unfoldable pub open_breakers : Dict (CircuitBreaker B) → List String
  unfolding is_open
  open_breakers [] = []
  open_breakers ((name, cb) ∷ rest) =
      let names = open_breakers rest in if is_open go cb then name ∷ names else names

  -- `none` is the nil error; otherwise the names that the error lists.
  unfoldable pub health_check : Manager B → Option (List String)
  unfolding open_breakers
  health_check m = elim (open_breakers m.breakers) [ [] ↦ none | n ∷ ns ↦ some (n ∷ ns) ]

  -- `ResetBreaker` looks the breaker up and changes nothing; the result is its error.
  unfoldable pub reset_breaker : Manager B → String → Option (BreakerError E)
  unfolding get_breaker
  reset_breaker m name = elim (get_breaker m name) [ none ↦ some (not_found name) | some cb ↦ none ]

  abbrev pub middleware :
      String
      → Manager B
      → (W → W × Outcome Unit E)
      → W
      → Manager B × W × Outcome Unit (BreakerError E)
  middleware name m fn w = call_with_breaker m name fn w

  -- The closure of `WrapHTTPCall` only logs besides the call.
  abbrev pub wrap_http_call :
      Manager B
      → String
      → (W → W × Outcome Unit E)
      → W
      → Manager B × W × Outcome Unit (BreakerError E)
  wrap_http_call m name fn w = call_with_breaker m name fn w
