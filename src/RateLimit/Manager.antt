-- ===== src/RateLimit/Manager.antt =====
-- `Manager` of internal/ratelimit/manager.go, over the interface `Algorithm` that the four
-- algorithms implement. `W` is what they share outside themselves: the clock and Redis.
pub mod Default
use apigateway_distributed_s.Base.{
  ℕ, ◌+◌, ◌≡◌, Bool, true, false, Option, none, some, String, List, [], ◌∷◌, length, if◌then◌else◌,
  str_eq, concat, Dict, lookup, insert,
}
use apigateway_distributed_s.Base.Int.{ℤ, pos, negsuc, ◌+ℤ◌}
use apigateway_distributed_s.Config.Types.{RateLimitConfig, RateLimitRule}

-- The constructors of the algorithms and the methods of the interface, on the values `A` of the
-- interface type: a method gives the value and `W` after the call, and what it returns.
pub record Algorithm (A W E : Type 0) : Type 0 where
  pub new_token_bucket : ℤ → ℤ → A
  pub new_sliding_window : ℤ → ℤ → A
  pub new_fixed_window : ℤ → ℤ → A
  pub new_distributed_rate_limit : ℤ → ℤ → A
  pub allow : A → String → W → A × W × Bool × Option E
  pub reset : A → String → W → A × W × Option E

pub record Manager (A : Type 0) : Type 0 where
  pub algorithms : Dict A
  pub config : RateLimitConfig

pub data LimitError (E : Type 0) : Type 0 where
  no_algorithm : String → LimitError E
  of_algorithm : E → LimitError E

-- `reset_time` is nanoseconds, and `none` is the zero time.
pub record LimitInfo : Type 0 where
  pub limit : ℤ
  pub remaining : ℤ
  pub reset_time : Option ℤ
  pub window : ℤ

pub record Stats : Type 0 where
  pub enabled : Bool
  pub algorithm : String
  pub algorithms_count : ℕ
  pub default_limit : ℤ
  pub default_window : String
  pub per_user_rules : ℕ
  pub per_service_rules : ℕ

module _ {A W E : Type 0} (alg : Algorithm A W E) where
  -- The first switch; `redis` says whether there is a client.
  unfoldable pub default_algorithm : RateLimitConfig → Bool → A
  default_algorithm cfg redis =
      let rule = cfg.default in
      if str_eq cfg.algorithm "token_bucket"
      then alg.new_token_bucket rule.requests rule.burst
      else if str_eq cfg.algorithm "sliding_window"
      then alg.new_sliding_window rule.requests rule.window
      else if str_eq cfg.algorithm "fixed_window"
      then alg.new_fixed_window rule.requests rule.window
      else if str_eq cfg.algorithm "distributed"
      then (if redis
          then alg.new_distributed_rate_limit rule.requests rule.window
          else alg.new_token_bucket rule.requests rule.burst)
      else alg.new_token_bucket rule.requests rule.burst

  -- The switch in each of the two loops, which may make nothing.
  unfoldable pub rule_algorithm : String → Bool → RateLimitRule → Option A
  rule_algorithm algorithm redis rule =
      if str_eq algorithm "token_bucket"
      then some (alg.new_token_bucket rule.requests rule.burst)
      else if str_eq algorithm "sliding_window"
      then some (alg.new_sliding_window rule.requests rule.window)
      else if str_eq algorithm "fixed_window"
      then some (alg.new_fixed_window rule.requests rule.window)
      else if str_eq algorithm "distributed"
      then (if redis then some (alg.new_distributed_rate_limit rule.requests rule.window) else none)
      else none

  abbrev pub put : String → Option A → Dict A → Dict A
  put key made m = elim made [ none ↦ m | some a ↦ insert key a m ]

  -- A loop over the rules, under the prefix of its keys.
  unfoldable pub add_rules : String → String → Bool → Dict RateLimitRule → Dict A → Dict A
  unfolding rule_algorithm
  add_rules prefix algorithm redis [] m = m
  add_rules prefix algorithm redis ((id, rule) ∷ rules) m =
      add_rules prefix algorithm redis rules
        (put (concat prefix id) (rule_algorithm algorithm redis rule) m)

  unfoldable pub initialize_algorithms : RateLimitConfig → Bool → Dict A → Dict A
  unfolding default_algorithm add_rules
  initialize_algorithms cfg redis m =
      let with_default = insert "default" (default_algorithm cfg redis) m in
      let with_users = add_rules "user:" cfg.algorithm redis cfg.per_user with_default in
      add_rules "service:" cfg.algorithm redis cfg.per_service with_users

  unfoldable pub new_manager : RateLimitConfig → Bool → Manager A
  unfolding initialize_algorithms
  new_manager cfg redis = record {
    algorithms = if cfg.enabled then initialize_algorithms cfg redis [] else [];
    config = cfg;
  }

  -- The algorithm of a key with the map's key that it stands at, or the default one.
  unfoldable pub algorithm_of : Manager A → String → Option (String × A)
  algorithm_of m key = elim (lookup key m.algorithms) [
    | some a ↦ some (key, a)
    | none ↦ elim (lookup "default" m.algorithms) [ some a ↦ some ("default", a) | none ↦ none ]
  ]

  -- The end of `CheckLimit`, on the algorithm that it found.
  unfoldable pub judge :
      Manager A → String → W → Option (String × A) → Manager A × W × Bool × Option (LimitError E)
  judge m key w none = (m, w, true, none)
  judge m key w (some (at, a)) =
      let (a', w', allowed, e) = alg.allow a key w in
      (
        record m { algorithms = insert at a' m.algorithms },
        w',
        allowed,
        elim e [ none ↦ none | some e ↦ some (of_algorithm e) ],
      )

  unfoldable pub check_limit : Manager A → String → W → Manager A × W × Bool × Option (LimitError E)
  unfolding judge
  check_limit m key w =
      if m.config.enabled then judge m key w (algorithm_of m key) else (m, w, true, none)

  unfoldable pub check_user_limit :
      Manager A → String → W → Manager A × W × Bool × Option (LimitError E)
  unfolding check_limit
  check_user_limit m user_id w = check_limit m (concat "user:" user_id) w

  unfoldable pub check_service_limit :
      Manager A → String → W → Manager A × W × Bool × Option (LimitError E)
  unfolding check_limit
  check_service_limit m service_id w = check_limit m (concat "service:" service_id) w

  unfoldable pub check_ip_limit :
      Manager A → String → W → Manager A × W × Bool × Option (LimitError E)
  unfolding check_limit
  check_ip_limit m ip w = check_limit m (concat "ip:" ip) w

  unfoldable pub check_api_key_limit :
      Manager A → String → W → Manager A × W × Bool × Option (LimitError E)
  unfolding check_limit
  check_api_key_limit m api_key w = check_limit m (concat "apikey:" api_key) w

  -- The end of `Reset`.
  unfoldable pub reset_at :
      Manager A → String → W → Option (String × A) → Manager A × W × Option (LimitError E)
  reset_at m key w none = (m, w, some (no_algorithm key))
  reset_at m key w (some (at, a)) =
      let (a', w', e) = alg.reset a key w in
      (
        record m { algorithms = insert at a' m.algorithms },
        w',
        elim e [ none ↦ none | some e ↦ some (of_algorithm e) ],
      )

  unfoldable pub reset : Manager A → String → W → Manager A × W × Option (LimitError E)
  unfolding reset_at
  reset m key w = reset_at m key w (algorithm_of m key)

  unfoldable pub update_config : RateLimitConfig → Bool → Manager A → Manager A
  unfolding initialize_algorithms
  update_config cfg redis m = record {
    algorithms = if cfg.enabled then initialize_algorithms cfg redis [] else [];
    config = cfg;
  }

-- The rule that `GetLimitInfo` looks up for a key.
unfoldable pub rule_of : RateLimitConfig → String → RateLimitRule
rule_of cfg key = elim (lookup key cfg.per_user) [
  | some rule ↦ rule
  | none ↦ elim (lookup key cfg.per_service) [ some rule ↦ rule | none ↦ cfg.default ]
]

unfoldable pub get_limit_info : {A : Type 0} → Manager A → String → ℤ → LimitInfo
unfolding rule_of
get_limit_info m key now =
    let rule = rule_of m.config key in
    if m.config.enabled
    then record {
      limit = rule.requests;
      remaining = rule.requests;
      reset_time = some (now +ℤ rule.window);
      window = rule.window;
    }
    else record { limit = negsuc 0; remaining = negsuc 0; reset_time = none; window = pos 0 }

abbrev pub is_enabled : {A : Type 0} → Manager A → Bool
is_enabled m = m.config.enabled

-- `duration_string` is `Duration.String` of Go's time.
unfoldable pub get_stats : {A : Type 0} → (ℤ → String) → Manager A → Stats
get_stats duration_string m = record {
  enabled = m.config.enabled;
  algorithm = m.config.algorithm;
  algorithms_count = length m.algorithms;
  default_limit = m.config.default.requests;
  default_window = duration_string m.config.default.window;
  per_user_rules = length m.config.per_user;
  per_service_rules = length m.config.per_service;
}
