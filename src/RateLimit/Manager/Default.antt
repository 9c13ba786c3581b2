-- ===== src/RateLimit/Manager/Default.antt =====
-- That an enabled manager always has an algorithm to judge a key by, whatever it is told to do.
use apigateway_distributed_s.Base.{
  ◌≡◌, refl, ◌≢◌, Bool, true, false, Option, none, some, String, List, [], ◌∷◌, arith,
  if◌then◌else◌, Dict, lookup, insert, lookup-insert, concat, eq_iff,
}
use apigateway_distributed_s.Config.Types.{RateLimitConfig, RateLimitRule}
use apigateway_distributed_s.RateLimit.Manager.{
  Algorithm, Manager, LimitError, put, rule_algorithm, default_algorithm, add_rules,
  initialize_algorithms, new_manager, algorithm_of, judge, check_limit, reset_at, reset,
  update_config,
}

-- A call of the manager that changes its state. The other checks are checks of a key with a prefix.
pub data Operation : Type 0 where
  checks : String → Operation
  resets : String → Operation
  updates : RateLimitConfig → Bool → Operation

module _ {A W E : Type 0} (alg : Algorithm A W E) where
  unfoldable pub run : List Operation → Manager A → W → Manager A × W
  run [] m w = (m, w)
  run (checks key ∷ ops) m w = let (m', w', _, _) = check_limit alg m key w in run ops m' w'
  run (resets key ∷ ops) m w = let (m', w', _) = reset alg m key w in run ops m' w'
  run (updates cfg redis ∷ ops) m w = run ops (update_config alg cfg redis m) w

  abbrev pub HasDefault : Dict A → Type 0
  HasDefault m = lookup "default" m ≢ none

  abbrev pub HoldsDefault : Manager A → Type 0
  HoldsDefault m = m.config.enabled ≡ true → HasDefault m.algorithms

  insert-HasDefault : (k : String) (a : A) (m : Dict A) → HasDefault m → HasDefault (insert k a m)
  insert-HasDefault k a m h e = ground (arith, lookup-insert k "default" a m, h)

  put-HasDefault :
      (k : String) (o : Option A) (m : Dict A) → HasDefault m → HasDefault (put alg k o m)
  put-HasDefault k none m h = h
  put-HasDefault k (some a) m h = insert-HasDefault k a m h

  add_rules-HasDefault :
      (p a : String) (redis : Bool) (rules : Dict RateLimitRule) (m : Dict A)
      → HasDefault m
      → HasDefault (add_rules alg p a redis rules m)
  unfolding add_rules
  add_rules-HasDefault p a redis [] m h = h
  add_rules-HasDefault p a redis ((id, rule) ∷ rules) m h =
      add_rules-HasDefault p a redis rules _
        (put-HasDefault (concat p id) (rule_algorithm alg a redis rule) m h)

  initialize_algorithms-HasDefault :
      (cfg : RateLimitConfig) (redis : Bool) → HasDefault (initialize_algorithms alg cfg redis [])
  unfolding initialize_algorithms
  initialize_algorithms-HasDefault cfg redis =
      let made = default_algorithm alg cfg redis in
      add_rules-HasDefault "service:" cfg.algorithm redis cfg.per_service _ (
        add_rules-HasDefault "user:" cfg.algorithm redis cfg.per_user _ (λ e.
          ground (arith, lookup-insert "default" "default" made [], eq_iff "default" "default")))

  new_manager-HoldsDefault :
      (cfg : RateLimitConfig) (redis : Bool) → HoldsDefault (new_manager alg cfg redis)
  unfolding new_manager
  new_manager-HoldsDefault cfg redis on = rw on (initialize_algorithms-HasDefault cfg redis)

  update_config-HoldsDefault :
      (cfg : RateLimitConfig) (redis : Bool) (m : Manager A)
      → HoldsDefault (update_config alg cfg redis m)
  unfolding update_config
  update_config-HoldsDefault cfg redis m on = rw on (initialize_algorithms-HasDefault cfg redis)

  check_limit_lem :
      (m : Manager A) (key : String) (w : W)
      → check_limit alg m key w ≡ (
          if m.config.enabled
          then judge alg m key w (algorithm_of alg m key)
          else (m, w, true, none))
  unfolding check_limit
  check_limit_lem m key w = refl

  judge-HoldsDefault :
      (m : Manager A) (key : String) (w : W) (o : Option (String × A))
      → HoldsDefault m
      → HoldsDefault (judge alg m key w o).0
  unfolding judge
  judge-HoldsDefault m key w none h = h
  judge-HoldsDefault m key w (some (at, a)) h = λ on. insert-HasDefault at _ m.algorithms (h on)

  check_limit-HoldsDefault :
      (m : Manager A) (key : String) (w : W)
      → HoldsDefault m
      → HoldsDefault (check_limit alg m key w).0
  check_limit-HoldsDefault m key w h =
      let o = algorithm_of alg m key in
      rw (check_limit_lem m key w)
        (split m.config.enabled (judge alg m key w o) (judge-HoldsDefault m key w o h))
    where
      split :
          (b : Bool) (r : Manager A × W × Bool × Option (LimitError E))
          → HoldsDefault r.0
          → HoldsDefault (if b then r else (m, w, true, none)).0
      split true r g = g
      split false r g = h

  reset-HoldsDefault :
      (m : Manager A) (key : String) (w : W) → HoldsDefault m → HoldsDefault (reset alg m key w).0
  unfolding reset reset_at
  reset-HoldsDefault m key w h = at (algorithm_of alg m key)
    where
      at : (o : Option (String × A)) → HoldsDefault (reset_at alg m key w o).0
      at none = h
      at (some (k, a)) = λ on. insert-HasDefault k _ m.algorithms (h on)

  run-HoldsDefault :
      (ops : List Operation) (m : Manager A) (w : W) → HoldsDefault m → HoldsDefault (run ops m w).0
  unfolding run
  run-HoldsDefault [] m w h = h
  run-HoldsDefault (checks key ∷ ops) m w h =
      run-HoldsDefault ops _ _ (check_limit-HoldsDefault m key w h)
  run-HoldsDefault (resets key ∷ ops) m w h =
      run-HoldsDefault ops _ _ (reset-HoldsDefault m key w h)
  run-HoldsDefault (updates cfg redis ∷ ops) m w h =
      run-HoldsDefault ops _ _ (update_config-HoldsDefault cfg redis m)

  algorithm_of-HasDefault :
      (m : Manager A) (key : String) → HasDefault m.algorithms → algorithm_of alg m key ≢ none
  unfolding algorithm_of
  algorithm_of-HasDefault m key h e = ground (arith, h)

  -- Whatever checks, resets and updates of its configuration a manager has been through, while rate
  -- limiting is on there is an algorithm for every key: its own one or the default.
  pub algorithm_of-run :
      (cfg : RateLimitConfig) (redis : Bool) (ops : List Operation) (w : W) (key : String)
      → (run ops (new_manager alg cfg redis) w).0.config.enabled ≡ true
      → algorithm_of alg (run ops (new_manager alg cfg redis) w).0 key ≢ none
  algorithm_of-run cfg redis ops w key on =
      let m = (run ops (new_manager alg cfg redis) w).0 in
      algorithm_of-HasDefault m key
        (run-HoldsDefault ops (new_manager alg cfg redis) w (new_manager-HoldsDefault cfg redis) on)
