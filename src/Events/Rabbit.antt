-- ===== src/Events/Rabbit.antt =====
-- What the processor leaves of a connection to RabbitMQ that it cannot set up, and where it publishes.
use apigateway_distributed_s.Base.{
  ◌≡◌, refl, ap, ◌⊎◌, inl, inr, Bool, true, false, Bool-cases, Option, none, some, List, [], ◌∷◌,
  ◌++◌, map, String, Dict, All,
}
use apigateway_distributed_s.Events.{
  Command, dial, open_channel, exchange_declare, queue_declare, queue_bind, close_connection,
  EventError, refused, or_close, declare_queues, declare_exchanges, init_rabbit_mq, RabbitMqConfig,
}

abbrev pub is_close : Command → Bool
is_close c = elim c [ close_connection ↦ true | _ ↦ false ]

-- The commands for a configuration: a channel, each exchange, and each queue with its binding.
abbrev pub bindings : Dict String → List Command
bindings [] = []
bindings ((name, key) ∷ queues) =
    queue_declare name ∷ queue_bind name key "api_events" ∷ bindings queues

abbrev pub declarations : Dict String → Dict String → List Command
declarations exchanges queues = map (λ e. exchange_declare e.0 e.1) exchanges ++ bindings queues

-- The commands are those of the plan, end with no error and leave the connection open; or they end
-- with the error of the first command of the plan that fails, behind which the connection is closed.
abbrev pub Settled : (Command → Bool) → List Command → List Command × Option EventError → Type 0
Settled answers plan (cs, none) =
    (cs ≡ plan) × All (λ c. (answers c ≡ true) × (is_close c ≡ false)) cs
Settled answers plan (cs, some e) =
    (before : List Command) × (c : Command) × (after : List Command) × (plan ≡ before ++ c ∷ after)
    × (cs ≡ before ++ c ∷ close_connection ∷ [])
    × All (λ c. (answers c ≡ true) × (is_close c ≡ false)) before
    × (answers c ≡ false)
    × (e ≡ refused c)

module _ (answers : Command → Bool) where
  or_close-Settled :
      (c : Command) (plan : List Command) (r : List Command × Option EventError)
      → is_close c ≡ false
      → Settled answers plan r
      → Settled answers (c ∷ plan) (or_close answers c r)
  unfolding or_close
  or_close-Settled c plan (cs, none) other (same, s) = elim (Bool-cases (answers c)) [
    | inl e ↦ rw e (ap (◌∷◌ c) same, ((e, other), s))
    | inr e ↦ rw e ([], c, plan, refl, refl, tt, e, refl)
  ]
  or_close-Settled c plan (cs, some err) other (before, d, after, planned, split, fine, fails, is) =
      elim (Bool-cases (answers c)) [
        | inl e ↦ rw e (
          c ∷ before,
          d,
          after,
          ap (◌∷◌ c) planned,
          ap (◌∷◌ c) split,
          ((e, other), fine),
          fails,
          is,
        )
        | inr e ↦ rw e ([], c, plan, refl, refl, tt, e, refl)
      ]

  declare_queues-Settled :
      (queues : Dict String) → Settled answers (bindings queues) (declare_queues answers queues)
  unfolding declare_queues
  declare_queues-Settled [] = (refl, tt)
  declare_queues-Settled ((name, key) ∷ queues) =
      or_close-Settled (queue_declare name) _ _ refl (
        or_close-Settled (queue_bind name key "api_events") _ _ refl
          (declare_queues-Settled queues))

  declare_exchanges-Settled :
      (exchanges queues : Dict String)
      → Settled answers (declarations exchanges queues) (declare_exchanges answers exchanges queues)
  unfolding declare_exchanges
  declare_exchanges-Settled [] queues = declare_queues-Settled queues
  declare_exchanges-Settled ((name, kind) ∷ exchanges) queues =
      or_close-Settled (exchange_declare name kind) _ _ refl
        (declare_exchanges-Settled exchanges queues)

  -- The set-up of RabbitMQ either fails to connect; or connects, opens a channel, declares every
  -- exchange of the configuration and declares and binds every queue of it, in this order, and leaves
  -- the connection open; or returns the error of the first of these commands that fails, and closes
  -- the connection right after it.
  pub init_rabbit_mq-Settled :
      (cfg : RabbitMqConfig)
      → ((answers (dial cfg.url) ≡ false)
          × (init_rabbit_mq answers cfg ≡ (dial cfg.url ∷ [], some (refused (dial cfg.url)))))
        ⊎ ((rest : List Command) × (e : Option EventError) × (answers (dial cfg.url) ≡ true)
            × (init_rabbit_mq answers cfg ≡ (dial cfg.url ∷ rest, e))
            × Settled answers (open_channel ∷ declarations cfg.exchanges cfg.queues) (rest, e))
  unfolding init_rabbit_mq
  init_rabbit_mq-Settled cfg = elim (Bool-cases (answers (dial cfg.url))) [
    | inr e ↦ inl (e, rw e refl)
    | inl e ↦
        let r =
          or_close answers open_channel (declare_exchanges answers cfg.exchanges cfg.queues) in
        inr (
          r.0,
          r.1,
          e,
          rw e refl,
          or_close-Settled open_channel _ _ refl
              (declare_exchanges-Settled cfg.exchanges cfg.queues),
        )
  ]
