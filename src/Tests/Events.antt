-- ===== src/Tests/Events.antt =====
-- The theorems on event processing at a configuration and some messages.
use apigateway_distributed_s.Base.{
  ℕ, ◌≡◌, refl, ◌⊎◌, Bool, true, false, Option, none, some, List, [], ◌∷◌, map, suc,
}
use apigateway_distributed_s.Base.Int.{pos}
use apigateway_distributed_s.Events.{
  ApiEvent, Command, dial, open_channel, exchange_declare, EventError, refused, RabbitMqConfig,
  init_rabbit_mq,
}
use apigateway_distributed_s.Events.Rabbit.{Settled, declarations, init_rabbit_mq-Settled}
use apigateway_distributed_s.Events.Consumers.{
  Message, consume_claim, consume_deliveries, fold_events, decoded, acknowledged,
  consume_claim-consume_deliveries,
}

abbrev rabbit : RabbitMqConfig
rabbit = record {
  url = "amqp://localhost";
  exchanges = ("api_events", "topic") ∷ [];
  queues = ("audit_logs", "audit.#") ∷ [];
}

-- No exchange can be declared.
abbrev replies : Command → Bool
replies c = elim c [ exchange_declare name kind ↦ false | _ ↦ true ]

init_rabbit_mq-Settled_example :
    ((replies (dial rabbit.url) ≡ false)
      × (init_rabbit_mq replies rabbit ≡ (dial rabbit.url ∷ [], some (refused (dial rabbit.url)))))
    ⊎ ((rest : List Command) × (e : Option EventError) × (replies (dial rabbit.url) ≡ true)
        × (init_rabbit_mq replies rabbit ≡ (dial rabbit.url ∷ rest, e))
        × Settled replies (open_channel ∷ declarations rabbit.exchanges rabbit.queues) (rest, e))
init_rabbit_mq-Settled_example = init_rabbit_mq-Settled replies rabbit

abbrev decode : List ℕ → Option ApiEvent
decode [] = none
decode (n ∷ ns) = some (record {
  timestamp = n;
  event_type = "api_event";
  user_id = "u";
  service = "users";
  path = "/";
  method = "GET";
  status_code = pos 200;
  latency = pos 1;
  ip_address = "";
  user_agent = "";
  metadata = [];
  trace_id = "";
  span_id = "";
})

abbrev count : ApiEvent → ℕ → ℕ × Bool
count e n = (suc n, true)

abbrev messages : List Message
messages = record { offset = 7; value = [] } ∷ record { offset = 8; value = 1 ∷ [] } ∷ []

-- The offset of the message that was not decoded is not marked, and the one behind it is.
marked_behind : consume_claim decode count messages 0 ≡ (1, 8 ∷ [])
unfolding consume_claim
marked_behind = refl

consume_claim-consume_deliveries_example :
    (let told = consume_deliveries decode count (map (λ m. m.value) messages) 0 in
      (consume_claim decode count messages 0 ≡ (told.0, acknowledged decode count messages told.1))
      × (told.0 ≡ fold_events decode count (decoded decode count (map (λ m. m.value) messages)) 0))
consume_claim-consume_deliveries_example = consume_claim-consume_deliveries decode count messages 0
