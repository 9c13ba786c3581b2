-- ===== src/Events.antt =====
-- internal/events/processor.go: the events that are published and consumed. What it asks of Kafka and
-- RabbitMQ is a list of commands; whether each is answered without an error is a parameter. The
-- settings of the clients of sarama are left out, and log lines too.
pub mod Rabbit
pub mod Consumers
use apigateway_distributed_s.Base.{
  ℕ, Bool, true, false, not, Option, none, some, List, [], ◌∷◌, ◌++◌, String, str_eq, if◌then◌else◌,
  Dict, lookup,
}
use apigateway_distributed_s.Base.Int.{ℤ}

pub record KafkaConfig : Type 0 where
  pub brokers : List String
  pub topics : Dict String
  pub consumer_group : String

pub record RabbitMqConfig : Type 0 where
  pub url : String
  pub exchanges : Dict String
  pub queues : Dict String

pub record EventConfig : Type 0 where
  pub enabled : Bool
  pub provider : String
  pub kafka : KafkaConfig
  pub rabbit_mq : RabbitMqConfig

-- Times are nanoseconds.
pub record ApiEvent : Type 0 where
  pub timestamp : ℕ
  pub event_type : String
  pub user_id : String
  pub service : String
  pub path : String
  pub method : String
  pub status_code : ℤ
  pub latency : ℤ
  pub ip_address : String
  pub user_agent : String
  pub metadata : Dict String
  pub trace_id : String
  pub span_id : String

-- A call of a client, with the arguments that vary.
pub data Command : Type 0 where
  dial : String → Command
  open_channel : Command
  exchange_declare : String → String → Command
  queue_declare : String → Command
  queue_bind : String → String → String → Command
  close_connection : Command
  new_producer : List String → Command
  new_consumer : List String → Command
  close_producer : Command
  publish : String → String → List ℕ → Dict String → Command
  send_message : String → String → List ℕ → Dict String → Command

pub data EventError : Type 0 where
  refused : Command → EventError
  marshal_failed : EventError
  unsupported_provider : String → EventError

-- The value of a map that Go gives for a key.
abbrev pub value_at : String → Dict String → String
value_at key m = elim (lookup key m) [ none ↦ "" | some v ↦ v ]

-- `marshal` stands for `json.Marshal`, and the flag for the reply.
module _ (marshal : ApiEvent → Option (List ℕ)) (answers : Command → Bool) where
  -- A last command, and its error.
  unfoldable pub try_command : Command → List Command × Option EventError
  try_command c = if answers c then (c ∷ [], none) else (c ∷ [], some (refused c))

  abbrev pub topic_of : KafkaConfig → String → String
  topic_of cfg event_type =
      if str_eq event_type "user_event"
      then value_at "user_events" cfg.topics
      else if str_eq event_type "audit_log"
      then value_at "audit_logs" cfg.topics
      else value_at "api_events" cfg.topics

  unfoldable pub publish_to_kafka : EventConfig → ApiEvent → List Command × Option EventError
  unfolding try_command
  publish_to_kafka cfg e = elim (marshal e) [
    | none ↦ ([], some marshal_failed)
    | some body ↦ try_command (
        send_message (topic_of cfg.kafka e.event_type) e.user_id body
          (("event_type", e.event_type) ∷ ("service", e.service) ∷ []))
  ]

  abbrev pub exchange_of : RabbitMqConfig → String → String
  exchange_of cfg event_type =
      if str_eq event_type "user_event"
      then value_at "user_events" cfg.exchanges
      else value_at "api_events" cfg.exchanges

  abbrev pub routing_key_of : String → String
  routing_key_of event_type =
      if str_eq event_type "user_event"
      then "user.event"
      else if str_eq event_type "audit_log"
      then "audit.log"
      else "api.event"

  unfoldable pub publish_to_rabbit_mq : EventConfig → ApiEvent → List Command × Option EventError
  unfolding try_command
  publish_to_rabbit_mq cfg e = elim (marshal e) [
    | none ↦ ([], some marshal_failed)
    | some body ↦ try_command (
        publish (exchange_of cfg.rabbit_mq e.event_type) (routing_key_of e.event_type) body
          (("event_type", e.event_type) ∷ ("service", e.service) ∷ ("user_id", e.user_id) ∷ []))
  ]

  unfoldable pub publish_event : EventConfig → ApiEvent → List Command × Option EventError
  unfolding publish_to_kafka publish_to_rabbit_mq
  publish_event cfg e =
      if not cfg.enabled
      then ([], none)
      else if str_eq cfg.provider "kafka"
      then publish_to_kafka cfg e
      else if str_eq cfg.provider "rabbitmq"
      then publish_to_rabbit_mq cfg e
      else ([], some (unsupported_provider cfg.provider))

-- The connections of RabbitMQ, by the same replies.
module _ (answers : Command → Bool) where
  -- A command, and what follows it; where it fails the connection is closed.
  unfoldable pub or_close :
      Command → List Command × Option EventError → List Command × Option EventError
  or_close c (rest, e) =
      if answers c then (c ∷ rest, e) else (c ∷ close_connection ∷ [], some (refused c))

  unfoldable pub declare_queues : Dict String → List Command × Option EventError
  unfolding or_close
  declare_queues [] = ([], none)
  declare_queues ((name, routing_key) ∷ queues) =
      or_close (queue_declare name)
        (or_close (queue_bind name routing_key "api_events") (declare_queues queues))

  unfoldable pub declare_exchanges : Dict String → Dict String → List Command × Option EventError
  unfolding or_close declare_queues
  declare_exchanges [] queues = declare_queues queues
  declare_exchanges ((name, exchange_type) ∷ exchanges) queues =
      or_close (exchange_declare name exchange_type) (declare_exchanges exchanges queues)

  unfoldable pub init_rabbit_mq : RabbitMqConfig → List Command × Option EventError
  unfolding declare_exchanges
  init_rabbit_mq cfg =
      let (rest, e) = or_close open_channel (declare_exchanges cfg.exchanges cfg.queues) in
      if answers (dial cfg.url)
      then (dial cfg.url ∷ rest, e)
      else (dial cfg.url ∷ [], some (refused (dial cfg.url)))

  -- The producer is closed where there is no consumer.
  unfoldable pub init_kafka : KafkaConfig → List Command × Option EventError
  init_kafka cfg =
      if answers (new_producer cfg.brokers)
      then (if answers (new_consumer cfg.brokers)
          then (new_producer cfg.brokers ∷ new_consumer cfg.brokers ∷ [], none)
          else (
            new_producer cfg.brokers ∷ new_consumer cfg.brokers ∷ close_producer ∷ [],
            some (refused (new_consumer cfg.brokers)),
          ))
      else (new_producer cfg.brokers ∷ [], some (refused (new_producer cfg.brokers)))

  unfoldable pub new_event_processor : EventConfig → List Command × Option EventError
  unfolding init_kafka init_rabbit_mq
  new_event_processor cfg =
      if not cfg.enabled
      then ([], none)
      else if str_eq cfg.provider "kafka"
      then init_kafka cfg.kafka
      else if str_eq cfg.provider "rabbitmq"
      then init_rabbit_mq cfg.rabbit_mq
      else ([], some (unsupported_provider cfg.provider))
