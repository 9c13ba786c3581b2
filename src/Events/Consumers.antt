-- ===== src/Events/Consumers.antt =====
-- The two consumers of internal/events/processor.go, each on the messages that it receives. The
-- handler works on a state of its own and says whether it succeeds.
use apigateway_distributed_s.Base.{
  ℕ, ◌≡◌, refl, Bool, Option, none, some, List, [], ◌∷◌, map, Bool-cases, Option-cases, inl, inr,
  if◌then◌else◌,
}
use apigateway_distributed_s.Events.{ApiEvent}

pub record Message : Type 0 where
  pub offset : ℕ
  pub value : List ℕ

-- What the consumer of RabbitMQ tells of a delivery: `Ack`, or `Nack` with a requeue.
pub data Settlement : Type 0 where
  ack : Settlement
  requeue : Settlement

module _ {W : Type 0} (unmarshal : List ℕ → Option ApiEvent)
    (handler : ApiEvent → W → W × Bool) where
  -- `ConsumeClaim`, with the offsets that it marks.
  unfoldable pub consume_claim : List Message → W → W × List ℕ
  consume_claim [] w = (w, [])
  consume_claim (m ∷ messages) w = elim (unmarshal m.value) [
    | none ↦ consume_claim messages w
    | some event ↦
        let (w', succeeded) = handler event w in
        let (w'', marked) = consume_claim messages w' in
        (w'', if succeeded then m.offset ∷ marked else marked)
  ]

  -- The loop of the consumer of RabbitMQ over the deliveries.
  unfoldable pub consume_deliveries : List (List ℕ) → W → W × List Settlement
  consume_deliveries [] w = (w, [])
  consume_deliveries (body ∷ deliveries) w = elim (unmarshal body) [
    | none ↦ let (w', told) = consume_deliveries deliveries w in (w', requeue ∷ told)
    | some event ↦
        let (w', succeeded) = handler event w in
        let (w'', told) = consume_deliveries deliveries w' in
        (w'', (if succeeded then ack else requeue) ∷ told)
  ]

  -- The offsets of the messages that were acknowledged.
  abbrev pub acknowledged : List Message → List Settlement → List ℕ
  acknowledged [] told = []
  acknowledged (m ∷ messages) [] = []
  acknowledged (m ∷ messages) (ack ∷ told) = m.offset ∷ acknowledged messages told
  acknowledged (m ∷ messages) (requeue ∷ told) = acknowledged messages told

  -- The events of the bodies that can be decoded.
  abbrev pub decoded : List (List ℕ) → List ApiEvent
  decoded [] = []
  decoded (body ∷ bodies) = elim (unmarshal body) [
    | none ↦ decoded bodies
    | some event ↦ event ∷ decoded bodies
  ]

  -- The handler on each of the events, in their order.
  abbrev pub fold_events : List ApiEvent → W → W
  fold_events [] w = w
  fold_events (event ∷ events) w = fold_events events (handler event w).0

  -- On the same messages the consumers of Kafka and RabbitMQ leave the state that the handler leaves
  -- when it is called once for each message that can be decoded, in their order, and the one of
  -- Kafka marks the offsets of exactly those messages that the one of RabbitMQ acknowledges.
  pub consume_claim-consume_deliveries :
      (messages : List Message) (w : W)
      → (let told = consume_deliveries (map (λ m. m.value) messages) w in
          (consume_claim messages w ≡ (told.0, acknowledged messages told.1))
          × (told.0 ≡ fold_events (decoded (map (λ m. m.value) messages)) w))
  unfolding consume_claim consume_deliveries
  consume_claim-consume_deliveries [] w = (refl, refl)
  consume_claim-consume_deliveries (m ∷ messages) w = elim (Option-cases (unmarshal m.value)) [
    | inl bad ↦
        let (same, once) = consume_claim-consume_deliveries messages w in
        rw (consume_claim, consume_deliveries, bad) (same, once)
    | inr (event, good) ↦
        let r = handler event w in
        let (same, once) = consume_claim-consume_deliveries messages r.0 in
        elim (Bool-cases r.1) [
          | inl e ↦ rw (consume_claim, consume_deliveries, good, e, same) (refl, once)
          | inr e ↦ rw (consume_claim, consume_deliveries, good, e, same) (refl, once)
        ]
  ]
