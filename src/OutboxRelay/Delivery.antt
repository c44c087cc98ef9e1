-- ===== src/OutboxRelay/Delivery.antt =====
-- What the relay delivers.
use orbit_exchange.Base.{
  ℕ, ◌≡◌, refl, sym, ◌∙◌, ap, List, [], ◌∷◌, ◌++◌, append_assoc, append-nil, Bool, true, false,
}
use orbit_exchange.Schema.{OutboxEvent}
use orbit_exchange.OutboxRelay.{
  Relay, Sent, Attempt, delivered, unmarked, unsent, lost, message_of, relay_one, relay_all,
  drain_once, batch,
}

-- Whether the message of a row is sent.
abbrev pub is_sent : Attempt → Bool
is_sent delivered = true
is_sent (unmarked msg) = true
is_sent (unsent msg) = false
is_sent (lost s) = s

-- The messages of the rows that are sent, in their order.
abbrev pub messages : (OutboxEvent → Attempt) → List OutboxEvent → List Sent
messages how [] = []
messages how (ev ∷ evs) = elim (is_sent (how ev)) [
  | true ↦ message_of ev ∷ messages how evs
  | false ↦ messages how evs
]

relay_one-kafka :
    (now : ℕ) (a : Attempt) (ev : OutboxEvent) (r : Relay)
    → (relay_one now a ev r).kafka
      ≡ r.kafka ++ elim (is_sent a) [ true ↦ message_of ev ∷ [] | false ↦ [] ]
unfolding relay_one
relay_one-kafka now delivered ev r = refl
relay_one-kafka now (unmarked msg) ev r = refl
relay_one-kafka now (unsent msg) ev r = sym (append-nil r.kafka)
relay_one-kafka now (lost true) ev r = refl
relay_one-kafka now (lost false) ev r = sym (append-nil r.kafka)

relay_all-kafka :
    (now : ℕ) (how : OutboxEvent → Attempt) (evs : List OutboxEvent) (r : Relay)
    → (relay_all now how evs r).kafka ≡ r.kafka ++ messages how evs
unfolding relay_all
relay_all-kafka now how [] r = sym (append-nil r.kafka)
relay_all-kafka now how (ev ∷ evs) r =
    relay_all-kafka now how evs (relay_one now (how ev) ev r)
    ∙ ap (λ ms. ms ++ messages how evs) (relay_one-kafka now (how ev) ev r)
    ∙ sent_first (is_sent (how ev))
  where
    sent_first :
        (b : Bool)
        → (r.kafka ++ elim b [ true ↦ message_of ev ∷ [] | false ↦ [] ]) ++ messages how evs
          ≡ r.kafka ++ elim b [ true ↦ message_of ev ∷ messages how evs | false ↦ messages how evs ]
    sent_first true = append_assoc r.kafka (message_of ev ∷ []) (messages how evs)
    sent_first false = ap (λ ms. ms ++ messages how evs) (append-nil r.kafka)

-- A drain appends to Kafka the messages of the batch's rows that could be sent, in the order of the
-- table, and passes over the others without ending.
pub drain_once-kafka :
    (now : ℕ) (how : OutboxEvent → Attempt) (n : ℕ) (r : Relay)
    → (drain_once now how n r).1.kafka ≡ r.kafka ++ messages how (batch n r.outbox)
unfolding drain_once
drain_once-kafka now how n r = relay_all-kafka now how (batch n r.outbox) r
