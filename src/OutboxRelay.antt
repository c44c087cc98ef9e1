-- ===== src/OutboxRelay.antt =====
-- apps/workers/src/outbox-relay: pending rows of the outbox go to Kafka, at least once.
pub mod Delivery
pub mod Marks
pub mod Payloads
pub mod Waiting
pub mod Liveness
use orbit_exchange.Base.{
  ℕ, zero, suc, ◌+◌, ltb, List, [], ◌∷◌, ◌++◌, Option, none, some, Bool, true, false, if◌then◌else◌,
  ◌==◌, take, keep_if, length,
}
use orbit_exchange.Shared.{KafkaTopic, Payload}
use orbit_exchange.Schema.{OutboxEvent}

-- A message as the producer sends it.
pub record Sent : Type 0 where
  pub topic : KafkaTopic
  pub key : ℕ
  pub value : Payload

-- The outbox table, and the messages that Kafka has.
pub record Relay : Type 0 where
  pub outbox : List OutboxEvent
  pub kafka : List Sent

-- How the calls for one row go: the send, and the update that follows it.
pub data Attempt : Type 0 where
  delivered : Attempt
  -- Sent, but the row is not marked, and the failure is recorded instead.
  unmarked : ℕ → Attempt
  -- Not sent, with the exception's message.
  unsent : ℕ → Attempt
  -- And the update that records the failure fails as well.
  lost : Bool → Attempt

abbrev pub is_pending : OutboxEvent → Bool
is_pending ev = elim ev.processed_at [ none ↦ true | some _ ↦ false ]

-- `update({ where: { id } })`
abbrev pub update_event : (OutboxEvent → OutboxEvent) → ℕ → List OutboxEvent → List OutboxEvent
update_event f id [] = []
update_event f id (ev ∷ evs) = (if ev.id == id then f ev else ev) ∷ update_event f id evs

abbrev mark_processed : ℕ → OutboxEvent → OutboxEvent
mark_processed now ev = record ev { processed_at = some now }

abbrev record_failure : ℕ → OutboxEvent → OutboxEvent
record_failure msg ev = record ev { attempts = suc ev.attempts; last_error = some msg }

abbrev pub message_of : OutboxEvent → Sent
message_of ev = record { topic = ev.topic; key = ev.key; value = ev.payload }

abbrev send : OutboxEvent → Relay → Relay
send ev r = record r { kafka = r.kafka ++ message_of ev ∷ [] }

abbrev change : (OutboxEvent → OutboxEvent) → OutboxEvent → Relay → Relay
change f ev r = record r { outbox = update_event f ev.id r.outbox }

-- The body of the loop.
pub relay_one : ℕ → Attempt → OutboxEvent → Relay → Relay
relay_one now delivered ev r = change (mark_processed now) ev (send ev r)
relay_one now (unmarked msg) ev r = change (record_failure msg) ev (send ev r)
relay_one now (unsent msg) ev r = change (record_failure msg) ev r
relay_one now (lost true) ev r = send ev r
relay_one now (lost false) ev r = r

-- The loop over the batch; `how` says how each row fares.
pub relay_all : ℕ → (OutboxEvent → Attempt) → List OutboxEvent → Relay → Relay
relay_all now how [] r = r
relay_all now how (ev ∷ evs) r = relay_all now how evs (relay_one now (how ev) ev r)

-- The rows of a batch: those that are not processed, in the order of the table, whose ids ascend.
abbrev pub batch : ℕ → List OutboxEvent → List OutboxEvent
batch n evs = take n (keep_if is_pending evs)

-- `drainOnce`: how many rows there were, and what was done.
pub drain_once : ℕ → (OutboxEvent → Attempt) → ℕ → Relay → ℕ × Relay
unfolding relay_one relay_all
drain_once now how batch_size r =
    let events = batch batch_size r.outbox in (length events, relay_all now how events r)

-- The loop of the worker, up to the sleep after a batch that is not full; `none` when this many
-- rounds do not reach one. `how` says how the rows fare.
pub catch_up : ℕ → ℕ → (OutboxEvent → Attempt) → ℕ → Relay → Option Relay
unfolding drain_once
catch_up zero now how batch_size r = none
catch_up (suc rounds) now how batch_size r =
    let (drained, r') = drain_once now how batch_size r in
    let rest = catch_up rounds now how batch_size r' in
    if ltb drained batch_size then some r' else rest
