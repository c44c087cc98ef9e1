-- ===== src/Tests/Workers.antt =====
-- The workers on small inputs.
use orbit_exchange.Base.{
  ℕ, ◌≡◌, ◌+◌, refl, none, some, [], ◌∷◌, ◌++◌, Bool, true, false, if◌then◌else◌, ◌==◌, ◌&&◌,
  ==-refl, arith, List, Option, ◌≢◌, ◌≤◌, ◌<◌, ◌∙◌, ap, ltb, ==-eq, Bool-cases, inl, inr,
}
use orbit_exchange.Base.Outcome.{ok, err, engine_error}
use orbit_exchange.Shared.{
  KafkaTopic, order_commands, bid, ask, TradeEvent, uuid, trades, trade_event,
}
use orbit_exchange.Schema.{OutboxEvent}
use orbit_exchange.Dedupe.{Redis, Key, reached, unreached, World, Handler, with_dedupe}
use orbit_exchange.Dedupe.Once.{Delivery, deliver_all, with_dedupe-once}
use orbit_exchange.RetryPolicy.{RetryContext, Memory, transient, default_config, escalation}
use orbit_exchange.RetryPolicy.Budget.{fails, failures, with_retry_policy-budget}
use orbit_exchange.Retry30s.{Republished, waiting, retry_one, retry_one-dlq}
use orbit_exchange.RetryPolicy.{RetryConfig, Escalated}
use orbit_exchange.OutboxRelay.{Relay, Attempt, delivered, unsent, batch, drain_once}
use orbit_exchange.OutboxRelay.{Sent, message_of}
use orbit_exchange.OutboxRelay.Marks.{AllSent, drain_once-AllSent}
use orbit_exchange.OutboxRelay.Delivery.{messages, drain_once-kafka}

abbrev pub same_key : Key → Key → Bool
same_key (a, b) (c, d) = a == c && b == d

pub same_key_refl : (k : Key) → same_key k k ≡ true
same_key_refl (a, b) = rw (==-refl a, ==-refl b) refl

same_key_eq : (j k : Key) → same_key j k ≡ true → j ≡ k
same_key_eq (a, b) (c, d) h = elim (Bool-cases (a == c)) [
  | inl e ↦ ap (λ x. (x, b)) (==-eq a c e) ∙ ap (λ (y : ℕ). (c, y)) (==-eq b d (rw e at h))
  | inr e ↦ ground (arith, rw e at h)
]

pub same_key_ne : (j k : Key) → j ≢ k → same_key j k ≡ false
same_key_ne j k other = elim (Bool-cases (same_key j k)) [
  | inl e ↦ absurd (other (same_key_eq j k e))
  | inr e ↦ e
]

-- The time at which a key expires, if it is set.
abbrev pub Store : Type 0
Store = Key → Option ℕ

abbrev pub lives : ℕ → Option ℕ → Bool
lives now none = false
lives now (some until) = ltb now until

pub lives-later :
    (now later : ℕ) (until : Option ℕ)
    → now ≤ later
    → lives now until ≡ false
    → lives later until ≡ false
lives-later now later none late h = refl
lives-later now later (some until) late h = ground (arith, late, h)

pub ltb-true : (a b : ℕ) → a < b → ltb a b ≡ true
ltb-true a b h = ground (arith, h)

-- A store with a clock.
abbrev pub table : Redis Store
table = record {
  has = λ k now r. lives now (r k);
  set = λ k until r j. if same_key j k then some until else r j;
  del = λ k r j. if same_key j k then none else r j;
  has-set = λ k until now r early. rw (same_key_refl k) (ltb-true now until early);
  has-del = λ k now r. rw (same_key_refl k) refl;
  has-set_other = λ j k until now r other. rw (same_key_ne j k other) refl;
  has-del_other = λ j k now r other. rw (same_key_ne j k other) refl;
  has-later = λ k now later r late h. lives-later now later (r k) late h;
}

-- A handler that counts its runs.
abbrev counts : Handler ℕ ℕ
counts n = (ok n, n + 1)

abbrev start : World Store ℕ
start = record { redis = λ k. none; work = 0 }

abbrev after_one : World Store ℕ
after_one = (with_dedupe table reached reached (some 5) 1 10 0 counts start).1

handled : with_dedupe table reached reached (some 5) 1 10 0 counts start ≡ (ok (some 0), after_one)
unfolding with_dedupe
handled = refl

-- Another event, and the same one while Redis is out of reach.
abbrev others : List (Delivery ℕ ℕ)
others =
    record {
      there = reached;
      back = reached;
      event_id = some 6;
      worker = 1;
      ttl_sec = 10;
      now = 4000;
      fn = counts;
    }
    ∷ record {
      there = unreached;
      back = reached;
      event_id = some 5;
      worker = 1;
      ttl_sec = 10;
      now = 5000;
      fn = counts;
    }
    ∷ []

with_dedupe-once_example :
    with_dedupe table reached reached (some 5) 1 10 9999 counts (deliver_all table others after_one)
    ≡ (ok none, deliver_all table others after_one)
with_dedupe-once_example =
    with_dedupe-once table 5 1 10 0 10 9999 reached reached counts counts start after_one 0 others
      handled (omega arith, (omega arith, tt)) (omega arith)

-- The key has expired.
handled_again :
    (with_dedupe table reached reached (some 5) 1 10 10000 counts after_one).0 ≡ ok (some 1)
unfolding with_dedupe
handled_again = refl

-- A message that no escalation has seen.
abbrev pub context : RetryContext
context = record {
  topic = order_commands;
  partition = 0;
  message = record { offset = 4; key = some 7; value = some 8; attempt = none };
}

abbrev pub memory : Memory
memory = record { inflight = none; sent = [] }

-- One delivery was thrown back, with a budget of two: the third moves the message off.
with_retry_policy-budget_example :
    ((fails ℕ
        (default_config (λ e. transient))
        context
        0
        engine_error
        (failures ℕ (default_config (λ e. transient)) context 0 engine_error 1 memory)).0
      ≡ err engine_error)
    × ((fails ℕ
          (default_config (λ e. transient))
          context
          0
          engine_error
          (failures ℕ (default_config (λ e. transient)) context 0 engine_error 1 memory)).1.sent
        ≡ [])
    × (fails ℕ
          (default_config (λ e. transient))
          context
          0
          engine_error
          (failures ℕ (default_config (λ e. transient)) context 0 engine_error 2 memory)
        ≡ (
          ok none,
          record {
            inflight = none;
            sent = [] ++ escalation (default_config (λ e. transient)) context engine_error 2 0 ∷ [];
          },
        ))
with_retry_policy-budget_example =
    with_retry_policy-budget ℕ (default_config (λ e. transient)) context 0 engine_error 2 1 memory
      refl (omega arith)

abbrev pub trade : ℕ → ℕ → ℕ → TradeEvent
trade price qty ts = record {
  event_id = uuid 1;
  id = 1;
  sequence = 1;
  symbol = 7;
  price = price;
  quantity = qty;
  maker_order_id = 1;
  taker_order_id = 2;
  maker_user_id = 10;
  taker_user_id = 20;
  maker_side = ask;
  taker_side = bid;
  ts = ts;
}

abbrev event : ℕ → OutboxEvent
event id = record {
  id = id;
  topic = trades;
  key = 7;
  payload = trade_event (trade 100 2 0);
  processed_at = none;
  attempts = 0;
  last_error = none;
}

-- The second of three rows cannot be sent.
abbrev fares : OutboxEvent → Attempt
fares ev = if ev.id == 2 then unsent 1 else delivered

abbrev relay : Relay
relay = record { outbox = event 1 ∷ event 2 ∷ event 3 ∷ []; kafka = [] }

drain_once-kafka_example :
    (drain_once 9 fares 100 relay).1.kafka ≡ [] ++ messages fares (batch 100 relay.outbox)
drain_once-kafka_example = drain_once-kafka 9 fares 100 relay

abbrev id_message : ℕ → Sent
id_message id = message_of (event id)

drain_once-AllSent_example :
    AllSent id_message
      (drain_once 9 fares 100 relay).1.kafka
      (drain_once 9 fares 100 relay).1.outbox
drain_once-AllSent_example =
    drain_once-AllSent id_message 9 fares 100 relay (refl, (refl, (refl, tt)))
      (pending, (pending, (pending, tt)))
  where
    pending : {A : Type 0} → true ≡ false → A
    pending h = ground arith

abbrev tier : RetryConfig
tier = default_config (λ e. transient)

abbrev second_chance : Republished
second_chance = record {
  topic = order_commands;
  after_ms = 29000;
  message = record { offset = 6; key = some 7; value = some 8; attempt = some 3 };
}

sent_back :
    retry_one none 6 1000 (waiting (escalation tier context engine_error 2 0))
    ≡ ok (some second_chance)
unfolding retry_one
sent_back = refl

retry_one-dlq_example :
    (x : Escalated) × (x.target ≡ KafkaTopic.dlq)
    × (fails ℕ tier (record context { message = second_chance.message }) 1000 engine_error memory
        ≡ (ok none, record { inflight = none; sent = [] ++ x ∷ [] }))
retry_one-dlq_example =
    retry_one-dlq ℕ tier context 0 1000 6 engine_error engine_error 2 memory second_chance
      (omega arith) sent_back
