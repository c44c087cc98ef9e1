-- ===== src/OutboxRelay/Liveness.antt =====
-- What the relay gets done when nothing fails.
use orbit_exchange.Base.{
  ℕ, zero, suc, ◌≡◌, ◌≤◌, ◌<◌, ◌+◌, refl, sym, ◌∙◌, ap, true, false, List, [], ◌∷◌, ◌++◌, some, map,
  append_assoc, append-nil, ◌==◌, ==-refl, ltb, length, take, IsKeyed, Every, Bool-cases, inl, inr,
  arith,
}
use mathlib.Core.Path.{subst}
use orbit_exchange.Schema.{OutboxEvent}
use orbit_exchange.OutboxRelay.{
  Relay, Attempt, delivered, message_of, mark_processed, relay_one, relay_all, drain_once, catch_up,
  batch,
}
use orbit_exchange.OutboxRelay.Waiting.{waiting, others, waiting-update_event}

abbrev all_delivered : OutboxEvent → Attempt
all_delivered ev = delivered

others-absent :
    (ev : OutboxEvent) (evs : List OutboxEvent)
    → Every (λ e. (ev.id == e.id) ≡ false) evs
    → others ev.id evs ≡ evs
others-absent ev [] h = refl
others-absent ev (e ∷ evs) (n, h) =
    let other : (e.id == ev.id) ≡ false = ground (arith, n) in
    rw other (ap (λ es. e ∷ es) (others-absent ev evs h))

-- The rows of a batch are taken from those that wait.
relay_all-waiting :
    (now : ℕ) (evs rest : List OutboxEvent) (r : Relay)
    → IsKeyed (λ ev. ev.id) (evs ++ rest)
    → waiting r.outbox ≡ evs ++ rest
    → waiting (relay_all now all_delivered evs r).outbox ≡ rest
unfolding relay_all relay_one
relay_all-waiting now [] rest r keyed at = at
relay_all-waiting now (ev ∷ evs) rest r (new, keyed) at =
    relay_all-waiting now evs rest (relay_one now delivered ev r) keyed (
      waiting-update_event (mark_processed now) ev.id (λ _. refl) r.outbox
      ∙ ap (others ev.id) at
      ∙ rw (==-refl ev.id) (others-absent ev (evs ++ rest) new))

relay_all-kafka :
    (now : ℕ) (evs : List OutboxEvent) (r : Relay)
    → (relay_all now all_delivered evs r).kafka ≡ r.kafka ++ map message_of evs
unfolding relay_all relay_one
relay_all-kafka now [] r = sym (append-nil r.kafka)
relay_all-kafka now (ev ∷ evs) r =
    relay_all-kafka now evs (relay_one now delivered ev r)
    ∙ append_assoc r.kafka (message_of ev ∷ []) (map message_of evs)

-- A batch and what is left.
record Taken (n : ℕ) (ys : List OutboxEvent) : Type 0 where
  rest : List OutboxEvent
  whole : ys ≡ take n ys ++ rest
  counted : length ys ≡ length (take n ys) + length rest
  short : length (take n ys) < n → rest ≡ []

taken : (n : ℕ) (ys : List OutboxEvent) → Taken n ys
taken zero ys = record {
  rest = ys;
  whole = refl;
  counted = omega arith;
  short = λ h. ground (arith, h);
}
taken (suc n) [] = record { rest = []; whole = refl; counted = omega arith; short = λ h. refl }
taken (suc n) (y ∷ ys) =
    let t = taken n ys in
    record {
      rest = t.rest;
      whole = ap (λ l. y ∷ l) t.whole;
      counted = omega (arith, t.counted);
      short = λ h. t.short (omega (arith, h));
    }

IsKeyed-rest :
    (evs rest : List OutboxEvent) → IsKeyed (λ ev. ev.id) (evs ++ rest) → IsKeyed (λ ev. ev.id) rest
IsKeyed-rest [] rest h = h
IsKeyed-rest (ev ∷ evs) rest (new, h) = IsKeyed-rest evs rest h

messages-append :
    (evs rest : List OutboxEvent)
    → map message_of (evs ++ rest) ≡ map message_of evs ++ map message_of rest
messages-append [] rest = refl
messages-append (ev ∷ evs) rest = ap (λ ms. message_of ev ∷ ms) (messages-append evs rest)

-- After one round.
record Round (now n : ℕ) (r : Relay) : Type 0 where
  rest : List OutboxEvent
  left : waiting (drain_once now all_delivered n r).1.outbox ≡ rest
  whole : waiting r.outbox ≡ batch n r.outbox ++ rest
  keyed : IsKeyed (λ ev. ev.id) rest
  counted : length (waiting r.outbox) ≡ length (batch n r.outbox) + length rest
  short : length (batch n r.outbox) < n → rest ≡ []
  kafka : (drain_once now all_delivered n r).1.kafka ≡ r.kafka ++ map message_of (batch n r.outbox)

round : (now n : ℕ) (r : Relay) → IsKeyed (λ ev. ev.id) (waiting r.outbox) → Round now n r
unfolding drain_once
round now n r keyed =
    let t = taken n (waiting r.outbox) in
    let split = subst (IsKeyed (λ ev. ev.id)) t.whole keyed in
    record {
      rest = t.rest;
      left = relay_all-waiting now (batch n r.outbox) t.rest r split t.whole;
      whole = t.whole;
      keyed = IsKeyed-rest (batch n r.outbox) t.rest split;
      counted = t.counted;
      short = t.short;
      kafka = relay_all-kafka now (batch n r.outbox) r;
    }

all_messages :
    (now n : ℕ) (r : Relay) (t : Round now n r)
    → map message_of (waiting r.outbox) ≡ map message_of (batch n r.outbox) ++ map message_of t.rest
all_messages now n r t = ap (map message_of) t.whole ∙ messages-append (batch n r.outbox) t.rest

-- A batch that is not full was the last.
last_drain :
    (now n : ℕ) (r : Relay)
    → Round now n r
    → length (batch n r.outbox) < n
    → (waiting (drain_once now all_delivered n r).1.outbox ≡ [])
      × ((drain_once now all_delivered n r).1.kafka ≡ r.kafka ++ map message_of (waiting r.outbox))
last_drain now n r t h =
    let none_left = t.short h in
    (
      t.left ∙ none_left,
      t.kafka
          ∙ ap (λ ms. r.kafka ++ ms)
              (sym (
                all_messages now n r t
                ∙ ap (λ l. map message_of (batch n r.outbox) ++ map message_of l) none_left
                ∙ append-nil (map message_of (batch n r.outbox)))),
    )

-- When every send and every mark goes through, the worker's loop reaches its sleep within one round
-- more than there are rows that wait, then no row waits any more, and the messages of all that
-- waited are in Kafka behind what was there, once each and in the order of their ids; a batch has
-- room for a row, and ids are unique.
pub catch_up-done :
    (rounds now n : ℕ) (r : Relay)
    → IsKeyed (λ ev. ev.id) (waiting r.outbox)
    → length (waiting r.outbox) ≤ rounds
    → (r' : Relay) × (catch_up (suc rounds) now all_delivered (suc n) r ≡ some r')
      × (waiting r'.outbox ≡ [])
      × (r'.kafka ≡ r.kafka ++ map message_of (waiting r.outbox))
unfolding catch_up drain_once
catch_up-done zero now n r keyed enough =
    let t = round now (suc n) r keyed in
    let short : ltb (length (batch (suc n) r.outbox)) (suc n) ≡ true =
      ground (arith, t.counted, enough) in
    let (none_left, sent) = last_drain now (suc n) r t (omega (arith, t.counted, enough)) in
    ((drain_once now all_delivered (suc n) r).1, rw short refl, none_left, sent)
catch_up-done (suc rounds) now n r keyed enough =
    let t = round now (suc n) r keyed in
    let r₁ = (drain_once now all_delivered (suc n) r).1 in
    elim (Bool-cases (ltb (length (batch (suc n) r.outbox)) (suc n))) [
      | inl short ↦
          let (none_left, sent) = last_drain now (suc n) r t (ground (arith, short)) in
          (r₁, rw short refl, none_left, sent)
      | inr full ↦
          let (r', reached, none_left, sent) =
            catch_up-done rounds now n r₁ (subst (IsKeyed (λ ev. ev.id)) (sym t.left) t.keyed)
              (ground (arith, ap length t.left, t.counted, enough, full)) in
          (
            r',
            rw full reached,
            none_left,
            sent
                ∙ ap (λ ks. ks ++ map message_of (waiting r₁.outbox)) t.kafka
                ∙ ap (λ l. (r.kafka ++ map message_of (batch (suc n) r.outbox)) ++ map message_of l)
                    t.left
                ∙ append_assoc r.kafka (map message_of (batch (suc n) r.outbox))
                    (map message_of t.rest)
                ∙ ap (λ ms. r.kafka ++ ms) (sym (all_messages now (suc n) r t)),
          )
    ]
