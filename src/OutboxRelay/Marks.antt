-- ===== src/OutboxRelay/Marks.antt =====
-- No row is marked as processed whose message was not sent.
use orbit_exchange.Base.{
  ℕ, zero, suc, ◌≡◌, sym, List, [], ◌∷◌, ◌++◌, true, false, ◌==◌, ==-eq, inl, inr, Bool-cases, take,
  keep_if, IsIn,
}
use mathlib.Core.Path.{subst}
use orbit_exchange.Schema.{OutboxEvent}
use orbit_exchange.OutboxRelay.{
  Relay, Sent, Attempt, delivered, unmarked, unsent, lost, is_pending, message_of, update_event,
  mark_processed, record_failure, relay_one, relay_all, drain_once, batch,
}

IsIn-append : (x : Sent) (ys zs : List Sent) → IsIn x ys → IsIn x (ys ++ zs)
IsIn-append x [] zs h = absurd h
IsIn-append x (y ∷ ys) zs (inl e) = inl e
IsIn-append x (y ∷ ys) zs (inr h) = inr (IsIn-append x ys zs h)

IsIn-last : (x y : Sent) (ys : List Sent) → x ≡ y → IsIn x (ys ++ y ∷ [])
IsIn-last x y [] e = inl e
IsIn-last x y (z ∷ ys) e = inr (IsIn-last x y ys e)

module _ (msg : ℕ → Sent) where
  -- Ids are unique: a row's message is that of its id.
  abbrev pub AllKeyed : List OutboxEvent → Type 0
  AllKeyed [] = Unit {0}
  AllKeyed (ev ∷ evs) = (message_of ev ≡ msg ev.id) × AllKeyed evs

  -- Every row that is marked has its message in Kafka.
  abbrev pub AllSent : List Sent → List OutboxEvent → Type 0
  AllSent ks [] = Unit {0}
  AllSent ks (ev ∷ evs) = (is_pending ev ≡ false → IsIn (msg ev.id) ks) × AllSent ks evs

  AllKeyed-take : (n : ℕ) (evs : List OutboxEvent) → AllKeyed evs → AllKeyed (take n evs)
  AllKeyed-take zero evs h = tt
  AllKeyed-take (suc n) [] h = tt
  AllKeyed-take (suc n) (ev ∷ evs) (k, h) = (k, AllKeyed-take n evs h)

  AllKeyed-keep_if : (evs : List OutboxEvent) → AllKeyed evs → AllKeyed (keep_if is_pending evs)
  AllKeyed-keep_if [] h = tt
  AllKeyed-keep_if (ev ∷ evs) (k, h) = elim (Bool-cases (is_pending ev)) [
    | inl p ↦ rw p (k, AllKeyed-keep_if evs h)
    | inr p ↦ rw p (AllKeyed-keep_if evs h)
  ]

  AllSent-append :
      (ks js : List Sent) (evs : List OutboxEvent) → AllSent ks evs → AllSent (ks ++ js) evs
  AllSent-append ks js [] h = tt
  AllSent-append ks js (ev ∷ evs) (s, h) =
      ((λ p. IsIn-append (msg ev.id) ks js (s p)), AllSent-append ks js evs h)

  AllSent-mark_processed :
      (now id : ℕ) (ks : List Sent) (evs : List OutboxEvent)
      → IsIn (msg id) ks
      → AllSent ks evs
      → AllSent ks (update_event (mark_processed now) id evs)
  AllSent-mark_processed now id ks [] sent h = tt
  AllSent-mark_processed now id ks (ev ∷ evs) sent (s, h) = elim (Bool-cases (ev.id == id)) [
    | inl e ↦ rw e (
      (λ p. subst (λ i. IsIn (msg i) ks) (sym (==-eq ev.id id e)) sent),
      AllSent-mark_processed now id ks evs sent h,
    )
    | inr e ↦ rw e (s, AllSent-mark_processed now id ks evs sent h)
  ]

  AllSent-record_failure :
      (m id : ℕ) (ks : List Sent) (evs : List OutboxEvent)
      → AllSent ks evs
      → AllSent ks (update_event (record_failure m) id evs)
  AllSent-record_failure m id ks [] h = tt
  AllSent-record_failure m id ks (ev ∷ evs) (s, h) = elim (Bool-cases (ev.id == id)) [
    | inl e ↦ rw e (s, AllSent-record_failure m id ks evs h)
    | inr e ↦ rw e (s, AllSent-record_failure m id ks evs h)
  ]

  relay_one-AllSent :
      (now : ℕ) (a : Attempt) (ev : OutboxEvent) (r : Relay)
      → message_of ev ≡ msg ev.id
      → AllSent r.kafka r.outbox
      → AllSent (relay_one now a ev r).kafka (relay_one now a ev r).outbox
  unfolding relay_one
  relay_one-AllSent now delivered ev r k h =
      AllSent-mark_processed now ev.id (r.kafka ++ message_of ev ∷ []) r.outbox
        (IsIn-last (msg ev.id) (message_of ev) r.kafka (sym k))
        (AllSent-append r.kafka (message_of ev ∷ []) r.outbox h)
  relay_one-AllSent now (unmarked m) ev r k h =
      AllSent-record_failure m ev.id (r.kafka ++ message_of ev ∷ []) r.outbox
        (AllSent-append r.kafka (message_of ev ∷ []) r.outbox h)
  relay_one-AllSent now (unsent m) ev r k h = AllSent-record_failure m ev.id r.kafka r.outbox h
  relay_one-AllSent now (lost true) ev r k h =
      AllSent-append r.kafka (message_of ev ∷ []) r.outbox h
  relay_one-AllSent now (lost false) ev r k h = h

  relay_all-AllSent :
      (now : ℕ) (how : OutboxEvent → Attempt) (evs : List OutboxEvent) (r : Relay)
      → AllKeyed evs
      → AllSent r.kafka r.outbox
      → AllSent (relay_all now how evs r).kafka (relay_all now how evs r).outbox
  unfolding relay_all
  relay_all-AllSent now how [] r keyed h = h
  relay_all-AllSent now how (ev ∷ evs) r (k, keyed) h =
      relay_all-AllSent now how evs (relay_one now (how ev) ev r) keyed
        (relay_one-AllSent now (how ev) ev r k h)

  -- Delivery at least once: whatever fails on the way, a drain of an outbox whose ids are unique
  -- leaves no row marked as processed whose message is not in Kafka, if there was none before.
  pub drain_once-AllSent :
      (now : ℕ) (how : OutboxEvent → Attempt) (n : ℕ) (r : Relay)
      → AllKeyed r.outbox
      → AllSent r.kafka r.outbox
      → AllSent (drain_once now how n r).1.kafka (drain_once now how n r).1.outbox
  unfolding drain_once
  drain_once-AllSent now how n r keyed h =
      relay_all-AllSent now how (batch n r.outbox) r
        (AllKeyed-take n (keep_if is_pending r.outbox) (AllKeyed-keep_if r.outbox keyed)) h
