-- ===== src/Retry30s.antt =====
-- apps/workers/src/retry-30s: a message waits and goes back to its topic.
use orbit_exchange.Base.{
  ℕ, suc, ◌+◌, ◌-◌, ◌≡◌, ◌≤◌, refl, [], ◌∷◌, ◌++◌, Option, none, some, arith, false, eq_of_some,
  Option-cases, inl, inr,
}
use orbit_exchange.Base.Outcome.{Error, Result, ok, err, ok-injective, err≢ok}
use mathlib.Core.Path.{subst}
use orbit_exchange.Shared.{KafkaTopic}
use orbit_exchange.RetryPolicy.{
  RetryConfig, RetryContext, Message, Memory, Escalated, ErrorKind, transient, permanent,
  goes_to_retry, escalation, or_zero,
}
use orbit_exchange.RetryPolicy.Budget.{fails, fails-escalates}

-- A message of the retry tier: what an escalation sent, or one without a value or a topic to go to.
pub data Waiting : Type 0 where
  without_value without_topic : Waiting
  waiting : Escalated → Waiting

-- A message on its topic again, after this wait, with all its headers.
pub record Republished : Type 0 where
  pub topic : KafkaTopic
  pub after_ms : ℕ
  pub message : Message

-- `retryAfter - Date.now()`, if there is one.
abbrev wait_ms : Option ℕ → ℕ → ℕ
wait_ms none now = 0
wait_ms (some at_ms) now = at_ms - now

abbrev republished : ℕ → ℕ → Escalated → Republished
republished offset now x = record {
  topic = x.original_topic;
  after_ms = wait_ms x.retry_after now;
  message = record { offset = offset; key = x.key; value = x.value; attempt = some x.attempt };
}

abbrev send_back : Option Error → Republished → Result (Option Republished)
send_back none m = ok (some m)
send_back (some e) m = err e

-- The handler: what goes back, at the offset that the topic gives it; `none` is a message that is
-- dropped, and `send` is the producer's exception if it throws.
unfoldable pub retry_one : Option Error → ℕ → ℕ → Waiting → Result (Option Republished)
retry_one send offset now without_value = ok none
retry_one send offset now without_topic = ok none
retry_one send offset now (waiting x) = elim x.value [
  | none ↦ ok none
  | some _ ↦ send_back send (republished offset now x)
]

sent_some :
    (send : Option Error) (m back : Republished) → send_back send m ≡ ok (some back) → m ≡ back
sent_some none m back h = eq_of_some (ok-injective h)
sent_some (some e) m back h = absurd (err≢ok h)

-- An attempt counted before keeps an error from the retry tier.
goes_to_retry-suc : (k : ErrorKind) (n : ℕ) → goes_to_retry k (suc n) ≡ false
goes_to_retry-suc transient n = ground arith
goes_to_retry-suc permanent n = refl

-- What goes back is the message, when it has a value and the producer works.
went_back :
    (send : Option Error) (offset now : ℕ) (x : Escalated) (back : Republished)
    → retry_one send offset now (waiting x) ≡ ok (some back)
    → republished offset now x ≡ back
unfolding retry_one
went_back send offset now x back h = elim (Option-cases x.value) [
  | inl e ↦ ground (arith, ok-injective (rw e at h))
  | inr (v, e) ↦ sent_some send (republished offset now x) back (rw e at h)
]

-- A message that the policy has moved to the retry tier with its budget spent, and that is sent
-- back: at its next failure it goes to the dead-letter queue at once, with no further attempt in
-- flight.
pub retry_one-dlq :
    (T : Type 0) (cfg : RetryConfig) (ctx : RetryContext) (now later offset : ℕ) (e e' : Error)
    (total : ℕ) (m : Memory) (back : Republished)
    → cfg.in_flight_attempts ≤ total
    → retry_one none offset later (waiting (escalation cfg ctx e total now)) ≡ ok (some back)
    → (x : Escalated) × (x.target ≡ cfg.dlq_topic)
      × (fails T cfg (record ctx { message = back.message }) later e' m
          ≡ (ok none, record { inflight = none; sent = m.sent ++ x ∷ [] }))
unfolding retry_one
retry_one-dlq T cfg ctx now later offset e e' total m back spent h =
    let sent_back = republished offset later (escalation cfg ctx e total now) in
    let c : RetryContext = record ctx { message = sent_back.message } in
    let count : ℕ = or_zero m.inflight + suc total in
    subst
      (λ (b : Republished).
        (x : Escalated) × (x.target ≡ cfg.dlq_topic)
        × (fails T cfg (record ctx { message = b.message }) later e' m
            ≡ (ok none, record { inflight = none; sent = m.sent ++ x ∷ [] })))
      (went_back none offset later (escalation cfg ctx e total now) back h)
      (
        escalation cfg c e' count later,
        rw (goes_to_retry-suc (cfg.classify e') total) refl,
        fails-escalates T cfg c later e' m (omega (arith, spent)),
      )
