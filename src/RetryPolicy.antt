-- ===== src/RetryPolicy.antt =====
-- packages/observability/src/retry-policy.ts: retries in flight, then retry-30s, then the DLQ.
pub mod Budget
use orbit_exchange.Base.{
  ℕ, suc, ◌+◌, ◌≡◌, ◌<◌, ◌≤◌, refl, ap, List, [], ◌∷◌, ◌++◌, Option, none, some, Bool, true, false,
  if◌then◌else◌, ltb, ◌==◌, arith,
}
use orbit_exchange.Base.Outcome.{Error, Result, ok, err}
use orbit_exchange.Shared.{KafkaTopic, retry_30s, dlq}

-- `classify`
pub data ErrorKind : Type 0 where
  transient permanent : ErrorKind

-- A message as a consumer sees it; `attempt` is the header `x-orbit-attempt`, none when it is absent
-- or not a number.
pub record Message : Type 0 where
  pub offset : ℕ
  pub key : Option ℕ
  pub value : Option ℕ
  pub attempt : Option ℕ

-- What an escalation sends: the message, with the provenance headers.
pub record Escalated : Type 0 where
  pub target : KafkaTopic
  pub key : Option ℕ
  pub value : Option ℕ
  pub original_topic : KafkaTopic
  pub original_partition : ℕ
  pub original_offset : ℕ
  pub attempt : ℕ
  pub last_error : Error
  pub retry_after : Option ℕ

pub record RetryConfig : Type 0 where
  pub in_flight_attempts : ℕ
  pub retry_topic : KafkaTopic
  pub dlq_topic : KafkaTopic
  pub retry_delay_ms : ℕ
  pub classify : Error → ErrorKind

pub record RetryContext : Type 0 where
  pub topic : KafkaTopic
  pub partition : ℕ
  pub message : Message

-- The defaults of the module: two attempts, 30 s.
abbrev pub default_config : (Error → ErrorKind) → RetryConfig
default_config classify = record {
  in_flight_attempts = 2;
  retry_topic = retry_30s;
  dlq_topic = dlq;
  retry_delay_ms = 30_000;
  classify = classify;
}

-- `inflightCount.get(attemptKey)` of this offset, and what the producer has sent.
pub record Memory : Type 0 where
  pub inflight : Option ℕ
  pub sent : List Escalated

abbrev pub or_zero : Option ℕ → ℕ
or_zero none = 0
or_zero (some n) = n

-- `parseAttempt`
abbrev pub parse_attempt : Message → ℕ
parse_attempt m = or_zero m.attempt

-- `errKind === 'transient' && headerAttempt === 0`
abbrev pub goes_to_retry : ErrorKind → ℕ → Bool
goes_to_retry transient h = h == 0
goes_to_retry permanent h = false

abbrev pub escalation : RetryConfig → RetryContext → Error → ℕ → ℕ → Escalated
escalation cfg ctx e total now =
    let retry = goes_to_retry (cfg.classify e) (parse_attempt ctx.message) in
    record {
      target = if retry then cfg.retry_topic else cfg.dlq_topic;
      key = ctx.message.key;
      value = ctx.message.value;
      original_topic = ctx.topic;
      original_partition = ctx.partition;
      original_offset = ctx.message.offset;
      attempt = suc total;
      last_error = e;
      retry_after = if retry then some (now + cfg.retry_delay_ms) else none;
    }

-- The outcome of one delivery: the value, `null` after an escalation, or the exception.
module _ {T : Type 0} where
  -- The escalation, with how the producer's `send` goes.
  abbrev escalate : Option Error → Escalated → Memory → Result (Option T) × Memory
  escalate none x m = (ok none, record { inflight = none; sent = m.sent ++ x ∷ [] })
  escalate (some publish_err) x m = (err publish_err, record m { inflight = none })

  abbrev failed :
      RetryConfig → RetryContext → Option Error → ℕ → Error → Memory → Result (Option T) × Memory
  failed cfg ctx send now e m =
      let mem_count = or_zero m.inflight in
      let total = mem_count + parse_attempt ctx.message in
      if ltb total cfg.in_flight_attempts
      then (err e, record m { inflight = some (suc mem_count) })
      else escalate send (escalation cfg ctx e total now) m

  -- `withRetryPolicy`, on what the handler returned or threw; `send` is the producer's exception,
  -- if it throws.
  pub with_retry_policy :
      RetryConfig → RetryContext → Option Error → ℕ → Result T → Memory → Result (Option T) × Memory
  with_retry_policy cfg ctx send now (ok a) m = (ok (some a), record m { inflight = none })
  with_retry_policy cfg ctx send now (err e) m = failed cfg ctx send now e m
