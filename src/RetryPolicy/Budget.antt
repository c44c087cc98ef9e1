-- ===== src/RetryPolicy/Budget.antt =====
-- A message that fails at every delivery: how often it is thrown back, and where it goes then.
use orbit_exchange.Base.{
  ℕ, zero, suc, ◌+◌, ◌≡◌, ◌<◌, ◌≤◌, refl, ap, ◌∙◌, [], ◌∷◌, ◌++◌, Option, none, some, true, false,
  ltb, arith,
}
use orbit_exchange.Base.Outcome.{Error, Result, ok, err}
use orbit_exchange.RetryPolicy.{
  RetryConfig, RetryContext, Memory, or_zero, parse_attempt, escalation, with_retry_policy,
}

module _ (T : Type 0) (cfg : RetryConfig) (ctx : RetryContext) (now : ℕ) (e : Error) where
  -- One delivery that fails, with the producer working.
  abbrev pub fails : Memory → Result (Option T) × Memory
  fails m = with_retry_policy cfg ctx none now (err e) m

  -- The memory after `n` of them.
  abbrev pub failures : ℕ → Memory → Memory
  failures zero m = m
  failures (suc n) m = failures n (fails m).1

  -- Within the budget a failure is thrown back and counted.
  fails-counts :
      (m : Memory)
      → or_zero m.inflight + parse_attempt ctx.message < cfg.in_flight_attempts
      → fails m ≡ (err e, record m { inflight = some (suc (or_zero m.inflight)) })
  unfolding with_retry_policy
  fails-counts m h = rw (within _ _ h) refl
    where
      within : (a b : ℕ) → a < b → ltb a b ≡ true
      within a b h = ground arith

  -- With no budget left it is moved off.
  pub fails-escalates :
      (m : Memory)
      → cfg.in_flight_attempts ≤ or_zero m.inflight + parse_attempt ctx.message
      → fails m ≡ (
        ok none,
        record {
          inflight = none;
          sent =
              m.sent
              ++ escalation cfg ctx e (or_zero m.inflight + parse_attempt ctx.message) now ∷ [];
        },
      )
  unfolding with_retry_policy
  fails-escalates m h = rw (beyond _ _ h) refl
    where
      beyond : (a b : ℕ) → b ≤ a → ltb a b ≡ false
      beyond a b h = ground arith

  failures-count :
      (n : ℕ) (m : Memory)
      → or_zero m.inflight + parse_attempt ctx.message + n ≤ cfg.in_flight_attempts
      → (or_zero (failures n m).inflight ≡ or_zero m.inflight + n) × ((failures n m).sent ≡ m.sent)
  failures-count zero m h = (omega arith, refl)
  failures-count (suc n) m h =
      let counted = fails-counts m (omega (arith, h)) in
      let (count, sent) =
        failures-count n (record m { inflight = some (suc (or_zero m.inflight)) })
          (omega (arith, h)) in
      let after : (fails m).1 ≡ record m { inflight = some (suc (or_zero m.inflight)) } =
        ap (λ r. r.1) counted in
      (
        ap (λ y. or_zero (failures n y).inflight) after ∙ omega (arith, count),
        ap (λ y. (failures n y).sent) after ∙ sent,
      )

  -- A message that always fails, with `n` attempts left in its budget, is thrown back `n` times,
  -- with nothing sent; at the delivery after that it is moved off with one message, to retry-30s if
  -- its error is transient and it comes from no escalation, and else to the DLQ.
  pub with_retry_policy-budget :
      (n k : ℕ) (m : Memory)
      → or_zero m.inflight + parse_attempt ctx.message + n ≡ cfg.in_flight_attempts
      → k < n
      → ((fails (failures k m)).0 ≡ err e)
        × ((fails (failures k m)).1.sent ≡ m.sent)
        × (fails (failures n m) ≡ (
          ok none,
          record {
            inflight = none;
            sent = m.sent ++ escalation cfg ctx e cfg.in_flight_attempts now ∷ [];
          },
        ))
  with_retry_policy-budget n k m h less =
      let (count, sent) = failures-count k m (omega (arith, h)) in
      let (count', sent') = failures-count n m (omega (arith, h)) in
      let total : or_zero (failures n m).inflight + parse_attempt ctx.message
          ≡ cfg.in_flight_attempts =
        omega (arith, h, count') in
      let thrown = fails-counts (failures k m) (omega (arith, h, count)) in
      (
        ap (λ r. r.0) thrown,
        ap (λ r. r.1.sent) thrown ∙ sent,
        fails-escalates (failures n m) (omega (arith, total)) ∙ rw (sent', total) refl,
      )
