-- ===== src/Admin/AdminOutbox.antt =====
-- `AdminOutboxService.retry` and `.skip`, on a row that the relay has not published.
use orbit_exchange.Base.{ℕ, ◌≡◌, refl, not, List, [], ◌∷◌, none, some, ◌==◌, find_if, arith}
use orbit_exchange.Base.Outcome.{
  Result, ok, ◌>>=◌, ◌>>◌, throw_if, or_throw, throw_if-then, or_throw-then, ok-injective,
  event_not_found, already_processed,
}
use mathlib.Core.Path.{subst}
use orbit_exchange.Schema.{OutboxEvent}
use orbit_exchange.Schema.Submits.{submits}
use orbit_exchange.OutboxRelay.Waiting.{waiting, others, waiting-update_event}
use orbit_exchange.OutboxRelay.Payloads.{submits-update_event}
use orbit_exchange.OutboxRelay.{is_pending, update_event}

abbrev with_event : (OutboxEvent → OutboxEvent) → ℕ → List OutboxEvent → Result (List OutboxEvent)
with_event f id evs = do
  ev ← or_throw (find_if (λ e. e.id == id) evs) event_not_found
  throw_if (not (is_pending ev)) already_processed
  ok (update_event f ev.id evs)

abbrev rearm : OutboxEvent → OutboxEvent
rearm ev = record ev { attempts = 0; last_error = none }

-- `skipped` is the number of the text that marks a skip.
abbrev mark_skipped : ℕ → ℕ → OutboxEvent → OutboxEvent
mark_skipped now skipped ev = record ev { processed_at = some now; last_error = some skipped }

pub retry : ℕ → List OutboxEvent → Result (List OutboxEvent)
retry id evs = with_event rearm id evs

unfoldable pub skip : ℕ → ℕ → ℕ → List OutboxEvent → Result (List OutboxEvent)
skip now skipped id evs = with_event (mark_skipped now skipped) id evs

found_id :
    (id : ℕ) (evs : List OutboxEvent) (ev : OutboxEvent)
    → find_if (λ e. e.id == id) evs ≡ some ev
    → ev.id ≡ id
found_id id [] ev h = cc
found_id id (e ∷ evs) ev h = ground (arith, found_id id evs ev)

-- Skipping a row takes it from the rows that wait for the relay, and leaves the others waiting in
-- their order.
pub skip-waiting :
    (now skipped id : ℕ) (evs evs' : List OutboxEvent)
    → skip now skipped id evs ≡ ok evs'
    → waiting evs' ≡ others id (waiting evs)
unfolding skip
skip-waiting now skipped id evs evs' h =
    let (ev, found, h₁) = or_throw-then _ _ _ h in
    let (pending, h₂) = throw_if-then _ _ _ h₁ in
    subst (λ es. waiting es ≡ others id (waiting evs)) (ok-injective h₂)
      (rw (found_id id evs ev found)
        (waiting-update_event (mark_skipped now skipped) id (λ _. refl) evs))

with_event-submits :
    (f : OutboxEvent → OutboxEvent) (id : ℕ) (evs evs' : List OutboxEvent)
    → ((ev : OutboxEvent) → (f ev).payload ≡ ev.payload)
    → with_event f id evs ≡ ok evs'
    → submits evs' ≡ submits evs
with_event-submits f id evs evs' same h =
    let (ev, found, h₁) =
      or_throw-then (find_if (λ e. e.id == id) evs) event_not_found
        (λ ev. throw_if (not (is_pending ev)) already_processed >> ok (update_event f ev.id evs))
        h in
    let (pending, h₂) = throw_if-then _ _ _ h₁ in
    subst (λ es. submits es ≡ submits evs) (ok-injective h₂) (submits-update_event f ev.id evs same)

pub retry-submits :
    (id : ℕ) (evs evs' : List OutboxEvent) → retry id evs ≡ ok evs' → submits evs' ≡ submits evs
unfolding retry
retry-submits id evs evs' h = with_event-submits rearm id evs evs' (λ _. refl) h

pub skip-submits :
    (now skipped id : ℕ) (evs evs' : List OutboxEvent)
    → skip now skipped id evs ≡ ok evs'
    → submits evs' ≡ submits evs
unfolding skip
skip-submits now skipped id evs evs' h =
    with_event-submits (mark_skipped now skipped) id evs evs' (λ _. refl) h
