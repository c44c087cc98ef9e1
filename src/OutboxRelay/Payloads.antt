-- ===== src/OutboxRelay/Payloads.antt =====
-- No mark on the outbox's rows touches what they carry.
use orbit_exchange.Base.{ℕ, ◌≡◌, refl, ◌∙◌, List, [], ◌∷◌, true, false, ◌==◌, Bool-cases, inl, inr}
use orbit_exchange.Schema.{OutboxEvent}
use orbit_exchange.Schema.Submits.{submits}
use orbit_exchange.OutboxRelay.{
  Relay, Attempt, delivered, unmarked, unsent, lost, update_event, mark_processed, record_failure,
  relay_one, relay_all, drain_once, batch,
}

pub submits-update_event :
    (f : OutboxEvent → OutboxEvent) (id : ℕ) (evs : List OutboxEvent)
    → ((ev : OutboxEvent) → (f ev).payload ≡ ev.payload)
    → submits (update_event f id evs) ≡ submits evs
submits-update_event f id [] same = refl
submits-update_event f id (ev ∷ evs) same = elim (Bool-cases (ev.id == id)) [
  | inl e ↦ rw (e, same ev, submits-update_event f id evs same) refl
  | inr e ↦ rw (e, submits-update_event f id evs same) refl
]

submits-relay_one :
    (now : ℕ) (a : Attempt) (ev : OutboxEvent) (r : Relay)
    → submits (relay_one now a ev r).outbox ≡ submits r.outbox
unfolding relay_one
submits-relay_one now delivered ev r =
    submits-update_event (mark_processed now) ev.id r.outbox (λ _. refl)
submits-relay_one now (unmarked m) ev r =
    submits-update_event (record_failure m) ev.id r.outbox (λ _. refl)
submits-relay_one now (unsent m) ev r =
    submits-update_event (record_failure m) ev.id r.outbox (λ _. refl)
submits-relay_one now (lost true) ev r = refl
submits-relay_one now (lost false) ev r = refl

submits-relay_all :
    (now : ℕ) (how : OutboxEvent → Attempt) (evs : List OutboxEvent) (r : Relay)
    → submits (relay_all now how evs r).outbox ≡ submits r.outbox
unfolding relay_all
submits-relay_all now how [] r = refl
submits-relay_all now how (ev ∷ evs) r =
    submits-relay_all now how evs (relay_one now (how ev) ev r)
    ∙ submits-relay_one now (how ev) ev r

pub submits-drain_once :
    (now : ℕ) (how : OutboxEvent → Attempt) (n : ℕ) (r : Relay)
    → submits (drain_once now how n r).1.outbox ≡ submits r.outbox
unfolding drain_once
submits-drain_once now how n r = submits-relay_all now how (batch n r.outbox) r
