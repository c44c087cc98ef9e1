-- ===== src/OutboxRelay/Waiting.antt =====
-- The rows that wait for the relay, and what a mark takes from them.
use orbit_exchange.Base.{
  ℕ, ◌≡◌, refl, ap, not, false, List, [], ◌∷◌, ◌==◌, keep_if, Bool-cases, inl, inr,
}
use orbit_exchange.Schema.{OutboxEvent}
use orbit_exchange.OutboxRelay.{is_pending, update_event}

abbrev pub waiting : List OutboxEvent → List OutboxEvent
waiting = keep_if is_pending

-- The rows but those of an id.
abbrev pub others : ℕ → List OutboxEvent → List OutboxEvent
others id = keep_if (λ ev. not (ev.id == id))

pub waiting-update_event :
    (f : OutboxEvent → OutboxEvent) (id : ℕ)
    → ((ev : OutboxEvent) → is_pending (f ev) ≡ false)
    → (evs : List OutboxEvent) → waiting (update_event f id evs) ≡ others id (waiting evs)
waiting-update_event f id done [] = refl
waiting-update_event f id done (ev ∷ evs) =
    let rest = waiting-update_event f id done evs in
    elim (Bool-cases (ev.id == id)) [
      | inl same ↦ elim (Bool-cases (is_pending ev)) [
        | inl p ↦ rw (same, p, done ev) (rw same rest)
        | inr p ↦ rw (same, p, done ev) rest
      ]
      | inr other ↦ elim (Bool-cases (is_pending ev)) [
        | inl p ↦ rw (other, p) (rw other (ap (λ es. ev ∷ es) rest))
        | inr p ↦ rw (other, p) rest
      ]
    ]
