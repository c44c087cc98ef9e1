-- ===== src/Snapshot.antt =====
-- apps/matcher/src/snapshot: `SnapshotService.schedule` and `.write`, for one market.
use orbit_exchange.Base.{
  ℕ, ◌≡◌, ◌≤◌, ◌+◌, ◌-◌, ◌⊎◌, inl, inr, refl, Bool, true, false, List, [], ◌∷◌, Option, none, some,
  leb, if◌then◌else◌, Bool-cases, arith, sym,
}
use mathlib.Core.Path.{subst}

-- `THROTTLE_MS`
abbrev pub throttle_ms : ℕ
throttle_ms = 100

-- `last_write`: when the last write came through; `pending`: when the queued one is due; `started`:
-- when each write was begun, the last one first.
pub record Snapshots : Type 0 where
  pub last_write : ℕ
  pub pending : Option ℕ
  pub started : List ℕ

-- The head of `write`; what it stores is the book.
abbrev pub begin_write : ℕ → Snapshots → Snapshots
begin_write now s = record s { started = now ∷ s.started }

abbrev queue : ℕ → Option ℕ → Snapshots → Snapshots
queue due (some d) s = s
queue due none s = record s { pending = some due }

-- `schedule`
unfoldable pub schedule : ℕ → Snapshots → Snapshots
schedule now s =
    let elapsed = now - s.last_write in
    if leb throttle_ms elapsed
    then begin_write now s
    else queue (now + (throttle_ms - elapsed)) s.pending s

-- The timer's callback.
abbrev pub fire : ℕ → Snapshots → Snapshots
fire now s = begin_write now (record s { pending = none })

-- The end of `write`: it has stored the book, or has failed.
abbrev finish : ℕ → Bool → Snapshots → Snapshots
finish now true s = record s { last_write = now }
finish now false s = s

-- What happens to the service.
pub data Happening : Type 0 where
  scheduled fired : Happening
  finished : Bool → Happening

abbrev happen : ℕ → Happening → Snapshots → Snapshots
happen now scheduled s = schedule now s
happen now fired s = fire now s
happen now (finished stored) s = finish now stored s

-- `onModuleInit`: a write for the market, on nothing written and nothing queued.
abbrev pub on_module_init : ℕ → Snapshots
on_module_init now = begin_write now (record { last_write = 0; pending = none; started = [] })

abbrev pub at_boot : Snapshots
at_boot = on_module_init 0

-- A history, from the boot on, by a clock that does not go back; each entry is the time that has
-- passed and what happens then.
pub run : ℕ → List (ℕ × Happening) → Snapshots → ℕ × Snapshots
unfolding schedule
run now [] s = (now, s)
run now ((passed, h) ∷ hs) s = run (now + passed) hs (happen (now + passed) h s)

-- The timers run when they are due: the clock does not pass the time of a queued write, which is
-- begun at that time.
abbrev pub IsNotPast : ℕ → Option ℕ → Type 0
IsNotPast now none = Unit {0}
IsNotPast now (some due) = now ≤ due

abbrev pub IsDue : ℕ → Happening → Option ℕ → Type 0
IsDue now scheduled p = Unit {0}
IsDue now fired p = p ≡ some now
IsDue now (finished stored) p = Unit {0}

abbrev pub IsOnTime : ℕ → List (ℕ × Happening) → Snapshots → Type 0
IsOnTime now [] s = Unit {0}
IsOnTime now ((passed, h) ∷ hs) s =
    IsNotPast (now + passed) s.pending
    × IsDue (now + passed) h s.pending
    × IsOnTime (now + passed) hs (happen (now + passed) h s)

-- The queued write is due within 100 ms, and not overdue.
abbrev IsSoon : ℕ → Option ℕ → Type 0
IsSoon now none = Unit {0}
IsSoon now (some due) = (now ≤ due) × (due ≤ now + throttle_ms)

record IsTimely (now : ℕ) (s : Snapshots) : Type 0 where
  written : s.last_write ≤ now
  soon : IsSoon now s.pending

IsSoon-later :
    (now passed : ℕ) (p : Option ℕ)
    → IsNotPast (now + passed) p
    → IsSoon now p
    → IsSoon (now + passed) p
IsSoon-later now passed none on_time h = tt
IsSoon-later now passed (some due) on_time (_, h) = (on_time, omega (arith, h))

-- A write that waits: it is due within 100 ms, it was queued before or keeps 100 ms from the last
-- write, and its timer begins it and leaves nothing queued.
abbrev pub IsQueued : ℕ → Snapshots → Type 0
IsQueued now s =
    (d : ℕ) × ((schedule now s).pending ≡ some d)
    × (now ≤ d)
    × (d ≤ now + throttle_ms)
    × ((s.pending ≡ some d) ⊎ (d ≡ s.last_write + throttle_ms))
    × ((fire d (schedule now s)).started ≡ d ∷ s.started)
    × ((fire d (schedule now s)).pending ≡ none)

schedule-cases :
    (now : ℕ) (s : Snapshots)
    → IsTimely now s
    → ((schedule now s ≡ begin_write now s) × (s.last_write + throttle_ms ≤ now)) ⊎ IsQueued now s
unfolding schedule
schedule-cases now s h = elim (Bool-cases (leb throttle_ms (now - s.last_write))) [
  | inl cool ↦ inl (rw cool refl, ground (arith, cool, h.written))
  | inr hot ↦ inr (rw hot (queued s.pending refl h.soon hot))
]
  where
    queued :
        (p : Option ℕ)
        → s.pending ≡ p
        → IsSoon now p
        → leb throttle_ms (now - s.last_write) ≡ false
        → (d : ℕ) × ((queue (now + (throttle_ms - (now - s.last_write))) s.pending s).pending
            ≡ some d)
          × (now ≤ d)
          × (d ≤ now + throttle_ms)
          × ((s.pending ≡ some d) ⊎ (d ≡ s.last_write + throttle_ms))
          × ((fire d (queue (now + (throttle_ms - (now - s.last_write))) s.pending s)).started
              ≡ d ∷ s.started)
          × ((fire d (queue (now + (throttle_ms - (now - s.last_write))) s.pending s)).pending
              ≡ none)
    queued none e soon hot = rw e (
      now + (throttle_ms - (now - s.last_write)),
      refl,
      omega arith,
      omega arith,
      inr (ground (arith, hot, h.written)),
      refl,
      refl,
    )
    queued (some d) e (early, late) hot = rw e (d, refl, early, late, inl refl, refl, refl)

queue-last_write :
    (due : ℕ) (p : Option ℕ) (s : Snapshots) → (queue due p s).last_write ≡ s.last_write
queue-last_write due none s = refl
queue-last_write due (some d) s = refl

schedule-last_write : (now : ℕ) (s : Snapshots) → (schedule now s).last_write ≡ s.last_write
unfolding schedule
schedule-last_write now s = elim (Bool-cases (leb throttle_ms (now - s.last_write))) [
  | inl cool ↦ rw cool refl
  | inr hot ↦ rw hot (queue-last_write _ s.pending s)
]

schedule-IsTimely : (now : ℕ) (s : Snapshots) → IsTimely now s → IsTimely now (schedule now s)
schedule-IsTimely now s i = record {
  written = omega (arith, schedule-last_write now s, i.written);
  soon = elim (schedule-cases now s i) [
    | inl (e, _) ↦ subst (λ (y : Snapshots). IsSoon now y.pending) (sym e) i.soon
    | inr (d, e, early, late, _, _, _) ↦ subst (IsSoon now) (sym e) (early, late)
  ];
}

happen-IsTimely :
    (now : ℕ) (h : Happening) (s : Snapshots) → IsTimely now s → IsTimely now (happen now h s)
happen-IsTimely now scheduled s i = schedule-IsTimely now s i
happen-IsTimely now fired s i = record { written = i.written; soon = tt }
happen-IsTimely now (finished true) s i = record { written = omega arith; soon = i.soon }
happen-IsTimely now (finished false) s i = i

run-IsTimely :
    (now : ℕ) (hs : List (ℕ × Happening)) (s : Snapshots)
    → IsOnTime now hs s
    → IsTimely now s
    → IsTimely (run now hs s).0 (run now hs s).1
unfolding run
run-IsTimely now [] s on_time i = i
run-IsTimely now ((passed, h) ∷ hs) s (not_past, due, on_time) i =
    run-IsTimely (now + passed) hs (happen (now + passed) h s) on_time (
      happen-IsTimely (now + passed) h s (record {
        written = omega (arith, i.written);
        soon = IsSoon-later now passed s.pending not_past i.soon;
      }))

-- Whatever has happened since the boot, failed and late writes included, with timers that run when
-- they are due: a change of the book that is scheduled has a write begun at once, if 100 ms have
-- passed since the last write that came through; or else there is one queued, not overdue and due
-- within 100 ms. That one was queued before, or is due just 100 ms after the last write; and at that
-- time its timer begins a write and leaves nothing queued. Whether the write comes through is not
-- said.
pub schedule-soon :
    (hs : List (ℕ × Happening))
    → IsOnTime 0 hs at_boot
    → let now = (run 0 hs at_boot).0 in
      let s = (run 0 hs at_boot).1 in
      ((schedule now s ≡ begin_write now s) × (s.last_write + throttle_ms ≤ now)) ⊎ IsQueued now s
schedule-soon hs on_time =
    schedule-cases (run 0 hs at_boot).0 (run 0 hs at_boot).1
      (run-IsTimely 0 hs at_boot on_time (record { written = omega arith; soon = tt }))
