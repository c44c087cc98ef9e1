-- ===== src/Admin/AdminDlq.antt =====
-- `AdminDlqService.replay` and `.dismiss`: an operator resolves a message of the dead-letter queue.
use orbit_exchange.Base.{
  ℕ, ◌≡◌, ◌⊎◌, refl, sym, ◌∙◌, ap, List, [], ◌∷◌, ◌++◌, Option, none, some, if◌then◌else◌, ◌==◌,
  find_if, Bool-cases, Option-cases, eq_of_some, inl, inr, arith,
}
use orbit_exchange.Base.Outcome.{
  Error, Result, ok, err, Result-cases, ok-injective, err-injective, err≢ok, event_not_found,
  already_resolved, producer_not_ready,
}
use mathlib.Core.Path.{subst}
use orbit_exchange.Shared.{KafkaTopic}

pub data Resolution : Type 0 where
  replayed dismissed : Resolution

-- A row of DlqEvent; `worker` is none for 'unknown', and so is the error; `resolution` is set with `resolved_at` and `resolved_by`. The headers that
-- matter are the trace and the original key.
pub record DlqEvent : Type 0 where
  pub id : ℕ
  pub original_topic : KafkaTopic
  pub original_partition : ℕ
  pub original_offset : ℕ
  pub worker : Option ℕ
  pub last_error : Option Error
  pub attempt : ℕ
  pub replayed_from : Option ℕ
  pub original_key : Option ℕ
  pub traceparent : Option ℕ
  pub payload : ℕ
  pub resolved_at : Option ℕ
  pub resolution : Option Resolution
  pub resolved_by : Option ℕ

-- What a replay sends; none of the headers of the retry policy.
pub record Replayed : Type 0 where
  pub topic : KafkaTopic
  pub key : ℕ
  pub value : ℕ
  pub traceparent : Option ℕ
  pub replay_of : ℕ

pub record Dlq : Type 0 where
  pub rows : List DlqEvent
  pub sent : List Replayed

-- How a replay gets on: without a producer, with one whose `send` throws, with a message sent and an
-- UPDATE of its row that throws, or with both done.
pub data Producer : Type 0 where
  absent ready : Producer
  failing unmarked : Error → Producer

abbrev pub find_row : ℕ → List DlqEvent → Option DlqEvent
find_row id = find_if (λ r. r.id == id)

abbrev resolve_row : Resolution → ℕ → ℕ → DlqEvent → DlqEvent
resolve_row how by now r = record r {
  resolved_at = some now;
  resolution = some how;
  resolved_by = some by;
}

abbrev resolve : Resolution → ℕ → ℕ → ℕ → List DlqEvent → List DlqEvent
resolve how by now id [] = []
resolve how by now id (r ∷ rs) =
    (if r.id == id then resolve_row how by now r else r) ∷ resolve how by now id rs

abbrev pub key_of : Option ℕ → ℕ → ℕ
key_of none offset = offset
key_of (some k) offset = k

abbrev pub message_of : DlqEvent → Replayed
message_of r = record {
  topic = r.original_topic;
  key = key_of r.original_key r.original_offset;
  value = r.payload;
  traceparent = r.traceparent;
  replay_of = r.id;
}

-- `resolvedAt` guards both operations.
abbrev open_row : Option DlqEvent → Result DlqEvent
open_row none = err event_not_found
open_row (some r) = elim r.resolved_at [ none ↦ ok r | some _ ↦ err already_resolved ]

abbrev send_then_resolve : Producer → ℕ → ℕ → Result DlqEvent → Dlq → Result (Unit {0}) × Dlq
send_then_resolve p by now (err e) q = (err e, q)
send_then_resolve absent by now (ok r) q = (err producer_not_ready, q)
send_then_resolve (failing e) by now (ok r) q = (err e, q)
send_then_resolve (unmarked e) by now (ok r) q =
    (err e, record q { sent = q.sent ++ message_of r ∷ [] })
send_then_resolve ready by now (ok r) q = (
  ok tt,
  record { rows = resolve replayed by now r.id q.rows; sent = q.sent ++ message_of r ∷ [] },
)

unfoldable pub replay : Producer → ℕ → ℕ → ℕ → Dlq → Result (Unit {0}) × Dlq
replay p by now id q = send_then_resolve p by now (open_row (find_row id q.rows)) q

abbrev resolve_only : ℕ → ℕ → Result DlqEvent → Dlq → Result (Unit {0}) × Dlq
resolve_only by now (err e) q = (err e, q)
resolve_only by now (ok r) q = (ok tt, record q { rows = resolve dismissed by now r.id q.rows })

pub dismiss : ℕ → ℕ → ℕ → Dlq → Result (Unit {0}) × Dlq
dismiss by now id q = resolve_only by now (open_row (find_row id q.rows)) q

found_id : (id : ℕ) (rows : List DlqEvent) (r : DlqEvent) → find_row id rows ≡ some r → r.id ≡ id
found_id id [] r h = cc
found_id id (x ∷ rows) r h = ground (arith, found_id id rows r)

-- The row is found again, resolved.
find_row-resolve :
    (how : Resolution) (by now id : ℕ) (rows : List DlqEvent) (r : DlqEvent)
    → find_row id rows ≡ some r
    → find_row id (resolve how by now id rows) ≡ some (resolve_row how by now r)
find_row-resolve how by now id [] r h = cc
find_row-resolve how by now id (x ∷ rows) r h = elim (Bool-cases (x.id == id)) [
  | inl e ↦ rw (e, e) (ap (λ y. some (resolve_row how by now y)) (eq_of_some (rw e at h)))
  | inr e ↦ rw (e, e) (find_row-resolve how by now id rows r (rw e at h))
]

open_row-resolve :
    (how : Resolution) (by now id : ℕ) (rows : List DlqEvent) (r : DlqEvent)
    → find_row id rows ≡ some r
    → open_row (find_row id (resolve how by now r.id rows)) ≡ err already_resolved
open_row-resolve how by now id rows r h =
    let same : r.id ≡ id = found_id id rows r h in
    rw (same, find_row-resolve how by now id rows r h) refl

open_row-ok : (row : Option DlqEvent) (r : DlqEvent) → open_row row ≡ ok r → row ≡ some r
open_row-ok none r h = cc
open_row-ok (some x) r h = elim (Option-cases x.resolved_at) [
  | inl e ↦ ap some (ok-injective (rw e at h))
  | inr (t, e) ↦ absurd (err≢ok (rw e at h))
]

-- The queue after a replay of this row.
abbrev after_replay : ℕ → ℕ → DlqEvent → Dlq → Dlq
after_replay by now r q = record {
  rows = resolve replayed by now r.id q.rows;
  sent = q.sent ++ message_of r ∷ [];
}

send_then_resolve-ok :
    (p : Producer) (by now : ℕ) (r : DlqEvent) (q : Dlq)
    → (send_then_resolve p by now (ok r) q).0 ≡ ok tt
    → send_then_resolve p by now (ok r) q ≡ (ok tt, after_replay by now r q)
send_then_resolve-ok absent by now r q h = absurd (err≢ok h)
send_then_resolve-ok (failing e) by now r q h = absurd (err≢ok h)
send_then_resolve-ok (unmarked e) by now r q h = absurd (err≢ok h)
send_then_resolve-ok ready by now r q h = refl

replay-ok :
    (p : Producer) (by now id : ℕ) (q : Dlq)
    → (replay p by now id q).0 ≡ ok tt
    → (r : DlqEvent) × (find_row id q.rows ≡ some r)
      × (replay p by now id q ≡ (ok tt, after_replay by now r q))
unfolding replay
replay-ok p by now id q h = elim (Result-cases (open_row (find_row id q.rows))) [
  | inl (r, e) ↦ (
    r,
    open_row-ok (find_row id q.rows) r e,
    ap (λ o. send_then_resolve p by now o q) e
        ∙ send_then_resolve-ok p by now r q
            (subst (λ o. (send_then_resolve p by now o q).0 ≡ ok tt) e h),
  )
  | inr (x, e) ↦ absurd (err≢ok (subst (λ o. (send_then_resolve p by now o q).0 ≡ ok tt) e h))
]

-- Done for good: one message has gone out, and whoever replays or dismisses the row again is
-- refused.
abbrev pub IsDone : Dlq → Dlq → ℕ → Producer → ℕ → ℕ → Type 0
IsDone q q' id again by later =
    ((r : DlqEvent) × (find_row id q.rows ≡ some r) × (q'.sent ≡ q.sent ++ message_of r ∷ []))
    × (replay again by later id q' ≡ (err already_resolved, q'))
    × (dismiss by later id q' ≡ (err already_resolved, q'))

-- Sent by a replay whose UPDATE threw.
abbrev IsUnmarked : Dlq → Dlq → ℕ → Producer → Error → Type 0
IsUnmarked q q' id p e =
    (r : DlqEvent) × (find_row id q.rows ≡ some r)
    × (p ≡ unmarked e)
    × (q'.sent ≡ q.sent ++ message_of r ∷ [])

replay-IsDone :
    (p again : Producer) (by by' now later id : ℕ) (q : Dlq)
    → (replay p by now id q).0 ≡ ok tt
    → IsDone q (replay p by now id q).1 id again by' later
unfolding replay dismiss
replay-IsDone p again by by' now later id q h =
    let (r, found, did) = replay-ok p by now id q h in
    let left : (replay p by now id q).1 ≡ after_replay by now r q = ap (λ y. y.1) did in
    let refused = open_row-resolve replayed by now id q.rows r found in
    (
      (r, found, ap (λ y. y.sent) left),
      subst (λ y. replay again by' later id y ≡ (err already_resolved, y)) (sym left)
          (ap (λ o. send_then_resolve again by' later o (after_replay by now r q)) refused),
      subst (λ y. dismiss by' later id y ≡ (err already_resolved, y)) (sym left)
          (ap (λ o. resolve_only by' later o (after_replay by now r q)) refused),
    )

-- What a replay that throws has done.
abbrev pub IsLeft : Dlq → Dlq → ℕ → Producer → Error → Type 0
IsLeft q q' id p e = (q' ≡ q) ⊎ ((q'.rows ≡ q.rows) × IsUnmarked q q' id p e)

sent-err :
    (p : Producer) (by now id : ℕ) (r : DlqEvent) (q : Dlq) (e : Error)
    → find_row id q.rows ≡ some r
    → (send_then_resolve p by now (ok r) q).0 ≡ err e
    → IsLeft q (send_then_resolve p by now (ok r) q).1 id p e
sent-err absent by now id r q e found h = inl refl
sent-err (failing x) by now id r q e found h = inl refl
sent-err (unmarked x) by now id r q e found h =
    inr (refl, (r, found, ap unmarked (err-injective h), refl))
sent-err ready by now id r q e found h = absurd (err≢ok (sym h))

send_then_resolve-err :
    (p : Producer) (by now id : ℕ) (q : Dlq) (e : Error)
    → (send_then_resolve p by now (open_row (find_row id q.rows)) q).0 ≡ err e
    → IsLeft q (send_then_resolve p by now (open_row (find_row id q.rows)) q).1 id p e
send_then_resolve-err p by now id q e h = elim (Result-cases (open_row (find_row id q.rows))) [
  | inr (x, f) ↦ inl (ap (λ o. (send_then_resolve p by now o q).1) f)
  | inl (r, f) ↦
      let found = open_row-ok (find_row id q.rows) r f in
      subst (λ o. IsLeft q (send_then_resolve p by now o q).1 id p e) (sym f)
        (sent-err p by now id r q e found
          (subst (λ o. (send_then_resolve p by now o q).0 ≡ err e) f h))
]

-- A replay that returns has sent one message, to the row's original topic and without the headers of
-- the retry policy; and the row is resolved for good: to replay it or to dismiss it again is
-- refused, with nothing sent and nothing changed. A replay that throws has resolved nothing; it has
-- sent nothing either, unless the UPDATE after the message is what threw: then the message is out,
-- and the row is open.
pub replay-once :
    (p again : Producer) (by by' now later id : ℕ) (q : Dlq)
    → (((replay p by now id q).0 ≡ ok tt) × IsDone q (replay p by now id q).1 id again by' later)
      ⊎ ((e : Error) × ((replay p by now id q).0 ≡ err e)
          × IsLeft q (replay p by now id q).1 id p e)
unfolding replay
replay-once p again by by' now later id q = elim (Result-cases (replay p by now id q).0) [
  | inl (tt, h) ↦ inl (h, replay-IsDone p again by by' now later id q h)
  | inr (e, h) ↦ inr (e, h, send_then_resolve-err p by now id q e h)
]
