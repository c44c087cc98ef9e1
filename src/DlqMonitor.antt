-- ===== src/DlqMonitor.antt =====
-- apps/workers/src/dlq-monitor: each message of the dead-letter queue becomes a row of DlqEvent.
use orbit_exchange.Base.{
  ℕ, ◌≡◌, refl, Bool, true, false, List, [], ◌∷◌, ◌++◌, Option, none, some, ◌==◌, ==-refl,
  Bool-cases, inl, inr, arith,
}
use orbit_exchange.Base.Outcome.{Error}
use orbit_exchange.Shared.{KafkaTopic}
use orbit_exchange.RetryPolicy.{Escalated}
use orbit_exchange.Admin.AdminDlq.{DlqEvent, Dlq, Replayed, find_row, key_of, ready, replay}

-- The headers that are read, as their writers set them: `x-orbit-original-topic` and so on.
pub record Headers : Type 0 where
  pub original_topic : Option KafkaTopic
  pub original_partition : Option ℕ
  pub original_offset : Option ℕ
  pub original_key : Option ℕ
  pub worker : Option ℕ
  pub last_error : Option Error
  pub attempt : Option ℕ
  pub replay_of : Option ℕ
  pub traceparent : Option ℕ

-- A message of the queue.
pub record Letter : Type 0 where
  pub topic : KafkaTopic
  pub partition : ℕ
  pub offset : ℕ
  pub value : Option ℕ
  pub headers : Headers

-- The headers of an escalation: those of the message, and over them the policy's own.
abbrev pub escalated_headers : Headers → ℕ → Escalated → Headers
escalated_headers hs worker x = record hs {
  original_topic = some x.original_topic;
  original_partition = some x.original_partition;
  original_offset = some x.original_offset;
  worker = some worker;
  last_error = some x.last_error;
  attempt = some x.attempt;
}

abbrev pub letter_of : Headers → ℕ → ℕ → ℕ → Escalated → Letter
letter_of hs worker partition offset x = record {
  topic = x.target;
  partition = partition;
  offset = offset;
  value = x.value;
  headers = escalated_headers hs worker x;
}

-- `a ?? b`
abbrev or_else {ℓ} : {A : Type ℓ} → Option A → A → A
or_else none b = b
or_else (some a) b = a

abbrev pub row_of : ℕ → Letter → ℕ → DlqEvent
row_of id l value = record {
  id = id;
  original_topic = or_else l.headers.original_topic l.topic;
  original_partition = or_else l.headers.original_partition l.partition;
  original_offset = or_else l.headers.original_offset l.offset;
  worker = l.headers.worker;
  last_error = l.headers.last_error;
  attempt = or_else l.headers.attempt 0;
  replayed_from = l.headers.replay_of;
  original_key = l.headers.original_key;
  traceparent = l.headers.traceparent;
  payload = value;
  resolved_at = none;
  resolution = none;
  resolved_by = none;
}

-- An INSERT that fails is logged and passed over.
abbrev insert : Bool → DlqEvent → List DlqEvent → List DlqEvent
insert true row rows = rows ++ row ∷ []
insert false row rows = rows

abbrev mirror : Bool → ℕ → Letter → Option ℕ → List DlqEvent → List DlqEvent
mirror inserted id l none rows = rows
mirror inserted id l (some value) rows = insert inserted (row_of id l value) rows

-- `id` is the number that the table draws.
unfoldable pub monitor : Bool → ℕ → Letter → List DlqEvent → List DlqEvent
monitor inserted id l rows = mirror inserted id l l.value rows

-- The headers of a replay.
abbrev pub replayed_headers : Replayed → Headers
replayed_headers m = record {
  original_topic = none;
  original_partition = none;
  original_offset = none;
  original_key = none;
  worker = none;
  last_error = none;
  attempt = none;
  replay_of = some m.replay_of;
  traceparent = m.traceparent;
}

find_row-append :
    (rows : List DlqEvent) (r : DlqEvent)
    → find_row r.id rows ≡ none
    → find_row r.id (rows ++ r ∷ []) ≡ some r
find_row-append [] r h = rw (==-refl r.id) refl
find_row-append (x ∷ rows) r h = elim (Bool-cases (x.id == r.id)) [
  | inl e ↦ ground (arith, rw e at h)
  | inr e ↦ rw e (find_row-append rows r (rw e at h))
]

abbrev pub replayed_of : ℕ → Headers → ℕ → Escalated → Replayed
replayed_of id hs value x = record {
  topic = x.original_topic;
  key = key_of hs.original_key x.original_offset;
  value = value;
  traceparent = hs.traceparent;
  replay_of = id;
}

find_row-monitor :
    (id value : ℕ) (l : Letter) (rows : List DlqEvent)
    → l.value ≡ some value
    → find_row id rows ≡ none
    → find_row id (monitor true id l rows) ≡ some (row_of id l value)
unfolding monitor
find_row-monitor id value l rows has fresh =
    rw (has, find_row-append rows (row_of id l value) fresh) refl

-- A message that a worker gives up, whose row is inserted under a new id and replayed, goes back to
-- its topic with its value and its trace; and if it is given up again, with any value, the row that
-- is inserted for it under a new id then names the row that it was replayed from.
pub replay-monitor :
    (hs : Headers) (worker partition offset id by now value : ℕ) (x : Escalated) (q : Dlq)
    (later offset' value' : ℕ) (again : Escalated) (rows : List DlqEvent)
    → x.value ≡ some value
    → find_row id q.rows ≡ none
    → again.value ≡ some value'
    → find_row later rows ≡ none
    → let l = letter_of hs worker partition offset x in
      let m = replayed_of id hs value x in
      let back = letter_of (replayed_headers m) worker partition offset' again in
      ((replay ready by now id (record q { rows = monitor true id l q.rows })).1.sent
        ≡ q.sent ++ m ∷ [])
      × (r : DlqEvent) × (find_row later (monitor true later back rows) ≡ some r)
      × (r.replayed_from ≡ some id)
      × (r.original_topic ≡ again.original_topic)
      × (r.payload ≡ value')
unfolding replay
replay-monitor hs worker partition offset id by now value x q later offset' value' again rows has
      fresh has' fresh' =
    let l = letter_of hs worker partition offset x in
    let back =
      letter_of (replayed_headers (replayed_of id hs value x)) worker partition offset' again in
    (
      rw (find_row-monitor id value l q.rows has fresh) refl,
      row_of later back value',
      find_row-monitor later value' back rows has' fresh',
      refl,
      refl,
      refl,
    )
