-- ===== src/AuditLogger.antt =====
-- apps/workers/src/audit-logger: batches of one partition go to S3, and then the consumer goes on.
-- This is one assignment of the partition: `commitOffsetsIfNecessary` commits nothing without
-- autoCommit and its thresholds, so that the position of the consumer is in memory only.
pub mod Archived
use orbit_exchange.Base.{
  ℕ, zero, suc, Bool, true, false, ◌&&◌, List, [], ◌∷◌, ◌++◌, Option, none, some, ◌==◌,
  if◌then◌else◌, length, take,
}

-- An object of the bucket: its key has the hour of the upload and the first offset, besides topic
-- and partition.
pub record Object : Type 0 where
  pub hour : ℕ
  pub first : ℕ
  pub lines : List ℕ

-- The messages of the partition, by their values, before and from the consumer's position on; and
-- the bucket. The offset of a message is its place.
pub record Logger : Type 0 where
  pub read : List (Option ℕ)
  pub unread : List (Option ℕ)
  pub bucket : List Object

-- `PutObjectCommand`: the last write of a key stands.
abbrev pub put_object : Object → List Object → List Object
put_object o [] = o ∷ []
put_object o (p ∷ ps) =
    if p.hour == o.hour && p.first == o.first then o ∷ ps else p ∷ put_object o ps

-- How the upload goes: `unacknowledged` is stored, but the worker hears of a failure.
pub data Put : Type 0 where
  acknowledged unacknowledged refused : Put

abbrev pub drop {ℓ} : {A : Type ℓ} → ℕ → List A → List A
drop zero xs = xs
drop (suc n) [] = []
drop (suc n) (x ∷ xs) = drop n xs

-- The values of the messages that have one.
abbrev pub lines_of : List (Option ℕ) → List ℕ
lines_of [] = []
lines_of (none ∷ ms) = lines_of ms
lines_of (some v ∷ ms) = v ∷ lines_of ms

-- The position behind a fetch whose handler has returned. The handler resolves the offsets that it
-- has seen, and then `eachBatchAutoResolve`, which is on by default, those of the whole fetch.
abbrev pub advance : ℕ → Logger → Logger
advance n s = record s { read = s.read ++ take n s.unread; unread = drop n s.unread }

abbrev upload : Put → Object → ℕ → Logger → Logger
upload acknowledged o fetched s = advance fetched (record s { bucket = put_object o s.bucket })
upload unacknowledged o fetched s = record s { bucket = put_object o s.bucket }
upload refused o fetched s = s

abbrev archive : ℕ → ℕ → Put → List ℕ → Logger → Logger
archive hour fetched put [] s = advance fetched s
archive hour fetched put (l ∷ ls) s =
    upload put (record { hour = hour; first = length s.read; lines = l ∷ ls }) fetched s

-- `eachBatch` on a fetch of so many messages, of which the loop has seen so many before it broke off:
-- the consumer stops, or its assignment is stale.
unfoldable pub each_batch : ℕ → ℕ → ℕ → Put → Logger → Logger
each_batch hour fetched seen put s =
    archive hour fetched put (lines_of (take seen (take fetched s.unread))) s

-- What happens to the partition: it is appended to, or a batch is handled.
pub data Happening : Type 0 where
  produced : Option ℕ → Happening
  batched : ℕ → ℕ → ℕ → Put → Happening

abbrev happen : Happening → Logger → Logger
happen (produced m) s = record s { unread = s.unread ++ m ∷ [] }
happen (batched hour fetched seen put) s = each_batch hour fetched seen put s

pub run : List Happening → Logger → Logger
unfolding each_batch
run [] s = s
run (h ∷ hs) s = run hs (happen h s)
