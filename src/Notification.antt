-- ===== src/Notification.antt =====
-- apps/workers/src/notification: events of users go to SNS, behind the retry policy and the dedupe.
use orbit_exchange.Base.{
  ℕ, ◌≡◌, ◌<◌, ◌≤◌, ◌+◌, ◌*◌, refl, ◌∙◌, ap, Bool, true, false, List, [], ◌∷◌, ◌++◌, Option, none,
  some, Every,
}
use orbit_exchange.Base.Outcome.{Error, Result, ok, err}
use orbit_exchange.Shared.{UserEvent}
use orbit_exchange.Dedupe.{Redis, World, Handler, reached, with_dedupe}
use orbit_exchange.RetryPolicy.{RetryConfig, RetryContext, Memory, with_retry_policy}

-- One delivery of an event: the message as Kafka has it, what the process remembers of its offset,
-- the clock, what the retry policy's producer throws, and what SNS throws.
pub record Delivery : Type 0 where
  pub memory : Memory
  pub ctx : RetryContext
  pub now : ℕ
  pub publish_error : Option Error
  pub sns_error : Option Error

-- What SNS has been given.
abbrev pub Published : Type 0
Published = List UserEvent

abbrev publish : Option Error → UserEvent → Handler Published (Unit {0})
publish none ev sent = (ok tt, sent ++ ev ∷ [])
publish (some e) ev sent = (err e, sent)

-- `topicArn` is set or not; without it the worker only logs.
abbrev pub send : Bool → Option Error → UserEvent → Handler Published (Unit {0})
send true sns ev sent = publish sns ev sent
send false sns ev sent = (ok tt, sent)

-- The worker's number among the keys of the dedupe.
abbrev pub worker : ℕ
worker = 4

-- `DEDUPE_TTL_SEC`
abbrev pub dedupe_ttl_sec : ℕ
dedupe_ttl_sec = 3600

module _ {R : Type 0} (I : Redis R) (cfg : RetryConfig) (arn : Bool) where
  -- `eachMessage`, on an event with its id, while Redis answers: the outcome and the memory, the
  -- store and what SNS has.
  unfoldable pub notify :
      ℕ
      → UserEvent
      → Delivery
      → World R Published
      → (Result (Option (Option (Unit {0}))) × Memory) × World R Published
  notify id ev d w =
      let (out, w') =
        with_dedupe I reached reached (some id) worker dedupe_ttl_sec d.now
          (send arn d.sns_error ev) w in
      (with_retry_policy cfg d.ctx d.publish_error d.now out d.memory, w')

  -- One delivery after the other.
  pub notify_all : ℕ → UserEvent → List Delivery → World R Published → World R Published
  unfolding notify
  notify_all id ev [] w = w
  notify_all id ev (d ∷ ds) w = notify_all id ev ds (notify id ev d w).1

  -- SNS throws, at this time or later.
  abbrev pub IsFailing : ℕ → Delivery → Type 0
  IsFailing start d = (start ≤ d.now) × ((e : Error) × (d.sns_error ≡ some e))

  -- The event's key is not set, from this time on.
  abbrev IsOpen : ℕ → ℕ → R → Type 0
  IsOpen id start r = (t : ℕ) → start ≤ t → I.has (worker, id) t r ≡ false

  -- A failing delivery leaves the event open, and SNS has not got it.
  notify-failing :
      (id start : ℕ) (ev : UserEvent) (d : Delivery) (w : World R Published) (e : Error)
      → arn ≡ true
      → start ≤ d.now
      → d.sns_error ≡ some e
      → IsOpen id start w.redis
      → IsOpen id start (notify id ev d w).1.redis × ((notify id ev d w).1.work ≡ w.work)
  unfolding notify with_dedupe
  notify-failing id start ev d w e set late throws new =
      rw (set, throws, new d.now late)
        (
          λ t since.
              I.has-del (worker, id) t (I.set (worker, id) (d.now + dedupe_ttl_sec * 1000) w.redis),
          refl,
        )

  notify_all-failing :
      (id start : ℕ) (ev : UserEvent) (ds : List Delivery) (w : World R Published)
      → arn ≡ true
      → Every (IsFailing start) ds
      → IsOpen id start w.redis
      → IsOpen id start (notify_all id ev ds w).redis × ((notify_all id ev ds w).work ≡ w.work)
  unfolding notify_all
  notify_all-failing id start ev [] w set fail new = (new, refl)
  notify_all-failing id start ev (d ∷ ds) w set ((late, (e, throws)), fail) new =
      let (still, same) = notify-failing id start ev d w e set late throws new in
      let (last, kept) = notify_all-failing id start ev ds (notify id ev d w).1 set fail still in
      (last, kept ∙ same)

  -- The event's key is set, until this time.
  abbrev IsTaken : ℕ → ℕ → R → Type 0
  IsTaken id until r = (t : ℕ) → t < until → I.has (worker, id) t r ≡ true

  -- A delivery that succeeds.
  notify-sent :
      (id start : ℕ) (ev : UserEvent) (d : Delivery) (w : World R Published)
      → arn ≡ true
      → start ≤ d.now
      → d.sns_error ≡ none
      → IsOpen id start w.redis
      → IsTaken id (d.now + dedupe_ttl_sec * 1000) (notify id ev d w).1.redis
        × ((notify id ev d w).1.work ≡ w.work ++ ev ∷ [])
  unfolding notify with_dedupe
  notify-sent id start ev d w set late works new =
      rw (set, works, new d.now late)
        (λ t early. I.has-set (worker, id) (d.now + dedupe_ttl_sec * 1000) t w.redis early, refl)

  -- What is handled is passed over.
  notify_all-handled :
      (id until : ℕ) (ev : UserEvent) (ds : List Delivery) (w : World R Published)
      → IsTaken id until w.redis
      → Every (λ d. d.now < until) ds
      → notify_all id ev ds w ≡ w
  unfolding notify_all notify with_dedupe
  notify_all-handled id until ev [] w there early = refl
  notify_all-handled id until ev (d ∷ ds) w there (before, early) =
      rw (there d.now before) (notify_all-handled id until ev ds w there early)

  -- An event that is new to the worker is given to SNS exactly once by such deliveries: any number with SNS failing, then the one that first finds SNS working, which gives it,
  -- then any number, in whatever way, less than 3600 seconds after that one, when the key of the
  -- dedupe expires. A topic is configured, and Redis answers.
  pub notify_all-once :
      (id start : ℕ) (ev : UserEvent) (before after : List Delivery) (d : Delivery)
      (w : World R Published)
      → arn ≡ true
      → I.has (worker, id) start w.redis ≡ false
      → Every (IsFailing start) before
      → start ≤ d.now
      → d.sns_error ≡ none
      → Every (λ x. x.now < d.now + dedupe_ttl_sec * 1000) after
      → ((notify_all id ev before w).work ≡ w.work)
        × ((notify_all id ev (d ∷ after) (notify_all id ev before w)).work ≡ w.work ++ ev ∷ [])
  unfolding notify_all
  notify_all-once id start ev before after d w set new fail late works early =
      let (open_yet, same) =
        notify_all-failing id start ev before w set fail
          (λ t since. I.has-later (worker, id) start t w.redis since new) in
      let w₁ = notify_all id ev before w in
      let (there, sent) = notify-sent id start ev d w₁ set late works open_yet in
      (
        same,
        ap (λ (y : World R Published). y.work)
              (notify_all-handled id (d.now + dedupe_ttl_sec * 1000) ev after (notify id ev d w₁).1
                there early)
            ∙ sent
            ∙ ap (λ l. l ++ ev ∷ []) same,
      )
