-- ===== src/Dedupe.antt =====
-- packages/observability/src/dedupe.ts: a worker's handler runs once for each event id.
pub mod Once
use orbit_exchange.Base.{ℕ, ◌≡◌, ◌≢◌, ◌<◌, ◌≤◌, ◌+◌, ◌*◌, Option, none, some, Bool, true, false}
use orbit_exchange.Base.Outcome.{Error, Result, ok, err}

-- A call of Redis answers, or Redis is out of reach.
pub data Reach : Type 0 where
  reached unreached : Reach

-- A key is a worker and an event id.
abbrev pub Key : Type 0
Key = ℕ × ℕ

-- The store behind `SET key 1 EX ttl NX` and `DEL`: whether a key is set at a time, and what the two
-- calls do to it. A key that is set expires at the time it is given; one that is not set does not
-- appear by itself; and the calls leave other keys alone.
pub record Redis (R : Type 0) : Type 0 where
  pub has : Key → ℕ → R → Bool
  pub set : Key → ℕ → R → R
  pub del : Key → R → R
  pub has-set :
      (k : Key) (expiry now : ℕ) (r : R) → now < expiry → has k now (set k expiry r) ≡ true
  pub has-del : (k : Key) (now : ℕ) (r : R) → has k now (del k r) ≡ false
  pub has-set_other :
      (j k : Key) (expiry now : ℕ) (r : R) → j ≢ k → has j now (set k expiry r) ≡ has j now r
  pub has-del_other : (j k : Key) (now : ℕ) (r : R) → j ≢ k → has j now (del k r) ≡ has j now r
  pub has-later :
      (k : Key) (now later : ℕ) (r : R) → now ≤ later → has k now r ≡ false → has k later r ≡ false

-- The store, and what the handler works on.
pub record World (R W : Type 0) : Type 0 where
  pub redis : R
  pub work : W

-- The handler's effect, and what it returns or throws.
abbrev pub Handler : Type 0 → Type 0 → Type 0
Handler W T = W → Result T × W

-- `null` is a message that was handled before.
abbrev pub returned : {T : Type 0} → Result T → Result (Option T)
returned (ok a) = ok (some a)
returned (err e) = err e

abbrev fail_open : {R W T : Type 0} → Handler W T → World R W → Result (Option T) × World R W
fail_open fn s = (returned (fn s.work).0, record s { work = (fn s.work).1 })

module _ {R : Type 0} (I : Redis R) where
  -- A throw releases the key, as far as Redis can be reached.
  abbrev release : {T : Type 0} → Reach → Key → Result T → R → R
  release back k (ok a) r = r
  release reached k (err e) r = I.del k r
  release unreached k (err e) r = r

  -- When a key that is set now, for a time to live in seconds, expires; the clock is in milliseconds.
  abbrev pub expiry : ℕ → ℕ → ℕ
  expiry now ttl_sec = now + ttl_sec * 1000

  module _ {W T : Type 0} where
    abbrev first_time : Reach → Key → ℕ → Handler W T → World R W → Result (Option T) × World R W
    first_time back k until fn s = (
      returned (fn s.work).0,
      record { redis = release back k (fn s.work).0 (I.set k until s.redis); work = (fn s.work).1 },
    )

    abbrev keyed : Bool → Reach → Key → ℕ → Handler W T → World R W → Result (Option T) × World R W
    keyed true back k until fn s = (ok none, s)
    keyed false back k until fn s = first_time back k until fn s

    abbrev acquire :
        Reach → Reach → Key → ℕ → ℕ → Handler W T → World R W → Result (Option T) × World R W
    acquire unreached back k ttl_sec now fn s = fail_open fn s
    acquire reached back k ttl_sec now fn s =
        keyed (I.has k now s.redis) back k (expiry now ttl_sec) fn s

    -- `withDedupe`: `there` and `back` say how its two calls of Redis go.
    unfoldable pub with_dedupe :
        Reach
        → Reach
        → Option ℕ
        → ℕ
        → ℕ
        → ℕ
        → Handler W T
        → World R W
        → Result (Option T) × World R W
    with_dedupe there back none worker ttl_sec now fn s = fail_open fn s
    with_dedupe there back (some event_id) worker ttl_sec now fn s =
        acquire there back (worker, event_id) ttl_sec now fn s
