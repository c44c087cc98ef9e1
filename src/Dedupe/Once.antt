-- ===== src/Dedupe/Once.antt =====
-- A handled event is passed over until its key expires.
use orbit_exchange.Base.{
  ℕ, ◌≡◌, ◌≢◌, ◌<◌, ◌+◌, ◌*◌, ◌∙◌, refl, sym, ap, List, [], ◌∷◌, Option, none, some, true, Every,
  Bool-cases, Option-cases, inl, inr, arith,
}
use orbit_exchange.Base.Outcome.{Result, ok, err, Result-cases}
use mathlib.Core.Path.{subst}
use mathlib.Core.Bool.{true≢false}
use orbit_exchange.Dedupe.{
  Redis, Key, Reach, reached, unreached, World, Handler, expiry, release, first_time, keyed,
  acquire, with_dedupe,
}

-- A delivery to a worker.
pub record Delivery (W T : Type 0) : Type 0 where
  pub there : Reach
  pub back : Reach
  pub event_id : Option ℕ
  pub worker : ℕ
  pub ttl_sec : ℕ
  pub now : ℕ
  pub fn : Handler W T

module _ {R : Type 0} (I : Redis R) where
  abbrev pub deliver : {W T : Type 0} → Delivery W T → World R W → World R W
  deliver d s = (with_dedupe I d.there d.back d.event_id d.worker d.ttl_sec d.now d.fn s).1

  -- One delivery after the other.
  pub deliver_all : {W T : Type 0} → List (Delivery W T) → World R W → World R W
  unfolding with_dedupe
  deliver_all [] s = s
  deliver_all (d ∷ ds) s = deliver_all ds (deliver d s)

  -- The key is set until then.
  abbrev IsHeld : Key → ℕ → R → Type 0
  IsHeld k until r = (t : ℕ) → t < until → I.has k t r ≡ true

  set-IsHeld :
      (j k : Key) (until at : ℕ) (r : R) → j ≢ k → IsHeld j until r → IsHeld j until (I.set k at r)
  set-IsHeld j k until at r other h t early = rw (I.has-set_other j k at t r other) (h t early)

  release-IsHeld :
      {T : Type 0} (j k : Key) (until : ℕ) (back : Reach) (x : Result T) (r : R)
      → j ≢ k
      → IsHeld j until r
      → IsHeld j until (release I back k x r)
  release-IsHeld j k until back (ok a) r other h = h
  release-IsHeld j k until unreached (err e) r other h = h
  release-IsHeld j k until reached (err e) r other h =
      λ t early. rw (I.has-del_other j k t r other) (h t early)

  module _ {W T : Type 0} where
    -- Whatever is tried for a key, one that is held stays held.
    keyed-IsHeld :
        (j k : Key) (until at now : ℕ) (back : Reach) (fn : Handler W T) (s : World R W)
        → now < until
        → IsHeld j until s.redis
        → IsHeld j until (keyed I (I.has k now s.redis) back k at fn s).1.redis
    keyed-IsHeld j k until at now back fn s early h = elim (Bool-cases (I.has k now s.redis)) [
      | inl e ↦ rw e h
      | inr e ↦
          let other : j ≢ k =
            (λ f. true≢false (sym (subst (λ i. I.has i now s.redis ≡ true) f (h now early)) ∙ e)) in
          rw e (
            release-IsHeld j k until back (fn s.work).0 (I.set k at s.redis) other
              (set-IsHeld j k until at s.redis other h))
    ]

    deliver-IsHeld :
        (k : Key) (until : ℕ) (d : Delivery W T) (s : World R W)
        → d.now < until
        → IsHeld k until s.redis
        → IsHeld k until (deliver d s).redis
    unfolding with_dedupe
    deliver-IsHeld k until d s early h = elim (Option-cases d.event_id) [
      | inl e ↦ rw e h
      | inr (id, e) ↦ rw e (acquired d.there id)
    ]
      where
        acquired :
            (there : Reach) (id : ℕ)
            → IsHeld k until (acquire I there d.back (d.worker, id) d.ttl_sec d.now d.fn s).1.redis
        acquired unreached id = h
        acquired reached id =
            keyed-IsHeld k (d.worker, id) until (expiry I d.now d.ttl_sec) d.now d.back d.fn s early
              h

    deliver_all-IsHeld :
        (k : Key) (until : ℕ) (ds : List (Delivery W T)) (s : World R W)
        → Every (λ d. d.now < until) ds
        → IsHeld k until s.redis
        → IsHeld k until (deliver_all ds s).redis
    unfolding deliver_all
    deliver_all-IsHeld k until [] s early h = h
    deliver_all-IsHeld k until (d ∷ ds) s (before, early) h =
        deliver_all-IsHeld k until ds (deliver d s) early (deliver-IsHeld k until d s before h)

    first_time-IsHeld :
        (k : Key) (until : ℕ) (back : Reach) (fn : Handler W T) (s s' : World R W) (a : T)
        → first_time I back k until fn s ≡ (ok (some a), s')
        → IsHeld k until s'.redis
    first_time-IsHeld k until back fn s s' a h t early = elim (Result-cases (fn s.work).0) [
      | inl (b, e) ↦
          let kept : I.set k until s.redis ≡ s'.redis = ap (λ y. y.1.redis) (rw e at h) in
          rw (← kept) (I.has-set k until t s.redis early)
      | inr (x, e) ↦ ground (arith, ap (λ y. y.0) (rw e at h))
    ]

    -- An event that a worker has handled, Redis answering, is passed over for as long as its key
    -- lives: whatever is delivered in between, of this event or others and to this worker or others,
    -- with Redis answering or not, a further delivery that Redis answers returns `null` and has no
    -- effect, if all of this is before the key expires.
    pub with_dedupe-once :
        (id worker ttl_sec now ttl_sec' later : ℕ) (back again : Reach) (fn fn' : Handler W T)
        (s s' : World R W) (a : T) (between : List (Delivery W T))
        → with_dedupe I reached back (some id) worker ttl_sec now fn s ≡ (ok (some a), s')
        → Every (λ d. d.now < now + ttl_sec * 1000) between
        → later < now + ttl_sec * 1000
        → with_dedupe I reached again (some id) worker ttl_sec' later fn' (deliver_all between s')
          ≡ (ok none, deliver_all between s')
    unfolding with_dedupe
    with_dedupe-once id worker ttl_sec now ttl_sec' later back again fn fn' s s' a between h early
          last =
        elim (Bool-cases (I.has (worker, id) now s.redis)) [
          | inl there ↦ ground (arith, ap (λ y. y.0) (rw there at h))
          | inr fresh ↦
              let held =
                first_time-IsHeld (worker, id) (expiry I now ttl_sec) back fn s s' a
                  (rw fresh at h) in
              let still =
                deliver_all-IsHeld (worker, id) (expiry I now ttl_sec) between s' early held in
              rw (still later last) refl
        ]
