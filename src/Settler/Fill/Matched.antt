-- ===== src/Settler/Fill/Matched.antt =====
-- The end of a match: `updateOrderAfterMatch` after the last trade.
use orbit_exchange.Base.{ℕ, ◌+◌, ◌≡◌, sym, ap, refl, ◌∙◌, some, Option-cases, inl, inr, true, arith}
use orbit_exchange.Base.Int.{pos_part}
use orbit_exchange.Base.Outcome.{ok, err≢ok, ok-injective}
use mathlib.Core.Path.{subst}
use orbit_exchange.Schema.{Order, Db}
use orbit_exchange.Ledger.{Moves}
use orbit_exchange.OrderTable.{
  find, find-update_self, find_market, is_active, update_order, update_order-ok, sum_by-update,
}
use orbit_exchange.OrderTable.Reserved.{reserves}
use orbit_exchange.Settler.Work.{Work, statement-ok}
use orbit_exchange.Settler.Settlement.{matched}
use orbit_exchange.Settler.Settlement.Gap.{IsPriceOf, reserves-matched}
use orbit_exchange.Settler.Fill.{Taking, update_order_after_match, persisted_row}
use orbit_exchange.Settler.Fill.Kept.{Kept}

-- The taker's row is in the table, active and on its market; a market order has no price.
pub record IsTaker (k : Taking) (db : Db) : Type 0 where
  pub found : find k.taker.id db.orders ≡ some k.taker
  pub active : is_active k.taker.status ≡ true
  pub on_market : find_market k.taker.symbol db.markets ≡ some k.m
  pub priced : IsPriceOf k.taker.type k.taker.price

-- The last write of a match settles the taker's row for all its trades.
pub matched-Moves :
    {B : Type 0} (v x qty leave original fee : ℕ) (k : Taking) (u w w' : Work B) {t : Unit {0}}
    → IsTaker k u.db
    → qty + leave ≡ pos_part k.taker.leave_qty
    → Kept v x k qty fee u w
    → update_order_after_match k.taker.id leave original w ≡ (ok t, w')
    → Moves v x fee u.db w'.db
unfolding update_order_after_match
matched-Moves {B} v x qty leave original fee k u w w' taker e kept h =
    let (db, wrote, same) = statement-ok (update_order k.taker.id (matched leave original)) w h in
    let (os, put, os_is) = update_order-ok k.taker.id (matched leave original) w.db db wrote in
    subst (λ (y : Work B). Moves v x fee u.db y.db) (sym same)
      (subst (λ (d : Db). Moves v x fee u.db d) os_is
        (record {
          gap = rw kept.same_markets (
              omega (
                arith,
                rw kept.same_markets at kept.gap,
                sum_by-update (reserves u.db.markets v x) k.taker.id (matched leave original)
                    w.db.orders os k.taker (kept.same_taker ∙ taker.found) put,
                reserves-matched u.db.markets v x k.m k.taker leave original qty taker.on_market
                    taker.active e,
              ));
          supplied = kept.supplied;
          same_markets = kept.same_markets;
        }))

-- The taker's row is then the one that was written.
pub matched-found :
    {B : Type 0} (leave original : ℕ) (k : Taking) (w w' : Work B) {t : Unit {0}}
    → find k.taker.id w.db.orders ≡ some k.taker
    → update_order_after_match k.taker.id leave original w ≡ (ok t, w')
    → find k.taker.id w'.db.orders ≡ some (matched leave original k.taker)
unfolding update_order_after_match
matched-found {B} leave original k w w' found h =
    let f = matched leave original in
    let (db, wrote, same) = statement-ok (update_order k.taker.id f) w h in
    let (os, put, os_is) = update_order-ok k.taker.id f w.db db wrote in
    subst (λ (y : Work B). find k.taker.id y.db.orders ≡ some (f k.taker)) (sym same)
      (subst (λ (d : Db). find k.taker.id d.orders ≡ some (f k.taker)) os_is
        (find-update_self k.taker.id f w.db.orders os k.taker (λ _. refl) found put))

pub persisted_row-same :
    {B : Type 0} (id : ℕ) (u w : Work B) {o : Order} → persisted_row id u ≡ (ok o, w) → w ≡ u
unfolding persisted_row
persisted_row-same id u w h = sym (ap (λ r. r.1) h)

pub persisted_row-found :
    {B : Type 0} (id : ℕ) (u w : Work B) {o : Order}
    → persisted_row id u ≡ (ok o, w)
    → find id u.db.orders ≡ some o
unfolding persisted_row
persisted_row-found id u w h = elim (Option-cases (find id u.db.orders)) [
  | inl e ↦ absurd (err≢ok (ap (λ r. r.0) (rw e at h)))
  | inr (p, e) ↦ e ∙ ap some (ok-injective (ap (λ r. r.0) (rw e at h)))
]
