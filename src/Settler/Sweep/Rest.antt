-- ===== src/Settler/Sweep/Rest.antt =====
-- The end of a market order that the book could not fill.
use orbit_exchange.Base.{ℕ, ◌≡◌, ◌==◌, refl, sym, Bool, some, none, true, false, if◌then◌else◌}
use orbit_exchange.Base.Outcome.{ok}
use mathlib.Core.Path.{subst}
use orbit_exchange.Shared.{OrderSide, bid, ask, cancelled, filled}
use orbit_exchange.Schema.{Order, base_amount}
use orbit_exchange.Engine.{Engine}
use orbit_exchange.OrderTable.{find, find_market, is_active, update_order}
use orbit_exchange.Ledger.{Moves}
use orbit_exchange.Ledger.Closing.{Refunds, update_wallet-Refunds, nothing-Refunds, closing-Moves}
use orbit_exchange.Wallets.{increment, decrement, update_wallet}
use orbit_exchange.Settler.Work.{Work, proceed-ok, statement-ok, statement, pure-ok}
use orbit_exchange.Settler.Settlement.{matched}
use orbit_exchange.Settler.Fill.{Taking}
use orbit_exchange.Settler.Sweep.{refund_rest, settle_rest, close_unfilled}

closed_status : (b : Bool) → is_active (if b then cancelled else filled) ≡ false
closed_status false = refl
closed_status true = refl

module _ {B : Type 0} (E : Engine B) (v x : ℕ) (k : Taking) where
  -- The taker's row when `remaining` of it is left.
  abbrev unfilled : ℕ → Order
  unfilled remaining = matched remaining k.taker.quantity k.taker

  -- A BID without a price reserves nothing; an ASK has its base back.
  refund_rest-Refunds :
      (side : OrderSide) (remaining : ℕ) (u w : Work B) {t : Unit {0}}
      → k.taker.side ≡ side
      → k.taker.price ≡ none
      → refund_rest E k side remaining u ≡ (ok t, w)
      → Refunds v x k.m (unfilled remaining) u.db w.db
  refund_rest-Refunds bid remaining u w es priceless h =
      subst (λ (y : Work B). Refunds v x k.m (unfilled remaining) u.db y.db) (pure-ok h).1
        (nothing-Refunds v x k.m (unfilled remaining) u.db (rw (es, priceless) refl))
  refund_rest-Refunds ask remaining u w es priceless h =
      let (db, wrote, same) =
        statement-ok
          (update_wallet k.taker.user_id k.m.base_asset (increment (base_amount remaining))
            (decrement (base_amount remaining)))
          u h in
      subst (λ (y : Work B). Refunds v x k.m (unfilled remaining) u.db y.db) (sym same)
        (update_wallet-Refunds v x k.m (unfilled remaining) k.m.base_asset (base_amount remaining)
          u.db db (rw es refl) (rw es refl) wrote)

  pub settle_rest-Moves :
      (remaining : ℕ) (u w : Work B) {t : Unit {0}}
      → find k.taker.id u.db.orders ≡ some (unfilled remaining)
      → is_active (unfilled remaining).status ≡ true
      → find_market k.taker.symbol u.db.markets ≡ some k.m
      → k.taker.price ≡ none
      → settle_rest E k remaining u ≡ (ok t, w)
      → Moves v x 0 u.db w.db
  settle_rest-Moves remaining u w found active on_market priceless h =
      let close = close_unfilled E k.taker.quantity remaining in
      let (_, w₁, refunded, h₁) =
        proceed-ok (λ _. statement (update_order k.taker.id close))
          (refund_rest E k k.taker.side remaining u) h in
      let (db₂, closed, same) = statement-ok (update_order k.taker.id close) w₁ h₁ in
      subst (λ (y : Work B). Moves v x 0 u.db y.db) (sym same)
        (closing-Moves v x k.m (unfilled remaining) close u.db w₁.db db₂ found active on_market
          (closed_status (k.taker.quantity == remaining))
          (refund_rest-Refunds k.taker.side remaining u w₁ refl priceless refunded) closed)
