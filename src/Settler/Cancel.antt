-- ===== src/Settler/Cancel.antt =====
-- `SettlerService.settleCancel`.
pub mod Moved
pub mod Again
pub mod Rows
use orbit_exchange.Base.{ℕ, Bool, true, false, List, Option, none, some}
use orbit_exchange.Base.Int.{ℤ, pos_part, is_positive}
use orbit_exchange.Base.Outcome.{Result, ok, err, or_throw, record_not_found}
use orbit_exchange.Shared.{MarketSymbol, OrderSide, bid, ask, OrderCancelCommand, cancelled}
use orbit_exchange.Schema.{Market, Order, Db, base_amount, quote_amount}
use orbit_exchange.Engine.{Engine}
use orbit_exchange.Wallets.{increment, decrement, update_wallet}
use orbit_exchange.OrderTable.{find, find_market, is_terminal, update_order}
use orbit_exchange.MatchingEngine.{State}
use orbit_exchange.Settler.Work.{Work, Action, proceed, pure, lift, statement, ◌>>=◌, ◌>>◌}
use orbit_exchange.Settler.Fill.{persisted_row}
use orbit_exchange.Settler.Sweep.{book_cancel}
use orbit_exchange.Settler.Submit.{begin, end}
use orbit_exchange.Settler.Events.{Draw, publish_cancel_events}

-- The refund of what is left, by side and price; a market BID has reserved nothing.
abbrev refund : Market → Order → OrderSide → Option ℕ → ℕ → Db → Result Db
refund m o bid (some p) leave =
    update_wallet o.user_id m.quote_asset (increment (quote_amount p leave))
      (decrement (quote_amount p leave))
refund m o bid none leave = λ db. ok db
refund m o ask p leave =
    update_wallet o.user_id m.base_asset (increment (base_amount leave))
      (decrement (base_amount leave))

-- `if (leaveQty.gt(0))`
unfoldable pub refund_left : Market → Order → Bool → Db → Result Db
refund_left m o true db = refund m o o.side o.price (pos_part o.leave_qty) db
refund_left m o false db = ok db

abbrev pub set_cancelled : Order → Order
set_cancelled o = record o { status = cancelled }

module _ {B : Type 0} (E : Engine B) where
  unfoldable pub cancel_body : Market → Order → Draw → Action B Order
  unfolding refund_left
  cancel_body m o d = do
    book_cancel E o.id
    statement (refund_left m o (is_positive o.leave_qty))
    statement (update_order o.id set_cancelled)
    persisted ← persisted_row o.id
    publish_cancel_events E persisted d
    pure persisted

  abbrev settled : Result Order × State B → Result (Option Order) × State B
  settled (ok o, s) = (ok (some o), s)
  settled (err e, s) = (err e, s)

  abbrev run_cancel : Order → Draw → State B → Option Market → Result (Option Order) × State B
  run_cancel o d s none = (ok none, s)
  run_cancel o d s (some m) = settled (end E o.symbol s (cancel_body m o d (begin E o.symbol s)))

  -- A terminal order is returned as it is.
  abbrev cancel_found : Order → Bool → Draw → State B → Result (Option Order) × State B
  cancel_found o true d s = (ok (some o), s)
  cancel_found o false d s = run_cancel o d s (find_market o.symbol s.db.markets)

  abbrev cancel_row : Option Order → Draw → State B → Result (Option Order) × State B
  cancel_row none d s = (ok none, s)
  cancel_row (some o) d s = cancel_found o (is_terminal o.status) d s

  -- `none` is `return null`, an error is an exception.
  unfoldable pub settle_cancel :
      OrderCancelCommand → Draw → State B → Result (Option Order) × State B
  settle_cancel cmd d s = cancel_row (find cmd.order_id s.db.orders) d s
