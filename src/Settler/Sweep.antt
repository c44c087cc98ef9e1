-- ===== src/Settler/Sweep.antt =====
-- `executeMarketOrder` of SettlerService: a market order as a row of limit orders, level by level.
pub mod Levels
pub mod Rest
pub mod Moved
pub mod Rows
use orbit_exchange.Base.{
  ℕ, suc, ◌+◌, ◌-◌, ◌*◌, List, [], ◌∷◌, ◌++◌, min, if◌then◌else◌, leb, ltb, ◌==◌,
}
use orbit_exchange.Base.Int.{ℤ, pos}
use orbit_exchange.Base.Outcome.{Result}
use orbit_exchange.Shared.{OrderId, OrderSide, bid, ask, Level, filled, cancelled}
use orbit_exchange.Schema.{Market, Order, Trade, Db, base_amount}
use orbit_exchange.Engine.{Engine, Added}
use orbit_exchange.Wallets.{increment, decrement, update_wallet}
use orbit_exchange.OrderTable.{update_order}
use orbit_exchange.Settler.Work.{Work, Action, proceed, pure, ◌>>=◌, ◌>>◌, statement}
use orbit_exchange.Settler.Fill.{Taking, settle_trades, update_order_after_match}

-- `Number(order.id) * 1000 + 1_000_000_000`
abbrev pub base_sweep_id : OrderId → ℕ
base_sweep_id id = id * 1000 + 1_000_000_000

module _ {B : Type 0} (E : Engine B) where
  -- `book.add`: the book keeps what the engine left, whether it returned or threw.
  abbrev pub book_add : OrderId → OrderSide → ℕ → ℤ → Action B Added
  book_add id side price qty w =
      let (book, r) = E.add w.book id side price qty in (r, record w { book = book })

  -- `book.cancel` under a `try` that ignores the exception.
  abbrev pub book_cancel : OrderId → Action B (Unit {0})
  book_cancel id w = pure tt (record w { book = (E.cancel w.book id).0 })

  -- Cancels the rest of a sweep that was not filled in full.
  abbrev pub cancel_rest : OrderId → ℕ → Action B (Unit {0})
  cancel_rest id leave = if ltb 0 leave then book_cancel id else pure tt

  -- One level: what was settled.
  pub sweep_level : Taking → OrderId → ℕ → ℕ → Action B (List Trade)
  sweep_level k sweep_id price qty = do
    sweep ← book_add sweep_id k.taker.side price (pos qty)
    fills ← settle_trades k sweep.trades
    cancel_rest sweep_id sweep.leave_quantity
    pure fills

  -- The loop over the levels: the trades collected, and what remains of the quantity.
  pub sweep_levels : Taking → OrderId → List Level → ℕ → Action B (List Trade × ℕ)
  sweep_levels k sweep_id [] remaining = pure ([], remaining)
  sweep_levels k sweep_id (lvl ∷ levels) remaining =
      let qty = min lvl.quantity remaining in
      let rest = (do
        fills ← sweep_level k sweep_id lvl.price qty
        more ← sweep_levels k (suc sweep_id) levels (remaining - qty)
        pure (fills ++ more.0, more.1)) in
      if leb remaining 0 then pure ([], remaining) else rest

  -- `side === 'BID' ? snapshot.asks : snapshot.bids`
  abbrev pub levels_for : OrderSide → B → List Level
  levels_for bid book = E.asks book
  levels_for ask book = E.bids book

  -- An ASK has its unfilled base back.
  abbrev pub refund_rest : Taking → OrderSide → ℕ → Action B (Unit {0})
  refund_rest k bid remaining = pure tt
  refund_rest k ask remaining = statement (
      update_wallet k.taker.user_id k.m.base_asset (increment (base_amount remaining))
        (decrement (base_amount remaining)))

  -- `quantity.eq(remaining) ? 'CANCELLED' : 'FILLED'`
  abbrev pub close_unfilled : ℕ → ℕ → Order → Order
  close_unfilled quantity remaining o = record o {
    status = if quantity == remaining then cancelled else filled;
  }

  abbrev pub settle_rest : Taking → ℕ → Action B (Unit {0})
  settle_rest k remaining = do
    refund_rest k k.taker.side remaining
    statement (update_order k.taker.id (close_unfilled k.taker.quantity remaining))

  pub execute_market_order : Taking → Action B (List Trade)
  unfolding sweep_level sweep_levels
  execute_market_order k w =
      (do
        swept ←
            sweep_levels k (base_sweep_id k.taker.id) (levels_for k.taker.side w.book)
              k.taker.quantity
        update_order_after_match k.taker.id swept.1 k.taker.quantity
        if ltb 0 swept.1 then settle_rest k swept.1 else pure tt
        pure swept.0)
        w
