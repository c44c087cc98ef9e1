-- ===== src/Settler/Submit.antt =====
-- `SettlerService.settleSubmit`.
pub mod Limit
pub mod Moved
pub mod Rows
pub mod Again
use orbit_exchange.Base.{ℕ, List, Option, none, some}
use orbit_exchange.Base.Int.{ℤ}
use orbit_exchange.Base.Outcome.{Result, ok, err, or_throw, limit_missing_price, record_not_found}
use orbit_exchange.Shared.{MarketSymbol, OrderType, limit, market, OrderSubmitCommand}
use orbit_exchange.Schema.{Market, Order, Trade, Db}
use orbit_exchange.Engine.{Engine}
use orbit_exchange.OrderTable.{find}
use orbit_exchange.MatchingEngine.{State, get_engine, put_engine}
use orbit_exchange.Settler.Work.{Work, Action, proceed, pure, lift, ◌>>=◌, ◌>>◌}
use orbit_exchange.Settler.Fill.{Taking, settle_trades, update_order_after_match, persisted_row}
use orbit_exchange.Settler.Sweep.{book_add, execute_market_order}
use orbit_exchange.Settler.Events.{Draw, publish_submit_events}
use orbit_exchange.Settler.Guards.{to_settle}

module _ {B : Type 0} (E : Engine B) where
  -- A limit order with its price.
  pub settle_limit : Taking → ℕ → Action B (List Trade)
  settle_limit k price = do
    res ← book_add E k.taker.id k.taker.side price k.taker.leave_qty
    ts ← settle_trades k res.trades
    update_order_after_match k.taker.id res.leave_quantity k.taker.quantity
    pure ts

  -- `order.type === 'LIMIT'`, and the test that it has a price.
  unfoldable pub match_order : Taking → OrderType → Option ℕ → Action B (List Trade)
  unfolding settle_limit
  match_order k limit none = lift (err limit_missing_price)
  match_order k limit (some price) = settle_limit k price
  match_order k market price = execute_market_order E k

  -- The body of the transaction.
  unfoldable pub submit_body : Taking → MarketSymbol → Draw → Action B (Order × List Trade)
  unfolding match_order
  submit_body k symbol d = do
    ts ← match_order k k.taker.type k.taker.price
    persisted ← persisted_row k.taker.id
    publish_submit_events E persisted ts symbol d
    pure (persisted, ts)

  abbrev pub begin : MarketSymbol → State B → Work B
  begin symbol s = record {
    db = s.db;
    book = get_engine E symbol s.books;
    local_seq = s.local_seq;
    orderbook_seq = s.orderbook_seq;
    match_idx = 0;
  }

  abbrev keep_process : MarketSymbol → State B → Work B → State B
  keep_process symbol s w = record s {
    books = put_engine E symbol w.book s.books;
    local_seq = w.local_seq;
    orderbook_seq = w.orderbook_seq;
  }

  -- `$transaction`: a commit, or a rollback of the database alone.
  abbrev pub end : {A : Type 0} → MarketSymbol → State B → Result A × Work B → Result A × State B
  end symbol s (ok a, w) = (ok a, record (keep_process symbol s w) { db = w.db })
  end symbol s (err e, w) = (err e, keep_process symbol s w)

  abbrev settled : {A : Type 0} → Result A × State B → Result (Option A) × State B
  settled (ok a, s) = (ok (some a), s)
  settled (err e, s) = (err e, s)

  abbrev run_submit :
      OrderSubmitCommand
      → Draw
      → State B
      → Option (Market × Order)
      → Result (Option (Order × List Trade)) × State B
  run_submit cmd d s none = (ok none, s)
  run_submit cmd d s (some (m, o)) =
      let k : Taking = record { m = m; taker = o; command_id = cmd.command_id; now = d.now } in
      settled (end cmd.symbol s (submit_body k cmd.symbol d (begin cmd.symbol s)))

  -- `none` is `return null`, an error is an exception.
  unfoldable pub settle_submit :
      OrderSubmitCommand → Draw → State B → Result (Option (Order × List Trade)) × State B
  settle_submit cmd d s = run_submit cmd d s (to_settle cmd s.db)
