-- ===== src/Settler/Events.antt =====
-- `publishSubmitEvents` and `publishCancelEvents` of SettlerService: outbox rows in the settling
-- transaction.
pub mod Rows
pub mod Commands
use orbit_exchange.Base.{ℕ, suc, ◌+◌, List, [], ◌∷◌, Option, none, some}
use orbit_exchange.Base.Outcome.{ok}
use orbit_exchange.Shared.{
  MarketSymbol, UserId, EventId, uuid, of_match, taker_of, maker_of, OrderEvent, OrderEventType,
  order_added, UserNotificationType, order_filled, trade_event, user_event, order_event,
  orderbook_event, TradeEvent, UserEvent, OrderbookEvent, OrderId, trades, orders, orderbook,
  user_events,
}
use orbit_exchange.Shared
use orbit_exchange.Schema.{Order, Trade, Db, publish}
use orbit_exchange.Engine.{Engine}
use orbit_exchange.Settler.Work.{Work, Action}

-- What the process draws while it publishes: the random UUIDs, and the time.
pub record Draw : Type 0 where
  pub order_event_id : ℕ
  pub user_event_id : ℕ
  pub orderbook_event_id : ℕ
  pub now : ℕ

abbrev order_evt : OrderEventType → Order → Draw → OrderEvent
order_evt type o d = record {
  type = type;
  event_id = uuid d.order_event_id;
  order_id = o.id;
  user_id = o.user_id;
  symbol = o.symbol;
  side = o.side;
  order_type = o.type;
  price = o.price;
  quantity = o.quantity;
  leave_qty = o.leave_qty;
  filled_qty = o.filled_qty;
  status = o.status;
  ts = d.now;
}

abbrev pub trade_evt : MarketSymbol → Trade → TradeEvent
trade_evt symbol t = record {
  event_id = of_match t.match_id;
  id = t.id;
  sequence = t.sequence;
  symbol = symbol;
  price = t.price;
  quantity = t.quantity;
  maker_order_id = t.maker_order_id;
  taker_order_id = t.taker_order_id;
  maker_user_id = t.maker_user_id;
  taker_user_id = t.taker_user_id;
  maker_side = t.maker_side;
  taker_side = t.taker_side;
  ts = t.created_at;
}

-- A notice of a fill, to the taker or to the maker.
abbrev pub fill_notice : EventId → UserId → OrderId → MarketSymbol → Trade → Draw → UserEvent
fill_notice event_id user order symbol t d = record {
  event_id = event_id;
  user_id = user;
  type = order_filled;
  order_id = order;
  symbol = symbol;
  price = some t.price;
  quantity = some t.quantity;
  ts = d.now;
}

abbrev pub taker_notif : MarketSymbol → Trade → Draw → UserEvent
taker_notif symbol t = fill_notice (taker_of t.match_id) t.taker_user_id t.taker_order_id symbol t

abbrev pub maker_notif : MarketSymbol → Trade → Draw → UserEvent
maker_notif symbol t = fill_notice (maker_of t.match_id) t.maker_user_id t.maker_order_id symbol t

-- The three rows of one trade.
pub publish_trade : MarketSymbol → Draw → Trade → Db → Db
unfolding publish
publish_trade symbol d t db =
    publish user_events t.maker_user_id (user_event (maker_notif symbol t d)) (
      publish user_events t.taker_user_id (user_event (taker_notif symbol t d))
        (publish trades symbol (trade_event (trade_evt symbol t)) db))

pub publish_trades : MarketSymbol → Draw → List Trade → Db → Db
publish_trades symbol d [] db = db
publish_trades symbol d (t ∷ ts) db = publish_trades symbol d ts (publish_trade symbol d t db)

module _ {B : Type 0} (E : Engine B) where
  abbrev orderbook_evt : MarketSymbol → Draw → ℕ → B → OrderbookEvent
  orderbook_evt symbol d seq book = record {
    event_id = uuid d.orderbook_event_id;
    symbol = symbol;
    seq = seq;
    asks = E.asks book;
    bids = E.bids book;
    ts = d.now;
  }

  -- The book as it stands, with `++orderbookSeq`.
  abbrev publish_book : MarketSymbol → Draw → Work B → Work B
  publish_book symbol d w =
      let seq = suc w.orderbook_seq in
      record w {
        orderbook_seq = seq;
        db = publish orderbook symbol (orderbook_event (orderbook_evt symbol d seq w.book)) w.db;
      }

  unfoldable pub publish_submit_events :
      Order → List Trade → MarketSymbol → Draw → Action B (Unit {0})
  unfolding publish publish_trade publish_trades
  publish_submit_events o ts symbol d w =
      let db₁ = publish orders symbol (order_event (order_evt order_added o d)) w.db in
      (ok tt, publish_book symbol d (record w { db = publish_trades symbol d ts db₁ }))

  abbrev cancel_notice : Order → Draw → UserEvent
  cancel_notice o d = record {
    event_id = uuid d.user_event_id;
    user_id = o.user_id;
    type = UserNotificationType.order_cancelled;
    order_id = o.id;
    symbol = o.symbol;
    price = none;
    quantity = none;
    ts = d.now;
  }

  unfoldable pub publish_cancel_events : Order → Draw → Action B (Unit {0})
  unfolding publish
  publish_cancel_events o d w =
      let evt = order_evt OrderEventType.order_cancelled o d in
      let db₁ = publish orders o.symbol (order_event evt) w.db in
      let db₂ = publish user_events o.user_id (user_event (cancel_notice o d)) db₁ in
      (ok tt, publish_book o.symbol d (record w { db = db₂ }))
