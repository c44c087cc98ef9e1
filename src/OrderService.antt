-- ===== src/OrderService.antt =====
-- apps/api/src/order: `OrderService`, the HTTP side of the order flow. A call that throws leaves
-- the database as it was, since its writes stand in one transaction.
pub mod Validation
pub mod Reservation
pub mod Commands
pub mod OpenOrders
use orbit_exchange.Base.{
  ℕ, suc, ◌*◌, ◌%◌, Bool, true, false, not, ◌&&◌, ◌||◌, List, [], ◌∷◌, ◌++◌, Option, none, some,
  ltb, leb, ◌==◌, if◌then◌else◌, find_if,
}
use orbit_exchange.Base.Int.{pos}
use orbit_exchange.Base.Outcome.{
  Error, Result, ok, err, ◌>>=◌, ◌>>◌, throw_if, or_throw, user_not_found, account_frozen,
  market_not_found, step_violation, price_required, tick_violation, below_min_notional,
  quantity_not_positive, order_not_found, order_not_active,
}
use orbit_exchange.Shared.{
  UserId, MarketSymbol, OrderId, CommandId, OrderSide, bid, ask, OrderType, limit, market, opened,
  order_commands, submit, cancel, command, OrderCommand, OrderSubmitCommand,
}
use orbit_exchange.Schema.{User, Wallet, Market, Order, Db, base_amount, quote_amount, publish}
use orbit_exchange.Wallets.{atomic_lock}
use orbit_exchange.OrderTable.{find, find_market, is_terminal}

-- The request body; its pipes admit only unsigned decimals.
pub record CreateOrderDto : Type 0 where
  pub symbol : MarketSymbol
  pub side : OrderSide
  pub type : OrderType
  pub price : Option ℕ
  pub quantity : ℕ

-- `x.mod(step).eq(0)`: the remainder by zero is NaN, which equals nothing.
abbrev pub is_multiple : ℕ → ℕ → Bool
is_multiple x step = not (step == 0) && x % step == 0

abbrev validate_price : CreateOrderDto → Market → OrderType → Result (Unit {0})
validate_price dto m limit = do
  p ← or_throw dto.price price_required
  throw_if (not (is_multiple p m.tick_size)) tick_violation
  throw_if (ltb (p * dto.quantity) m.min_notional) below_min_notional
validate_price dto m market = ok tt

unfoldable pub validate_tick_step : CreateOrderDto → Market → Result (Unit {0})
validate_tick_step dto m = do
  throw_if (not (is_multiple dto.quantity m.step_size)) step_violation
  validate_price dto m dto.type

-- `limitPrice`
abbrev pub limit_price : OrderType → Option ℕ → Option ℕ
limit_price limit price = price
limit_price market price = none

abbrev limit_price_not_positive : OrderType → Option ℕ → Bool
limit_price_not_positive limit none = true
limit_price_not_positive limit (some p) = leb p 0
limit_price_not_positive market price = false

-- A limit order reserves its price or its quantity, a market ASK its quantity; a market BID is
-- paid fill by fill.
unfoldable pub lock_reservation :
    UserId → Market → OrderSide → OrderType → ℕ → Option ℕ → List Wallet → Result (List Wallet)
lock_reservation u m ask type qty price ws = atomic_lock u m.base_asset (base_amount qty) ws
lock_reservation u m bid limit qty none ws = err price_required
lock_reservation u m bid limit qty (some p) ws = atomic_lock u m.quote_asset (quote_amount p qty) ws
lock_reservation u m bid market qty price ws = ok ws

-- The row of `tx.order.create`.
abbrev pub new_order : OrderId → UserId → CreateOrderDto → CommandId → Order
new_order id u dto command_id = record {
  id = id;
  user_id = u;
  symbol = dto.symbol;
  side = dto.side;
  type = dto.type;
  price = limit_price dto.type dto.price;
  quantity = dto.quantity;
  leave_qty = pos dto.quantity;
  filled_qty = pos 0;
  status = opened;
  command_id = some command_id;
}

-- The command that is sent for an order row.
abbrev pub submit_command : Order → CommandId → ℕ → OrderSubmitCommand
submit_command o command_id now = record {
  command_id = command_id;
  order_id = o.id;
  user_id = o.user_id;
  symbol = o.symbol;
  side = o.side;
  ord_type = o.type;
  price = o.price;
  quantity = o.quantity;
  ts = now;
}

-- What stands in the transaction, from the INSERT on.
abbrev create_order : UserId → CreateOrderDto → CommandId → ℕ → List Wallet → Db → Order × Db
create_order u dto command_id now ws db =
    let o = new_order db.next_order_id u dto command_id in
    let db' = record db {
      wallets = ws;
      orders = db.orders ++ o ∷ [];
      next_order_id = suc db.next_order_id;
    } in
    (o, publish order_commands dto.symbol (command (submit (submit_command o command_id now))) db')

-- `_submitInner`; `submit` adds metrics. `command_id` is the random UUID.
unfoldable pub submit_order : UserId → CreateOrderDto → CommandId → ℕ → Db → Result (Order × Db)
unfolding validate_tick_step lock_reservation publish
submit_order u dto command_id now db = do
  user ← or_throw (find_if (λ x. x.id == u) db.users) user_not_found
  throw_if user.frozen account_frozen
  m ← or_throw (find_market dto.symbol db.markets) market_not_found
  throw_if (not m.enabled) market_not_found
  validate_tick_step dto m
  throw_if (leb dto.quantity 0) quantity_not_positive
  throw_if (limit_price_not_positive dto.type dto.price) price_required
  ws ←
      lock_reservation u m dto.side dto.type dto.quantity (limit_price dto.type dto.price)
        db.wallets
  ok (create_order u dto command_id now ws db)

abbrev pub cancel_command : Order → UserId → CommandId → ℕ → OrderCommand
cancel_command o u command_id now =
    cancel (record {
      command_id = command_id;
      order_id = o.id;
      user_id = u;
      symbol = o.symbol;
      ts = now;
    })

-- `OrderService.cancel`: checks, and sends the command; the row changes when the matcher gets it.
unfoldable pub cancel_order : UserId → OrderId → CommandId → ℕ → Db → Result (Order × Db)
unfolding publish
cancel_order u id command_id now db = do
  o ← or_throw (find id db.orders) order_not_found
  throw_if (not (o.user_id == u)) order_not_found
  throw_if (is_terminal o.status) order_not_active
  ok (o, publish order_commands o.symbol (command (cancel_command o u command_id now)) db)
