-- ===== src/Settler/Settlement.antt =====
-- The rows that one trade writes: the body of the loop of `SettlerService.settleTrades`, and
-- `creditWallet`'s callers.
pub mod Rows
pub mod Supply
pub mod Gap
use orbit_exchange.Base.{
  ℕ, suc, ◌+◌, ◌*◌, Bool, true, false, not, ◌&&◌, List, [], ◌∷◌, ◌++◌, Option, none, some, ◌==◌,
  if◌then◌else◌, leb,
}
use orbit_exchange.Base.Int.{ℤ, pos, ◌+ℤ◌, ◌-ℤ◌, sub_ℕ, is_positive}
use orbit_exchange.Base.Outcome.{
  Result, ok, err, ◌>>=◌, ◌>>◌, throw_if, unique_violation, type_error,
}
use orbit_exchange.Shared.{
  CommandId, MatchId, OrderSide, bid, ask, OrderType, limit, market, OrderStatus, opened, partial,
  filled,
}
use orbit_exchange.Schema.{Wallet, Market, Order, Trade, Db, bp, base_amount, quote_amount}
use orbit_exchange.Engine.{EngineTrade}
use orbit_exchange.Wallets.{Change, keep, decrement, credit}
use orbit_exchange.Wallets
use orbit_exchange.OrderTable

-- `amount.mul(new Decimal(1).sub(rate))`
abbrev pub net_of_fee : ℕ → ℕ → Change
net_of_fee amount fee_bp = record { inc = bp * amount; dec = fee_bp * amount }

-- A buyer who reserved at `limit_price` pays `price`, and has the difference back.
abbrev pub pay_reserved : Order → Market → ℕ → ℕ → ℕ → List Wallet → Result (List Wallet)
pay_reserved o m limit_price price qty =
    Wallets.update o.user_id m.quote_asset
      (record { inc = quote_amount limit_price qty; dec = quote_amount price qty })
      (decrement (quote_amount limit_price qty))

-- A market BID has nothing reserved, and pays from the balance.
abbrev pub pay_balance : Order → Market → ℕ → ℕ → List Wallet → Result (List Wallet)
pay_balance o m price qty =
    Wallets.update o.user_id m.quote_asset (decrement (quote_amount price qty)) keep

abbrev pub receive_base : Order → Market → ℕ → ℕ → List Wallet → Result (List Wallet)
receive_base o m fee_bp qty = credit o.user_id m.base_asset (net_of_fee qty fee_bp)

-- A seller gives what is locked, and is credited the price less the fee.
abbrev pub sell : Order → Market → ℕ → ℕ → ℕ → List Wallet → Result (List Wallet)
sell o m fee_bp price qty ws = do
  ws₁ ← Wallets.update o.user_id m.base_asset keep (decrement (base_amount qty)) ws
  credit o.user_id m.quote_asset (net_of_fee (price * qty) fee_bp) ws₁

abbrev pub buy_reserved : Order → Market → ℕ → ℕ → ℕ → ℕ → List Wallet → Result (List Wallet)
buy_reserved o m fee_bp limit_price price qty ws = do
  ws₁ ← pay_reserved o m limit_price price qty ws
  receive_base o m fee_bp qty ws₁

-- The maker's side, by its side and price; a BID without a price is a TypeError (`maker.price!`).
unfoldable pub settle_maker :
    Market → Order → OrderSide → Option ℕ → ℕ → ℕ → List Wallet → Result (List Wallet)
settle_maker m maker ask maker_price price qty ws = sell maker m m.maker_fee_bp price qty ws
settle_maker m maker bid none price qty ws = err type_error
settle_maker m maker bid (some p) price qty ws = buy_reserved maker m m.maker_fee_bp p price qty ws

-- The taker's side, by its side, type and price.
unfoldable pub settle_taker :
    Market → Order → OrderSide → OrderType → Option ℕ → ℕ → ℕ → List Wallet → Result (List Wallet)
settle_taker m taker bid limit (some p) price qty ws =
    buy_reserved taker m m.taker_fee_bp p price qty ws
settle_taker m taker bid limit none price qty ws = do
  ws₁ ← pay_balance taker m price qty ws
  receive_base taker m m.taker_fee_bp qty ws₁
settle_taker m taker bid market p price qty ws = do
  ws₁ ← pay_balance taker m price qty ws
  receive_base taker m m.taker_fee_bp qty ws₁
settle_taker m taker ask type p price qty ws = sell taker m m.taker_fee_bp price qty ws

-- `makerAfter`, and the status that goes with it.
abbrev pub fill_maker : ℕ → Order → Order
fill_maker qty o =
    let leave : ℤ = o.leave_qty -ℤ pos qty in
    record o {
      filled_qty = o.filled_qty +ℤ pos qty;
      leave_qty = leave;
      status = if is_positive leave then partial else filled;
    }

-- The status after a match: `leave <= 0 ? FILLED : filled > 0 ? PARTIAL : OPEN`.
abbrev pub status_after : ℕ → ℤ → OrderStatus
status_after leave filled_qty =
    if leb leave 0 then filled else if is_positive filled_qty then partial else opened

abbrev pub matched : ℕ → ℕ → Order → Order
matched leave original o = record o {
  filled_qty = sub_ℕ original leave;
  leave_qty = pos leave;
  status = status_after leave (sub_ℕ original leave);
}

-- The row of `tx.trade.create`; fees are `qty.mul(rate)`, in wallet units.
abbrev pub trade_row : Market → Order → Order → EngineTrade → MatchId → ℕ → ℕ → ℕ → Trade
trade_row m maker taker t match_id id seq now = record {
  id = id;
  sequence = seq;
  symbol = m.symbol;
  price = t.trade_price;
  quantity = t.trade_quantity;
  maker_order_id = maker.id;
  taker_order_id = taker.id;
  maker_side = maker.side;
  taker_side = taker.side;
  maker_user_id = maker.user_id;
  taker_user_id = taker.user_id;
  maker_fee = t.trade_quantity * m.maker_fee_bp;
  taker_fee = t.trade_quantity * m.taker_fee_bp;
  match_id = match_id;
  created_at = now;
}

abbrev pub same_match : MatchId → MatchId → Bool
same_match a b = a.command_id == b.command_id && a.match_idx == b.match_idx

-- The unique index on `matchId`.
unfoldable pub is_taken : MatchId → List Trade → Bool
is_taken i [] = false
is_taken i (t ∷ ts) = if same_match t.match_id i then true else is_taken i ts

-- What one trade does to the tables, once the maker has been found.
unfoldable pub settle_rows : Market → Order → Order → EngineTrade → Trade → Db → Result Db
settle_rows m taker maker t row db = do
  throw_if (is_taken row.match_id db.trades) unique_violation
  ws₁ ← settle_maker m maker maker.side maker.price t.trade_price t.trade_quantity db.wallets
  ws₂ ← settle_taker m taker taker.side taker.type taker.price t.trade_price t.trade_quantity ws₁
  os ← OrderTable.update maker.id (fill_maker t.trade_quantity) db.orders
  ok (record db {
    trades = db.trades ++ row ∷ [];
    wallets = ws₂;
    orders = os;
    next_trade_id = suc db.next_trade_id;
  })
