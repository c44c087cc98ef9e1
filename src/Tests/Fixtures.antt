-- ===== src/Tests/Fixtures.antt =====
-- A market with two users, an order in its table, and an engine that holds one order at a time.
use orbit_exchange.Base.{
  ℕ, ◌-◌, refl, ==-refl, true, false, List, [], ◌∷◌, Option, none, some, min, if◌then◌else◌, ◌==◌,
}
use orbit_exchange.Auth.{Crypto}
use orbit_exchange.Base.Int.{pos, pos_part}
use orbit_exchange.Base.Outcome.{Result, ok}
use orbit_exchange.Shared.{
  UserId, OrderId, OrderSide, bid, ask, Level, OrderType, limit, opened, OrderSubmitCommand,
  OrderCancelCommand, cancelled, OrderStatus,
}
use orbit_exchange.Schema.{User, Wallet, Market, Order, Db}
use orbit_exchange.Engine.{Engine, Added}
use orbit_exchange.MatchingEngine.{State}
use orbit_exchange.Settler.Events.{Draw}
use orbit_exchange.OrderService.{CreateOrderDto}

-- A resting order: its id, price and quantity.
abbrev pub Resting : Type 0
Resting = Option (OrderId × ℕ × ℕ)

abbrev add_to : Resting → OrderId → ℕ → ℕ → Resting × Result Added
add_to none id price qty =
    (some (id, price, qty), ok (record { trades = []; leave_quantity = qty }))
add_to (some (maker, at_price, left)) id price qty =
    let n = min left qty in
    (
      if left - n == 0 then none else some (maker, at_price, left - n),
      ok (record {
        trades = record { maker_order_id = maker; trade_price = at_price; trade_quantity = n } ∷ [];
        leave_quantity = qty - n;
      }),
    )

abbrev levels : Resting → List Level
levels none = []
levels (some (maker, at_price, left)) = record { price = at_price; quantity = left } ∷ []

abbrev pub one_order : Engine Resting
one_order = record {
  empty = none;
  add = λ b id side price qty. add_to b id price (pos_part qty);
  cancel = λ b id. (none, true);
  asks = levels;
  bids = levels;
}

-- Base asset 1, quote asset 2; fees of 10 and 20 basis points.
abbrev pub spot : Market
spot = record {
  symbol = 7;
  base_asset = 1;
  quote_asset = 2;
  tick_size = 1;
  step_size = 1;
  min_notional = 1;
  taker_fee_bp = 20;
  maker_fee_bp = 10;
  enabled = true;
}

abbrev user : ℕ → User
user id = record { id = id; frozen = false; email = id; password_hash = id }

abbrev wallet : ℕ → ℕ → ℕ → ℕ → Wallet
wallet user asset balance locked = record {
  user_id = user;
  asset = asset;
  balance = balance;
  locked = locked;
}

abbrev pub order : OrderId → ℕ → OrderSide → OrderType → Option ℕ → ℕ → OrderStatus → Order
order id user side type price qty status = record {
  id = id;
  user_id = user;
  symbol = 7;
  side = side;
  type = type;
  price = price;
  quantity = qty;
  leave_qty = pos qty;
  filled_qty = pos 0;
  status = status;
  command_id = some id;
}

-- User 10 sells 2 at 100; user 20 has sent a BID for 2 at 101.
abbrev pub sale : Order
sale = order 1 10 ask limit (some 100) 2 opened

abbrev pub purchase : Order
purchase = order 2 20 bid limit (some 101) 2 opened

abbrev pub db_of : List Order → List Wallet → Db
db_of orders wallets = record {
  users = user 10 ∷ user 20 ∷ [];
  markets = spot ∷ [];
  orders = orders;
  wallets = wallets;
  trades = [];
  outbox = [];
  next_order_id = 3;
  next_trade_id = 1;
  next_event_id = 1;
}

abbrev pub both_wallets : List Wallet
both_wallets = wallet 10 1 0 20000 ∷ wallet 20 2 0 2020000 ∷ []

abbrev pub db : Db
db = db_of (sale ∷ purchase ∷ []) both_wallets

abbrev pub ended : Db
ended = db_of (order 2 20 bid limit (some 101) 2 cancelled ∷ []) []

abbrev pub state_of : Db → Resting → State Resting
state_of d book = record { db = d; books = (7, book) ∷ []; local_seq = 0; orderbook_seq = 0 }

-- The sale rests in the book.
abbrev pub state : State Resting
state = state_of db (some (1, 100, 2))

abbrev pub submission : OrderSubmitCommand
submission = record {
  command_id = 2;
  order_id = 2;
  user_id = 20;
  symbol = 7;
  side = bid;
  ord_type = limit;
  price = some 101;
  quantity = 2;
  ts = 0;
}

abbrev pub cancellation : OrderCancelCommand
cancellation = record { command_id = 5; order_id = 2; user_id = 20; symbol = 7; ts = 0 }

abbrev pub draw : Draw
draw = record { order_event_id = 1; user_event_id = 2; orderbook_event_id = 3; now = 0 }

-- An order for the service: a BID for 2 at 101.
abbrev pub request : CreateOrderDto
request = record { symbol = 7; side = bid; type = limit; price = some 101; quantity = 2 }

abbrev pub funded : Db
funded = db_of (sale ∷ []) (wallet 10 1 0 20000 ∷ wallet 20 2 3000000 0 ∷ [])

-- Passwords that are their own hashes, and tokens that are what they say.
abbrev pub plain : Crypto (UserId × ℕ)
plain = record {
  hash = λ p. p;
  verify = λ h p. h == p;
  sign_access = λ payload. payload;
  sign_refresh = λ payload. payload;
  verify_refresh = λ payload. some payload;
  verify-hash = ==-refl;
  verify_refresh-sign_refresh = λ payload. refl;
}
