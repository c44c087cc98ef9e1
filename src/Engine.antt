-- ===== src/Engine.antt =====
-- The package `orderbook-match-engine`: what apps/matcher calls of it. Its code is not part of the
-- repository, so a book and its operations are a parameter of the matcher.
use orbit_exchange.Base.{ℕ, Bool, List}
use orbit_exchange.Base.Int.{ℤ}
use orbit_exchange.Base.Outcome.{Result}
use orbit_exchange.Shared.{OrderId, OrderSide, Level}

-- The fields of a trade that the settler reads.
pub record EngineTrade : Type 0 where
  pub maker_order_id : OrderId
  pub trade_price : ℕ
  pub trade_quantity : ℕ

-- What `add` returns: the trades, and what is left of the order.
pub record Added : Type 0 where
  pub trades : List EngineTrade
  pub leave_quantity : ℕ

-- `add` and `cancel` mutate the book and may throw; what they leave behind then is theirs to say.
pub record Engine (B : Type 0) : Type 0 where
  -- `new Orderbook({ limit: 15 })`
  pub empty : B
  pub add : B → OrderId → OrderSide → ℕ → ℤ → B × Result Added
  -- `false` is an exception.
  pub cancel : B → OrderId → B × Bool
  -- `getOrderbook()`
  pub asks : B → List Level
  pub bids : B → List Level
