-- ===== src/Schema.antt =====
-- The rows that the services keep in Postgres (apps/api/prisma/schema.prisma), and the tables.
-- A table is a list in the order of insertion; a unique column is looked up from the front.
pub mod Submits
use orbit_exchange.Base.{ℕ, suc, ◌*◌, Bool, Option, none, List, [], ◌∷◌, ◌++◌}
use orbit_exchange.Base.Int.{ℤ}
use orbit_exchange.Shared.{
  UserId, AssetId, MarketSymbol, OrderId, CommandId, OrderSide, OrderType, OrderStatus, MatchId,
  KafkaTopic, Payload,
}

-- `BP`: fee rates are basis points, and every wallet amount is counted in 1/10000 of a unit, so
-- that `amount.mul(rate)` is a whole number.
abbrev pub bp : ℕ
bp = 10000

-- `quantity` of the base asset, in wallet units.
abbrev pub base_amount : ℕ → ℕ
base_amount qty = bp * qty

-- `price.mul(quantity)` of the quote asset, in wallet units.
abbrev pub quote_amount : ℕ → ℕ → ℕ
quote_amount price qty = bp * (price * qty)

pub record User : Type 0 where
  pub id : UserId
  pub frozen : Bool
  pub email : ℕ
  pub password_hash : ℕ

pub record Wallet : Type 0 where
  pub user_id : UserId
  pub asset : AssetId
  pub balance : ℕ
  pub locked : ℕ

pub record Market : Type 0 where
  pub symbol : MarketSymbol
  pub base_asset : AssetId
  pub quote_asset : AssetId
  pub tick_size : ℕ
  pub step_size : ℕ
  pub min_notional : ℕ
  pub taker_fee_bp : ℕ
  pub maker_fee_bp : ℕ
  pub enabled : Bool

pub record Order : Type 0 where
  pub id : OrderId
  pub user_id : UserId
  pub symbol : MarketSymbol
  pub side : OrderSide
  pub type : OrderType
  pub price : Option ℕ
  pub quantity : ℕ
  pub leave_qty : ℤ
  pub filled_qty : ℤ
  pub status : OrderStatus
  pub command_id : Option CommandId

pub record Trade : Type 0 where
  pub id : ℕ
  pub sequence : ℕ
  pub symbol : MarketSymbol
  pub price : ℕ
  pub quantity : ℕ
  pub maker_order_id : OrderId
  pub taker_order_id : OrderId
  pub maker_side : OrderSide
  pub taker_side : OrderSide
  pub maker_user_id : UserId
  pub taker_user_id : UserId
  pub maker_fee : ℕ
  pub taker_fee : ℕ
  pub match_id : MatchId
  pub created_at : ℕ

pub record OutboxEvent : Type 0 where
  pub id : ℕ
  pub topic : KafkaTopic
  pub key : ℕ
  pub payload : Payload
  pub processed_at : Option ℕ
  pub attempts : ℕ
  pub last_error : Option ℕ

pub record Db : Type 0 where
  pub users : List User
  pub markets : List Market
  pub orders : List Order
  pub wallets : List Wallet
  pub trades : List Trade
  pub outbox : List OutboxEvent
  pub next_order_id : ℕ
  pub next_trade_id : ℕ
  pub next_event_id : ℕ

-- `OutboxPublisherService.publish`: a row of its own, in the caller's transaction.
unfoldable pub publish : KafkaTopic → ℕ → Payload → Db → Db
publish topic key payload db = record db {
  outbox = db.outbox ++ row ∷ [];
  next_event_id = suc db.next_event_id;
}
  where
    row : OutboxEvent
    row = record {
      id = db.next_event_id;
      topic = topic;
      key = key;
      payload = payload;
      processed_at = none;
      attempts = 0;
      last_error = none;
    }
