-- ===== src/Shared.antt =====
-- packages/shared/src: the vocabulary of the services, their topics, commands and events.
--
-- Identifiers that the code only compares (users, assets, market symbols, order and command ids)
-- are numbers. Prices and quantities are whole numbers of a scale fine enough for every value at
-- hand; see the header of Lib.antt.
use orbit_exchange.Base.{ℕ, Option, List}
use orbit_exchange.Base.Int.{ℤ}

abbrev pub UserId : Type 0
UserId = ℕ

abbrev pub AssetId : Type 0
AssetId = ℕ

abbrev pub MarketSymbol : Type 0
MarketSymbol = ℕ

abbrev pub OrderId : Type 0
OrderId = ℕ

abbrev pub CommandId : Type 0
CommandId = ℕ

pub data OrderSide : Type 0 where
  bid ask : OrderSide

abbrev pub opposite : OrderSide → OrderSide
opposite bid = ask
opposite ask = bid

pub data OrderType : Type 0 where
  limit market : OrderType

-- `opened` is 'OPEN'.
pub data OrderStatus : Type 0 where
  opened partial filled cancelled rejected : OrderStatus

pub data KafkaTopic : Type 0 where
  order_commands trades orders orderbook user_events retry_30s dlq : KafkaTopic

-- `${commandId}#${matchIdx}`
pub record MatchId : Type 0 where
  pub command_id : CommandId
  pub match_idx : ℕ

-- A random UUID, a trade's match id, or that with ":taker" or ":maker" behind it.
pub data EventId : Type 0 where
  uuid : ℕ → EventId
  of_match taker_of maker_of : MatchId → EventId

pub record OrderSubmitCommand : Type 0 where
  pub command_id : CommandId
  pub order_id : OrderId
  pub user_id : UserId
  pub symbol : MarketSymbol
  pub side : OrderSide
  pub ord_type : OrderType
  pub price : Option ℕ
  pub quantity : ℕ
  pub ts : ℕ

pub record OrderCancelCommand : Type 0 where
  pub command_id : CommandId
  pub order_id : OrderId
  pub user_id : UserId
  pub symbol : MarketSymbol
  pub ts : ℕ

pub data OrderCommand : Type 0 where
  submit : OrderSubmitCommand → OrderCommand
  cancel : OrderCancelCommand → OrderCommand

pub record TradeEvent : Type 0 where
  pub event_id : EventId
  pub id : ℕ
  pub sequence : ℕ
  pub symbol : MarketSymbol
  pub price : ℕ
  pub quantity : ℕ
  pub maker_order_id : OrderId
  pub taker_order_id : OrderId
  pub maker_user_id : UserId
  pub taker_user_id : UserId
  pub maker_side : OrderSide
  pub taker_side : OrderSide
  pub ts : ℕ

pub data OrderEventType : Type 0 where
  order_added order_updated order_cancelled : OrderEventType

pub record OrderEvent : Type 0 where
  pub type : OrderEventType
  pub event_id : EventId
  pub order_id : OrderId
  pub user_id : UserId
  pub symbol : MarketSymbol
  pub side : OrderSide
  pub order_type : OrderType
  pub price : Option ℕ
  pub quantity : ℕ
  pub leave_qty : ℤ
  pub filled_qty : ℤ
  pub status : OrderStatus
  pub ts : ℕ

-- A price level of a book.
pub record Level : Type 0 where
  pub price : ℕ
  pub quantity : ℕ

pub record OrderbookEvent : Type 0 where
  pub event_id : EventId
  pub symbol : MarketSymbol
  pub seq : ℕ
  pub asks : List Level
  pub bids : List Level
  pub ts : ℕ

pub data UserNotificationType : Type 0 where
  order_filled order_partially_filled order_cancelled order_rejected : UserNotificationType

-- The payload's fields that the matcher fills in.
pub record UserEvent : Type 0 where
  pub event_id : EventId
  pub user_id : UserId
  pub type : UserNotificationType
  pub order_id : OrderId
  pub symbol : MarketSymbol
  pub price : Option ℕ
  pub quantity : Option ℕ
  pub ts : ℕ

-- What an outbox row carries.
pub data Payload : Type 0 where
  command : OrderCommand → Payload
  order_event : OrderEvent → Payload
  trade_event : TradeEvent → Payload
  user_event : UserEvent → Payload
  orderbook_event : OrderbookEvent → Payload
