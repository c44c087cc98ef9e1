-- ===== src/MatchingEngine.antt =====
-- apps/matcher/src/matching: `MatchingEngineService`, the books in memory and their replay at boot.
pub mod Replay
use orbit_exchange.Base.{ℕ, Bool, List, [], ◌∷◌, Option, none, some, ◌==◌, if◌then◌else◌, ◌&&◌}
use orbit_exchange.Shared.{MarketSymbol, OrderType, limit, market}
use orbit_exchange.Schema.{Market, Order, Db}
use orbit_exchange.Engine.{Engine}
use orbit_exchange.OrderTable.{is_active}

abbrev pub Books : Type 0 → Type 0
Books B = List (MarketSymbol × B)

-- The matcher's process and the database.
pub record State (B : Type 0) : Type 0 where
  pub db : Db
  pub books : Books B
  pub local_seq : ℕ
  pub orderbook_seq : ℕ

module _ {B : Type 0} (E : Engine B) where
  -- `getEngine`, by way of `ensureBook`: the book of a market, a new one if it has none.
  unfoldable pub get_engine : MarketSymbol → Books B → B
  get_engine symbol [] = E.empty
  get_engine symbol ((s, b) ∷ bs) = if s == symbol then b else get_engine symbol bs

  -- The book of a market after it was changed.
  pub put_engine : MarketSymbol → B → Books B → Books B
  put_engine symbol b [] = (symbol, b) ∷ []
  put_engine symbol b ((s, c) ∷ bs) =
      if s == symbol then (s, b) ∷ bs else (s, c) ∷ put_engine symbol b bs

  abbrev pub is_limit : OrderType → Bool
  is_limit limit = Bool.true
  is_limit market = Bool.false

  -- One round of the replay; an exception of the engine is logged and passed over.
  abbrev pub replay_priced : Order → Option ℕ → Books B → Books B
  replay_priced o none bs = bs
  replay_priced o (some p) bs =
      put_engine o.symbol (E.add (get_engine o.symbol bs) o.id o.side p o.leave_qty).0 bs

  abbrev pub replay_order : Order → Books B → Books B
  replay_order o bs =
      if is_active o.status && is_limit o.type then replay_priced o o.price bs else bs

  -- `replayOpenOrders`: the rows come in the order of their ids, which is that of the table.
  pub replay_open_orders : List Order → Books B → Books B
  unfolding get_engine put_engine
  replay_open_orders [] bs = bs
  replay_open_orders (o ∷ os) bs = replay_open_orders os (replay_order o bs)

  -- `onModuleInit`'s `ensureBook` for each enabled market.
  pub ensure_books : List Market → Books B → Books B
  unfolding get_engine put_engine
  ensure_books [] bs = bs
  ensure_books (m ∷ ms) bs =
      let bs' = if m.enabled then put_engine m.symbol (get_engine m.symbol bs) bs else bs in
      ensure_books ms bs'

  -- A boot: empty books, filled from the database.
  unfoldable pub on_module_init : Db → State B
  unfolding ensure_books replay_open_orders
  on_module_init db = record {
    db = db;
    books = replay_open_orders db.orders (ensure_books db.markets []);
    local_seq = 0;
    orderbook_seq = 0;
  }
