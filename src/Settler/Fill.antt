-- ===== src/Settler/Fill.antt =====
-- `settleTrades` and `updateOrderAfterMatch` of SettlerService.
pub mod Trades
pub mod Kept
pub mod Matched
pub mod Numbers
pub mod Rows
use orbit_exchange.Base.{ℕ, suc, ◌+◌, List, [], ◌∷◌, Option, none, some, if◌then◌else◌, leb}
use orbit_exchange.Base.Int.{ℤ, pos, sub_ℕ, is_positive}
use orbit_exchange.Base.Outcome.{Result, ok, err, or_throw, record_not_found}
use orbit_exchange.Shared.{OrderId, CommandId, MatchId, OrderStatus, opened, partial, filled}
use orbit_exchange.Schema.{Market, Order, Trade, Db}
use orbit_exchange.Engine.{EngineTrade}
use orbit_exchange.OrderTable.{find, update_order}
use orbit_exchange.Settler.Work.{Work, Action, proceed, pure, lift, ◌>>=◌, ◌>>◌, statement}
use orbit_exchange.Settler.Settlement.{trade_row, settle_rows, matched}

-- The command that is settled: its taker's row, its id, and the time.
pub record Taking : Type 0 where
  pub m : Market
  pub taker : Order
  pub command_id : CommandId
  pub now : ℕ

-- The trade's row: its match id counts the trades of the command.
abbrev pub row_of : {B : Type 0} → Taking → EngineTrade → Order → Work B → Trade
row_of k t maker w =
    let match_id : MatchId = record { command_id = k.command_id; match_idx = w.match_idx } in
    trade_row k.m maker k.taker t match_id w.db.next_trade_id (suc w.local_seq) k.now

-- `matchIdx++` and `++localSeq` come before the first write.
abbrev pub counted : {B : Type 0} → Work B → Work B
counted w = record w { local_seq = suc w.local_seq; match_idx = suc w.match_idx }

-- One trade with its maker's row.
abbrev pub settle_found : {B : Type 0} → Taking → EngineTrade → Order → Action B Trade
settle_found k t maker w =
    let row : Trade = row_of k t maker w in
    (do statement (settle_rows k.m k.taker maker t row); pure row) (counted w)

abbrev settle_maker_row : {B : Type 0} → Taking → EngineTrade → Option Order → Action B Trade
settle_maker_row k t none w = (err record_not_found, w)
settle_maker_row k t (some maker) w = settle_found k t maker w

unfoldable pub settle_trade : {B : Type 0} → Taking → EngineTrade → Action B Trade
settle_trade k t w = settle_maker_row k t (find t.maker_order_id w.db.orders) w

-- `settleTrades`: the first trade that throws ends the loop.
unfoldable pub settle_trades : {B : Type 0} → Taking → List EngineTrade → Action B (List Trade)
settle_trades k [] = pure []
settle_trades k (t ∷ ts) = do row ← settle_trade k t; rows ← settle_trades k ts; pure (row ∷ rows)

unfoldable pub update_order_after_match : {B : Type 0} → OrderId → ℕ → ℕ → Action B (Unit {0})
update_order_after_match id leave original = statement (update_order id (matched leave original))

-- `tx.order.findUnique`, of a row that has just been written.
unfoldable pub persisted_row : {B : Type 0} → OrderId → Action B Order
persisted_row id w = lift (or_throw (find id w.db.orders) record_not_found) w
