-- ===== src/Settler/Settlement/Rows.antt =====
-- A trade that settles has run each of its statements.
use orbit_exchange.Base.{◌≡◌, refl, ◌++◌, ◌∷◌, [], List, false}
use orbit_exchange.Base.Outcome.{ok, ok-injective, >>=-eq-ok, throw_if-then}
use orbit_exchange.Schema.{Wallet, Market, Order, Trade, Db}
use orbit_exchange.Engine.{EngineTrade}
use orbit_exchange.OrderTable
use orbit_exchange.Settler.Settlement.{
  settle_maker, settle_taker, settle_rows, fill_maker, is_taken,
}
use mathlib.Core.Path.{subst}

pub record Settled (m : Market) (taker maker : Order) (t : EngineTrade) (row : Trade) (db db' : Db)
    : Type 0 where
  pub ws : List Wallet
  pub unused : is_taken row.match_id db.trades ≡ false
  pub made :
      settle_maker m maker maker.side maker.price t.trade_price t.trade_quantity db.wallets ≡ ok ws
  pub took :
      settle_taker m taker taker.side taker.type taker.price t.trade_price t.trade_quantity ws
      ≡ ok db'.wallets
  pub filled : OrderTable.update maker.id (fill_maker t.trade_quantity) db.orders ≡ ok db'.orders
  pub same_markets : db'.markets ≡ db.markets
  pub same_next : db'.next_order_id ≡ db.next_order_id
  pub same_outbox : db'.outbox ≡ db.outbox
  pub recorded : db'.trades ≡ db.trades ++ row ∷ []

pub settle_rows-Settled :
    (m : Market) (taker maker : Order) (t : EngineTrade) (row : Trade) (db db' : Db)
    → settle_rows m taker maker t row db ≡ ok db'
    → Settled m taker maker t row db db'
unfolding settle_rows
settle_rows-Settled m taker maker t row db db' h =
    let (unused, h₀) = throw_if-then _ _ _ h in
    let (ws, made, h₁) = >>=-eq-ok _ _ h₀ in
    let (ws₂, took, h₂) = >>=-eq-ok _ _ h₁ in
    let (os, filled, h₃) = >>=-eq-ok _ _ h₂ in
    subst (Settled m taker maker t row db) (ok-injective h₃) (record {
      ws = ws;
      unused = unused;
      made = made;
      took = took;
      filled = filled;
      same_markets = refl;
      same_next = refl;
      same_outbox = refl;
      recorded = refl;
    })
