-- ===== src/Settler/Fill/Trades.antt =====
-- What a run of `settleTrades` that returns has done, and what it needs of the engine's trades.
use orbit_exchange.Base.{suc, ◌≡◌, ◌≢◌, refl, ap, ◌∙◌, List, [], ◌∷◌, some, inl, inr, Option-cases}
use orbit_exchange.Base.Outcome.{ok, err≢ok}
use mathlib.Core.Path.{subst₂}
use orbit_exchange.Shared.{opposite}
use orbit_exchange.Schema.{Market, Order, Trade}
use orbit_exchange.Engine.{EngineTrade}
use orbit_exchange.OrderTable.{find, put, find-id}
use orbit_exchange.Settler.Work.{Work, proceed-ok, last_statement-ok, pure-ok}
use orbit_exchange.Settler.Settlement.{settle_rows, fill_maker}
use orbit_exchange.Settler.Settlement.Gap.{IsFillable}
use orbit_exchange.Settler.Fill.{Taking, row_of, counted, settle_found, settle_trade, settle_trades}

-- One trade that was settled: its maker's row was there, and its rows were written.
pub record Settles {B : Type 0} (k : Taking) (t : EngineTrade) (row : Trade) (w w' : Work B)
    : Type 0 where
  pub maker : Order
  pub maker_found : find maker.id w.db.orders ≡ some maker
  pub maker_id : maker.id ≡ t.maker_order_id
  pub rows : settle_rows k.m k.taker maker t row w.db ≡ ok w'.db
  pub numbered : row.match_id ≡ record { command_id = k.command_id; match_idx = w.match_idx }
  pub price_is : row.price ≡ t.trade_price
  pub quantity_is : row.quantity ≡ t.trade_quantity
  pub next : w'.match_idx ≡ suc w.match_idx

settle_found-Settles :
    {B : Type 0} (k : Taking) (t : EngineTrade) (maker : Order) (w w' : Work B) (row : Trade)
    → find t.maker_order_id w.db.orders ≡ some maker
    → settle_found k t maker w ≡ (ok row, w')
    → Settles k t row w w'
settle_found-Settles {B} k t maker w w' row e h =
    let (db, rows, row_is, w_is) =
      last_statement-ok (settle_rows k.m k.taker maker t (row_of k t maker w)) (row_of k t maker w)
        (counted w) h in
    let id_is = find-id _ _ maker e in
    subst₂ (λ (r : Trade) (u : Work B). Settles k t r w u) row_is w_is
      (record {
        maker = maker;
        maker_found = ap (λ i. find i w.db.orders) id_is ∙ e;
        maker_id = id_is;
        rows = rows;
        numbered = refl;
        price_is = refl;
        quantity_is = refl;
        next = refl;
      })

pub settle_trade-Settles :
    {B : Type 0} (k : Taking) (t : EngineTrade) (w w' : Work B) (row : Trade)
    → settle_trade k t w ≡ (ok row, w')
    → Settles k t row w w'
unfolding settle_trade
settle_trade-Settles k t w w' row h = elim (Option-cases (find t.maker_order_id w.db.orders)) [
  | inl e ↦ absurd (err≢ok (ap (λ r. r.0) (rw e at h)))
  | inr (maker, e) ↦ settle_found-Settles k t maker w w' row e (rw e at h)
]

-- The engine's trades fit the rows of the database, one after the other: each maker is an active
-- order of the other side on this market, not the taker, and has the quantity left.
abbrev pub Fit : Taking → List Market → List EngineTrade → List Order → Type 0
Fit k ms [] os = Unit {0}
Fit k ms (t ∷ ts) os =
    (maker : Order) × (find t.maker_order_id os ≡ some maker)
    × IsFillable ms k.m maker t.trade_quantity
    × (maker.side ≡ opposite k.taker.side)
    × (maker.id ≢ k.taker.id)
    × Fit k ms ts (put maker.id (fill_maker t.trade_quantity) os)

-- A run of the loop, trade by trade.
pub data Run {B : Type 0} (k : Taking)
    : List EngineTrade → List Trade → Work B → Work B → Type 0 where
  done : (w : Work B) → Run k [] [] w w
  step :
      {t : EngineTrade} {ts : List EngineTrade} {row : Trade} {rows : List Trade} {u v w : Work B}
      → Settles k t row u v
      → Run k ts rows v w
      → Run k (t ∷ ts) (row ∷ rows) u w

pub settle_trades-Run :
    {B : Type 0} (k : Taking) (ts : List EngineTrade) (rows : List Trade) (w w' : Work B)
    → settle_trades k ts w ≡ (ok rows, w')
    → Run k ts rows w w'
unfolding settle_trades
settle_trades-Run k [] rows w w' h =
    let (r, e) = pure-ok h in subst₂ (λ rs x. Run k [] rs w x) r e (done w)
settle_trades-Run k (t ∷ ts) rows w w' h =
    let (row, v, first, h₁) = proceed-ok _ _ h in
    let (more, u, rest, out) = proceed-ok _ _ h₁ in
    let (rows_are, w_is) = pure-ok out in
    subst₂ (λ rs x. Run k (t ∷ ts) rs w x) rows_are w_is
      (step (settle_trade-Settles k t w v row first) (settle_trades-Run k ts more v u rest))
