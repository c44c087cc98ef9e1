-- ===== src/Settler/Fill/Rows.antt =====
-- The settler's loop and its last write only edit the rows of orders.
use orbit_exchange.Base.{ℕ, ◌≡◌, refl, sym, ap, List, some, arith, eq_of_some, ◌∙◌}
use orbit_exchange.Base.Outcome.{ok}
use mathlib.Core.Path.{subst}
use orbit_exchange.Schema.{Order, Trade, Db}
use orbit_exchange.Schema.Submits.{submits}
use orbit_exchange.Engine.{EngineTrade}
use orbit_exchange.OrderTable.{find}
use orbit_exchange.OrderTable.Edits.{Edited, Edits-update, find-Edits}
use orbit_exchange.Settler.Work.{Work, statement-ok}
use orbit_exchange.OrderTable.{update_order}
use orbit_exchange.Settler.Settlement.{fill_maker, matched}
use orbit_exchange.Settler.Settlement.Rows.{settle_rows-Settled}
use orbit_exchange.Settler.Fill.{Taking, settle_trades, update_order_after_match}
use orbit_exchange.Settler.Fill.Trades.{Settles, Run, done, step, settle_trades-Run}
use orbit_exchange.Settler.Keeps.{Keeps, Keeps-refl, Keeps-trans, update_order-Keeps}

fill_maker-Edited : (n : ℕ) (o : Order) → Edited o (fill_maker n o)
fill_maker-Edited n o = record {
  same_id = refl;
  same_user = refl;
  same_symbol = refl;
  same_side = refl;
  same_type = refl;
  same_price = refl;
  same_quantity = refl;
  same_command = refl;
  balanced = λ b. ground (arith, b);
  live = λ l. ground arith;
}

pub matched-Edited :
    (n original : ℕ) (o : Order) → o.quantity ≡ original → Edited o (matched n original o)
matched-Edited n original o e = record {
  same_id = refl;
  same_user = refl;
  same_symbol = refl;
  same_side = refl;
  same_type = refl;
  same_price = refl;
  same_quantity = refl;
  same_command = refl;
  balanced = λ b. ground (arith, e);
  live = λ l. ground arith;
}

Settles-Keeps :
    {B : Type 0} (k : Taking) (t : EngineTrade) (row : Trade) (u w : Work B)
    → Settles k t row u w
    → Keeps u.db w.db
Settles-Keeps k t row u w s =
    let d = settle_rows-Settled k.m k.taker s.maker t row u.db w.db s.rows in
    record {
      edits =
          Edits-update s.maker.id (fill_maker t.trade_quantity) u.db.orders w.db.orders
            (λ o found. fill_maker-Edited t.trade_quantity o) d.filled;
      same_markets = d.same_markets;
      same_submits = ap submits d.same_outbox;
      same_next = d.same_next;
    }

Run-Keeps :
    {B : Type 0} (k : Taking) {ts : List EngineTrade} {rows : List Trade} {u w : Work B}
    → Run k ts rows u w
    → Keeps u.db w.db
Run-Keeps k (done w) = Keeps-refl w.db
Run-Keeps k (step {t = t} {row = row} {u = u} {v = v} s r) =
    Keeps-trans (Settles-Keeps k t row u v s) (Run-Keeps k r)

pub settle_trades-Keeps :
    {B : Type 0} (k : Taking) (ts : List EngineTrade) (rows : List Trade) (u w : Work B)
    → settle_trades k ts u ≡ (ok rows, w)
    → Keeps u.db w.db
settle_trades-Keeps k ts rows u w h = Run-Keeps k (settle_trades-Run k ts rows u w h)

-- The last write finds the taker's row with the quantity that it had.
pub update_order_after_match-Keeps :
    {B : Type 0} (k : Taking) (leave : ℕ) (db : Db) (u w : Work B) {t : Unit {0}}
    → find k.taker.id db.orders ≡ some k.taker
    → Keeps db u.db
    → update_order_after_match k.taker.id leave k.taker.quantity u ≡ (ok t, w)
    → Keeps u.db w.db
unfolding update_order_after_match
update_order_after_match-Keeps {B} k leave db u w found kept h =
    let (q, q_found, edited) =
      find-Edits k.taker.id db.orders u.db.orders k.taker kept.edits found in
    let f = matched leave k.taker.quantity in
    let (db', wrote, same) = statement-ok (update_order k.taker.id f) u h in
    subst (λ (y : Work B). Keeps u.db y.db) (sym same)
      (update_order-Keeps k.taker.id f u.db db'
        (λ o e. matched-Edited leave k.taker.quantity o (row_quantity q o q_found edited e)) wrote)
  where
    row_quantity :
        (q o : Order)
        → find k.taker.id u.db.orders ≡ some q
        → Edited k.taker q
        → find k.taker.id u.db.orders ≡ some o
        → o.quantity ≡ k.taker.quantity
    row_quantity q o fq e fo =
        subst (λ (r : Order). r.quantity ≡ k.taker.quantity) (eq_of_some (sym fq ∙ fo))
          e.same_quantity
