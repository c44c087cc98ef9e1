-- ===== src/Settler/Fill/Kept.antt =====
-- The locked amounts, the reservations and the supply over the trades of one command.
use orbit_exchange.Base.{ℕ, ◌+◌, ◌≡◌, ◌≢◌, refl, ◌∙◌, sym, ap, List, ◌∷◌, arith, sum_by, eq_of_some}
use mathlib.Core.Path.{subst}
use orbit_exchange.Schema.{Order, Trade}
use orbit_exchange.Engine.{EngineTrade}
use orbit_exchange.OrderTable.{find, update-put, find-update_ne}
use orbit_exchange.OrderTable.Reserved.{reserved}
use orbit_exchange.Shared.{opposite}
use orbit_exchange.Wallets.Supply.{supply}
use orbit_exchange.Settler.Settlement.Supply.{fee, supply-settle_rows}
use orbit_exchange.Wallets.Locked.{locked}
use orbit_exchange.Settler.Work.{Work}
use orbit_exchange.Settler.Settlement.{fill_maker}
use orbit_exchange.Settler.Settlement.Rows.{settle_rows-Settled}
use orbit_exchange.Settler.Settlement.Gap.{
  IsFillable, released-zero, IsPriceOf, released, released-add, gap-settle_rows,
}
use orbit_exchange.Settler.Fill.{Taking}
use orbit_exchange.Settler.Fill.Trades.{Settles, Fit, Run, done, step}

-- The quantity of the trades in all.
abbrev pub traded : List EngineTrade → ℕ
traded = sum_by (λ t. t.trade_quantity)

-- The two fees of a trade in an asset: the maker's, on the other side, and the taker's.
abbrev pub trade_fees : ℕ → Taking → Trade → ℕ
trade_fees x k t =
    fee x k.m (opposite k.taker.side) k.m.maker_fee_bp t.price t.quantity
    + fee x k.m k.taker.side k.m.taker_fee_bp t.price t.quantity

abbrev pub fees : ℕ → Taking → List Trade → ℕ
fees x k = sum_by (trade_fees x k)

-- Over trades of this quantity the makers' rows and wallets move together, the taker's wallet
-- releases its part of the reservation, only the fees leave the supply, and the taker's row is as
-- it was.
pub record Kept {B : Type 0} (v x : ℕ) (k : Taking) (qty fee : ℕ) (w w' : Work B) : Type 0 where
  pub gap :
      locked v x w'.db.wallets
        + released v x k.m k.taker qty
        + reserved w.db.markets v x w.db.orders
      ≡ locked v x w.db.wallets + reserved w'.db.markets v x w'.db.orders
  pub supplied : supply x w'.db.wallets + fee ≡ supply x w.db.wallets
  pub same_markets : w'.db.markets ≡ w.db.markets
  pub same_taker : find k.taker.id w'.db.orders ≡ find k.taker.id w.db.orders

module _ {B : Type 0} (v x : ℕ) (k : Taking) where
  -- Trades after trades.
  pub Kept-trans :
      {q r f g : ℕ} {a b c : Work B}
      → Kept v x k q f a b
      → Kept v x k r g b c
      → Kept v x k (q + r) (f + g) a c
  Kept-trans {q} {r} m n = record {
    gap = omega (arith, m.gap, n.gap, released-add v x k.m k.taker q r);
    supplied = omega (arith, m.supplied, n.supplied);
    same_markets = n.same_markets ∙ m.same_markets;
    same_taker = n.same_taker ∙ m.same_taker;
  }

  -- Only the database counts.
  pub Kept-db :
      {q f : ℕ} {a b : Work B} (c : Work B) → c.db ≡ b.db → Kept v x k q f a b → Kept v x k q f a c
  Kept-db {q} {f} {a} c e m =
      subst (λ d. Kept v x k q f a (record c { db = d })) (sym e)
        (record {
          gap = m.gap;
          supplied = m.supplied;
          same_markets = m.same_markets;
          same_taker = m.same_taker;
        })

  -- No trade at all.
  pub Kept-refl : {a : Work B} → Kept v x k 0 0 a a
  Kept-refl = record {
    gap = omega (arith, released-zero v x k.m k.taker);
    supplied = omega arith;
    same_markets = refl;
    same_taker = refl;
  }

  -- One trade, whose maker's row is the one that fits.
  Settles-Kept :
      (t : EngineTrade) (row : Trade) (u w : Work B) (s : Settles k t row u w)
      → IsPriceOf k.taker.type k.taker.price
      → IsFillable u.db.markets k.m s.maker t.trade_quantity
      → s.maker.side ≡ opposite k.taker.side
      → s.maker.id ≢ k.taker.id
      → Kept v x k t.trade_quantity (trade_fees x k row) u w
  Settles-Kept t row u w s priced fillable side other =
      let d = settle_rows-Settled k.m k.taker s.maker t row u.db w.db s.rows in
      let paid = supply-settle_rows x k.m k.taker s.maker t row u.db w.db side s.rows in
      record {
        gap = rw d.same_markets (
            gap-settle_rows v x k.m k.taker s.maker t row u.db w.db s.maker_found fillable priced
              s.rows);
        supplied = rw (s.price_is, s.quantity_is) (omega (arith, rw side at paid));
        same_markets = d.same_markets;
        same_taker =
            find-update_ne s.maker.id k.taker.id (fill_maker t.trade_quantity) u.db.orders
              w.db.orders (λ _. refl) other d.filled;
      }

  Settles-Fit :
      (t : EngineTrade) (ts : List EngineTrade) (row : Trade) (u w : Work B)
      → IsPriceOf k.taker.type k.taker.price
      → Fit k u.db.markets (t ∷ ts) u.db.orders
      → Settles k t row u w
      → Kept v x k t.trade_quantity (trade_fees x k row) u w × Fit k w.db.markets ts w.db.orders
  Settles-Fit t ts row u w priced (maker, found, fillable, side, other, fits) s =
      let same : maker ≡ s.maker =
        eq_of_some (sym found ∙ ap (λ i. find i u.db.orders) (sym s.maker_id) ∙ s.maker_found) in
      let d = settle_rows-Settled k.m k.taker s.maker t row u.db w.db s.rows in
      let os =
        update-put s.maker.id (fill_maker t.trade_quantity) u.db.orders w.db.orders d.filled in
      (
        Settles-Kept t row u w s priced
            (subst (λ o. IsFillable u.db.markets k.m o t.trade_quantity) same fillable)
            (subst (λ (o : Order). o.side ≡ opposite k.taker.side) same side)
            (subst (λ (o : Order). o.id ≢ k.taker.id) same other),
        rw (d.same_markets, os, ← same) fits,
      )

  -- All trades of a call.
  pub Run-Kept :
      {ts : List EngineTrade} {rows : List Trade} {u w : Work B}
      → IsPriceOf k.taker.type k.taker.price
      → Fit k u.db.markets ts u.db.orders
      → Run k ts rows u w
      → Kept v x k (traded ts) (fees x k rows) u w
  Run-Kept priced fits (done w) = Kept-refl
  Run-Kept {ts = t ∷ ts} priced fits (step {row = row} {u = u} {v = w} s r) =
      let (first, fits') = Settles-Fit t ts row u w priced fits s in
      Kept-trans first (Run-Kept priced fits' r)
