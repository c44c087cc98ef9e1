-- ===== src/Settler/Submit/Limit.antt =====
-- A limit order's match moves funds and reservations together.
use orbit_exchange.Base.{ℕ, ◌+◌, ◌≡◌, sym, ap, List}
use orbit_exchange.Base.Int.{pos_part}
use orbit_exchange.Base.Outcome.{ok}
use orbit_exchange.Schema.{Trade}
use orbit_exchange.Engine.{Engine, Added}
use orbit_exchange.Ledger.{Moves}
use orbit_exchange.Settler.Work.{Work, proceed-ok, pure-ok}
use orbit_exchange.Settler.Fill.{Taking, settle_trades}
use orbit_exchange.Settler.Fill.Trades.{Fit, settle_trades-Run}
use orbit_exchange.Settler.Fill.Kept.{traded, fees, Run-Kept}
use orbit_exchange.Settler.Fill.Matched.{IsTaker, matched-Moves}
use mathlib.Core.Path.{subst, subst₂}
use orbit_exchange.Settler.Submit.{settle_limit}

-- What the match of a limit order relies on: the trades that the book returns for it fit the
-- makers' rows in the table, and their quantities with what it leaves make up the quantity that was
-- given.
pub record IsLimitMatchable {B : Type 0} (E : Engine B) (k : Taking) (price : ℕ) (u : Work B)
    : Type 0 where
  pub fits :
      (added : Added)
      → (E.add u.book k.taker.id k.taker.side price k.taker.leave_qty).1 ≡ ok added
      → Fit k u.db.markets added.trades u.db.orders
        × (traded added.trades + added.leave_quantity ≡ pos_part k.taker.leave_qty)

module _ {B : Type 0} (E : Engine B) (v x : ℕ) (k : Taking) (price : ℕ) (u w : Work B) where
  pub settle_limit-Moves :
      (rows : List Trade)
      → IsTaker k u.db
      → IsLimitMatchable E k price u
      → settle_limit E k price u ≡ (ok rows, w)
      → Moves v x (fees x k rows) u.db w.db
  unfolding settle_limit
  settle_limit-Moves rows taker matchable h =
      let (added, w₁, add, h₁) = proceed-ok _ _ h in
      let (ts, w₂, settle, h₂) = proceed-ok _ _ h₁ in
      let (_, w₃, wrote, out) = proceed-ok _ _ h₂ in
      let (fits, whole) = matchable.fits added (ap (λ r. r.0) add) in
      let u' : Work B = record u {
        book = (E.add u.book k.taker.id k.taker.side price k.taker.leave_qty).0;
      } in
      let settle' : settle_trades k added.trades u' ≡ (ok ts, w₂) =
        subst (λ y. settle_trades k added.trades y ≡ (ok ts, w₂)) (sym (ap (λ r. r.1) add))
          settle in
      let run = settle_trades-Run k added.trades ts u' w₂ settle' in
      let kept = Run-Kept v x k taker.priced fits run in
      let moves =
        matched-Moves v x (traded added.trades) added.leave_quantity k.taker.quantity (fees x k ts)
          k u' w₂ w₃ taker whole kept wrote in
      subst₂ (λ rs (y : Work B). Moves v x (fees x k rs) u.db y.db) (pure-ok out).0 (pure-ok out).1
        moves
