-- ===== src/Settler/Fill/Numbers.antt =====
-- The match ids of the trades of one command.
use orbit_exchange.Base.{ℕ, suc, ◌+◌, ◌≡◌, List, [], ◌∷◌, length, arith}
use orbit_exchange.Base.Outcome.{ok}
use mathlib.Core.Path.{subst}
use orbit_exchange.Shared.{CommandId}
use orbit_exchange.Schema.{Trade}
use orbit_exchange.Engine.{EngineTrade}
use orbit_exchange.Settler.Work.{Work}
use orbit_exchange.Settler.Fill.{Taking, settle_trades}
use orbit_exchange.Settler.Fill.Trades.{Run, done, step, settle_trades-Run}

-- The rows carry the command's id and the numbers from `n` on.
abbrev pub Numbered : CommandId → ℕ → List Trade → Type 0
Numbered c n [] = Unit {0}
Numbered c n (row ∷ rows) =
    (row.match_id ≡ record { command_id = c; match_idx = n }) × Numbered c (suc n) rows

-- The rows are the engine's trades, at their prices and quantities.
abbrev pub Recorded : List EngineTrade → List Trade → Type 0
Recorded [] [] = Unit {0}
Recorded [] (row ∷ rows) = ⊥
Recorded (t ∷ ts) [] = ⊥
Recorded (t ∷ ts) (row ∷ rows) =
    (row.price ≡ t.trade_price) × (row.quantity ≡ t.trade_quantity) × Recorded ts rows

Run-Numbered :
    {B : Type 0} (k : Taking) {ts : List EngineTrade} {rows : List Trade} {u w : Work B}
    → Run k ts rows u w
    → Numbered k.command_id u.match_idx rows
      × Recorded ts rows
      × (w.match_idx ≡ u.match_idx + length ts)
Run-Numbered k (done w) = (tt, tt, omega arith)
Run-Numbered k (step {ts = ts} {rows = rows} s r) =
    let (numbered, recorded, next) = Run-Numbered k r in
    (
      (s.numbered, subst (λ n. Numbered k.command_id n rows) s.next numbered),
      (s.price_is, s.quantity_is, recorded),
      omega (arith, next, s.next),
    )

-- A run of the loop that returns has a row for each trade of the engine, in its order, at its price
-- and quantity; the match ids carry the command's id and count on from the number that the command
-- has reached, also over the several runs of a sweep.
pub settle_trades-Numbered :
    {B : Type 0} (k : Taking) (ts : List EngineTrade) (rows : List Trade) (u w : Work B)
    → settle_trades k ts u ≡ (ok rows, w)
    → Numbered k.command_id u.match_idx rows
      × Recorded ts rows
      × (w.match_idx ≡ u.match_idx + length ts)
settle_trades-Numbered k ts rows u w h = Run-Numbered k (settle_trades-Run k ts rows u w h)
