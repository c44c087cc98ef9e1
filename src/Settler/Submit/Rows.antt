-- ===== src/Settler/Submit/Rows.antt =====
-- A SUBMIT command only edits the rows of orders.
use orbit_exchange.Base.{ℕ, ◌≡◌, refl, sym, ◌∙◌, ap, List, Option, some, none, inl, inr, arith}
use orbit_exchange.Base.Outcome.{ok}
use mathlib.Core.Path.{subst}
use orbit_exchange.Shared.{MarketSymbol, OrderType, limit, market, OrderSubmitCommand}
use orbit_exchange.Schema.{Market, Order, Trade}
use orbit_exchange.Engine.{Engine}
use orbit_exchange.OrderTable.{find}
use orbit_exchange.MatchingEngine.{State}
use orbit_exchange.Settler.Work.{Work, Ended-cases, proceed-ok, pure-ok, pure}
use orbit_exchange.Settler.Fill.{Taking}
use orbit_exchange.Settler.Fill.Matched.{persisted_row-same}
use orbit_exchange.Settler.Fill.Rows.{settle_trades-Keeps, update_order_after_match-Keeps}
use orbit_exchange.Settler.Sweep.Rows.{execute_market_order-Keeps}
use orbit_exchange.Settler.Sweep.{book_add}
use orbit_exchange.Settler.Guards.Found.{to_settle-Found}
use orbit_exchange.Settler.Events.{Draw, publish_submit_events}
use orbit_exchange.Settler.Events.Commands.{publish_submit_events-Keeps}
use orbit_exchange.Settler.Guards.{to_settle}
use orbit_exchange.Settler.Keeps.{Keeps, Keeps-refl, Keeps-trans}
use orbit_exchange.Settler.Submit.{
  begin, settle_limit, match_order, submit_body, run_submit, settle_submit,
}

module _ {B : Type 0} (E : Engine B) where
  settle_limit-Keeps :
      (k : Taking) (price : ℕ) (rows : List Trade) (u w : Work B)
      → find k.taker.id u.db.orders ≡ some k.taker
      → settle_limit E k price u ≡ (ok rows, w)
      → Keeps u.db w.db
  unfolding settle_limit
  settle_limit-Keeps k price rows u w found h =
      let (added, w₁, add, h₁) =
        proceed-ok _ (book_add E k.taker.id k.taker.side price k.taker.leave_qty u) h in
      let (ts, w₂, settle, h₂) = proceed-ok _ _ h₁ in
      let (_, w₃, wrote, out) = proceed-ok _ _ h₂ in
      let same : u.db ≡ w₁.db = ap (λ r. r.1.db) add in
      let fills =
        subst (λ d. Keeps d w₂.db) (sym same)
          (settle_trades-Keeps k added.trades ts w₁ w₂ settle) in
      let write =
        update_order_after_match-Keeps k added.leave_quantity u.db w₂ w₃ found fills wrote in
      subst (λ (y : Work B). Keeps u.db y.db) (pure-ok out).1 (Keeps-trans fills write)

  match_order-Keeps :
      (k : Taking) (type : OrderType) (price : Option ℕ) (rows : List Trade) (u w : Work B)
      → find k.taker.id u.db.orders ≡ some k.taker
      → match_order E k type price u ≡ (ok rows, w)
      → Keeps u.db w.db
  unfolding match_order
  match_order-Keeps k limit none rows u w found h = ground arith
  match_order-Keeps k limit (some p) rows u w found h = settle_limit-Keeps k p rows u w found h
  match_order-Keeps k market price rows u w found h =
      execute_market_order-Keeps E k rows u w found h

  submit_body-Keeps :
      (k : Taking) (symbol : MarketSymbol) (d : Draw) (r : Order × List Trade) (u w : Work B)
      → find k.taker.id u.db.orders ≡ some k.taker
      → submit_body E k symbol d u ≡ (ok r, w)
      → Keeps u.db w.db
  unfolding submit_body
  submit_body-Keeps k symbol d r u w found h =
      let (ts, w₁, matched, h₁) = proceed-ok _ _ h in
      let (o, w₂, read, h₂) = proceed-ok _ _ h₁ in
      let (_, w₃, published, out) =
        proceed-ok (λ _. pure (o, ts)) (publish_submit_events E o ts symbol d w₂) h₂ in
      let w₂_is : w₁.db ≡ w₂.db =
        ap (λ (y : Work B). y.db) (sym (persisted_row-same k.taker.id w₁ w₂ read)) in
      let w_is : (publish_submit_events E o ts symbol d w₂).1.db ≡ w.db =
        ap (λ r. r.1.db) published ∙ ap (λ (y : Work B). y.db) (pure-ok out).1 in
      subst (Keeps u.db) w_is (
        Keeps-trans
          (subst (Keeps u.db) w₂_is
            (match_order-Keeps k k.taker.type k.taker.price ts u w₁ found matched))
          (publish_submit_events-Keeps E o ts symbol d w₂))

  run_submit-Keeps :
      (cmd : OrderSubmitCommand) (d : Draw) (s : State B) (found : Option (Market × Order))
      → ((m : Market) (o : Order) → found ≡ some (m, o) → find o.id s.db.orders ≡ some o)
      → Keeps s.db (run_submit E cmd d s found).1.db
  run_submit-Keeps cmd d s none there = Keeps-refl s.db
  run_submit-Keeps cmd d s (some (m, o)) there =
      let k : Taking = record { m = m; taker = o; command_id = cmd.command_id; now = d.now } in
      elim (Ended-cases (submit_body E k cmd.symbol d (begin E cmd.symbol s))) [
        | inl (r, w, e) ↦
            rw e (submit_body-Keeps k cmd.symbol d r (begin E cmd.symbol s) w (there m o refl) e)
        | inr (x, w, e) ↦ rw e (Keeps-refl s.db)
      ]

  -- Whatever the engine does and however the command ends, a SUBMIT command leaves every row of the
  -- Order table in its place, with its owner, market, side, type, price, quantity and command id;
  -- where what is filled and what is left made up the quantity they still do, and no row becomes
  -- REJECTED. It sends no command, and changes no market.
  pub settle_submit-Keeps :
      (cmd : OrderSubmitCommand) (d : Draw) (s : State B)
      → Keeps s.db (settle_submit E cmd d s).1.db
  unfolding settle_submit
  settle_submit-Keeps cmd d s =
      run_submit-Keeps cmd d s (to_settle cmd s.db)
        (λ m o e. (to_settle-Found cmd s.db m o e).found)
