-- ===== src/Settler/Submit/Again.antt =====
-- A SUBMIT command that is delivered again.
use orbit_exchange.Base.{
  ◌≡◌, refl, sym, ◌∙◌, ap, List, true, none, some, eq_of_some, inl, inr, arith, Option-cases,
}
use orbit_exchange.Base.Outcome.{ok, ok-injective}
use mathlib.Core.Path.{subst}
use orbit_exchange.Shared.{MarketSymbol, OrderSubmitCommand}
use orbit_exchange.Schema.{Market, Order, Trade, Db}
use orbit_exchange.Engine.{Engine}
use orbit_exchange.OrderTable.{find, is_terminal}
use orbit_exchange.MatchingEngine.{State}
use orbit_exchange.Settler.Work.{Work, Ended-cases, proceed-ok, pure-ok, pure, ◌>>=◌, ◌>>◌}
use orbit_exchange.Settler.Events.{Draw, publish_submit_events}
use orbit_exchange.Settler.Events.Rows.{publish_submit_events-SameRows}
use orbit_exchange.Settler.Fill.{Taking, persisted_row}
use orbit_exchange.Settler.Fill.Matched.{persisted_row-same, persisted_row-found}
use orbit_exchange.Settler.Guards.{to_settle}
use orbit_exchange.Settler.Guards.Found.{to_settle-Found}
use orbit_exchange.Settler.Submit.{begin, match_order, submit_body, run_submit, settle_submit}
use orbit_exchange.Settler.Submit.Moved.{taking_of}

-- A command of a row that has ended is passed over.
to_settle-ended :
    (cmd : OrderSubmitCommand) (db : Db) (o : Order)
    → find cmd.order_id db.orders ≡ some o
    → is_terminal o.status ≡ true
    → to_settle cmd db ≡ none
unfolding to_settle
to_settle-ended cmd db o found ended = ground arith

module _ {B : Type 0} (E : Engine B) where
  -- The row that is returned is the one in the table.
  submit_body-found :
      (k : Taking) (symbol : MarketSymbol) (d : Draw) (u w : Work B) (row : Order)
      (rows : List Trade)
      → submit_body E k symbol d u ≡ (ok (row, rows), w)
      → find k.taker.id w.db.orders ≡ some row
  unfolding submit_body
  submit_body-found k symbol d u w row rows h =
      let rest = (λ (x : List Trade).
        persisted_row k.taker.id
        >>= (λ (p : Order). publish_submit_events E p x symbol d >> pure (p, x))) in
      let (ts, w₁, matched, h₁) =
        proceed-ok rest (match_order E k k.taker.type k.taker.price u) h in
      let (o, w₂, read, h₂) = proceed-ok _ _ h₁ in
      let (_, w₃, published, out) =
        proceed-ok (λ _. pure (o, ts)) (publish_submit_events E o ts symbol d w₂) h₂ in
      let there : find k.taker.id w₂.db.orders ≡ some o =
        ap (λ (y : Work B). find k.taker.id y.db.orders) (persisted_row-same k.taker.id w₁ w₂ read)
        ∙ persisted_row-found k.taker.id w₁ w₂ read in
      let w_is : w.db ≡ (publish_submit_events E o ts symbol d w₂).1.db =
        ap (λ (y : Work B). y.db) (sym (pure-ok out).1) ∙ ap (λ r. r.1.db) (sym published) in
      ap (λ (y : Db). find k.taker.id y.orders) w_is
      ∙ ap (find k.taker.id) (publish_submit_events-SameRows E o ts symbol d w₂).same_orders
      ∙ there
      ∙ ap some (ap (λ r. r.0) (pure-ok out).0)

  run_submit-found :
      (cmd : OrderSubmitCommand) (d : Draw) (s s' : State B) (m : Market) (o row : Order)
      (rows : List Trade)
      → run_submit E cmd d s (some (m, o)) ≡ (ok (some (row, rows)), s')
      → find o.id s'.db.orders ≡ some row
  run_submit-found cmd d s s' m o row rows h =
      elim (Ended-cases
        (submit_body E (taking_of E cmd d m o) cmd.symbol d (begin E cmd.symbol s))) [
          | inr (x, w, e) ↦ ground (arith, ap (λ r. r.0) (rw e at h))
          | inl ((p, ps), w, e) ↦
              let h' = rw e at h in
              let row_is : p ≡ row = ap (λ y. y.0) (eq_of_some (ok-injective (ap (λ r. r.0) h'))) in
              let db_is : w.db ≡ s'.db = ap (λ r. r.1.db) h' in
              ap (λ (y : Db). find o.id y.orders) (sym db_is)
              ∙ submit_body-found (taking_of E cmd d m o) cmd.symbol d (begin E cmd.symbol s) w p ps
                  e
              ∙ ap some row_is
        ]

  -- A SUBMIT command whose settlement has returned its order's row as ended (filled in full, or a
  -- market order that is closed), is passed over when it is delivered again: no table, book or
  -- counter changes, so that nothing is matched or paid twice.
  pub settle_submit-again :
      (cmd : OrderSubmitCommand) (d d' : Draw) (s s' : State B) (row : Order) (rows : List Trade)
      → settle_submit E cmd d s ≡ (ok (some (row, rows)), s')
      → is_terminal row.status ≡ true
      → settle_submit E cmd d' s' ≡ (ok none, s')
  unfolding settle_submit
  settle_submit-again cmd d d' s s' row rows h ended = elim (Option-cases (to_settle cmd s.db)) [
    | inl e ↦ ground (arith, ap (λ r. r.0) (rw e at h))
    | inr ((m, o), e) ↦
        let found = run_submit-found cmd d s s' m o row rows (rw e at h) in
        let same_id = (to_settle-Found cmd s.db m o e).same_id in
        rw
          (to_settle-ended cmd s'.db row (subst (λ i. find i s'.db.orders ≡ some row) same_id found)
            ended)
          refl
  ]
