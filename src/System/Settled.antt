-- ===== src/System/Settled.antt =====
-- What the matcher does to a consistent database, and what comes in by sign-ups and adjustments.
use orbit_exchange.Base.{ℕ, ◌≡◌, sym, ◌∙◌, ap, some, false, Every-IsIn, IsIn, arith, eq_of_some}
use mathlib.Core.Path.{subst}
use mathlib.Core.Logic.{◌≢◌}
use orbit_exchange.Shared.{OrderSubmitCommand, OrderCancelCommand, OrderStatus, rejected}
use orbit_exchange.Schema.{Market, Order}
use orbit_exchange.Schema.Submits.{submits}
use orbit_exchange.Engine.{Engine}
use orbit_exchange.OrderTable.{find, find_market}
use orbit_exchange.OrderTable.Edits.{is_rejected}
use orbit_exchange.Ledger.{Moves, Moves-IsBacked}
use orbit_exchange.MatchingEngine.{State}
use orbit_exchange.Settler.Events.{Draw}
use orbit_exchange.Settler.Guards.{to_settle}
use orbit_exchange.Settler.Guards.Found.{to_settle-Found}
use orbit_exchange.Settler.Fill.Matched.{IsTaker}
use orbit_exchange.Settler.Submit.{settle_submit, begin}
use orbit_exchange.Settler.Submit.Moved.{IsSettleable, taking_of, charged_for, settle_submit-Moves}
use orbit_exchange.Settler.Submit.Rows.{settle_submit-Keeps}
use orbit_exchange.Settler.Cancel.{settle_cancel}
use orbit_exchange.Settler.Cancel.Moved.{settle_cancel-Moves}
use orbit_exchange.Settler.Cancel.Rows.{settle_cancel-Keeps}
use orbit_exchange.System.Consistent.{
  IsSent, IsConsistent, Keeps-IsConsistent, found-IsPlaced, active_unless,
}
use orbit_exchange.System.Steps.{IsCommandMatchable}

not_rejected : (t : OrderStatus) → is_rejected t ≡ false → t ≢ rejected
not_rejected t live = ground arith

module _ {B : Type 0} (E : Engine B) where
  -- A command that was sent finds its row as the order service wrote it, or edited since.
  sent-IsTaker :
      (c : OrderSubmitCommand) (d : Draw) (s : State B) (m : Market) (o : Order)
      → IsConsistent s.db
      → IsIn c (submits s.db.outbox)
      → to_settle c s.db ≡ some (m, o)
      → IsTaker (taking_of E c d m o) s.db
  sent-IsTaker c d s m o i there h =
      let f = to_settle-Found c s.db m o h in
      let sent = Every-IsIn (IsSent s.db.orders) c (submits s.db.outbox) i.sent there in
      let placed = found-IsPlaced s.db.next_order_id o.id s.db.orders o i.placed f.found in
      let row_is : sent.row ≡ o =
        eq_of_some (sym sent.found ∙ ap (λ n. find n s.db.orders) (sym f.same_id) ∙ f.found) in
      let symbol_is : o.symbol ≡ c.symbol =
        subst (λ (r : Order). r.symbol ≡ c.symbol) row_is sent.same_symbol in
      record {
        found = f.found;
        active = active_unless o.status f.live placed.live;
        on_market = ap (λ n. find_market n s.db.markets) symbol_is ∙ f.on_market;
        priced = placed.priced;
      }

  sent-IsSettleable :
      (c : OrderSubmitCommand) (d : Draw) (s : State B)
      → IsConsistent s.db
      → IsIn c (submits s.db.outbox)
      → IsCommandMatchable E c d s
      → (m : Market) (o : Order) → to_settle c s.db ≡ some (m, o)
      → IsSettleable E (taking_of E c d m o) (begin E c.symbol s)
  sent-IsSettleable c d s i there matchable m o h =
      (sent-IsTaker c d s m o i there h, matchable m o h)

  -- The money of a command that was sent.
  pub settled-Moves :
      (v x : ℕ) (c : OrderSubmitCommand) (d : Draw) (s : State B)
      → IsConsistent s.db
      → IsIn c (submits s.db.outbox)
      → IsCommandMatchable E c d s
      → Moves v x
          (charged_for E v x c d (to_settle c s.db) (settle_submit E c d s).0)
          s.db
          (settle_submit E c d s).1.db
  settled-Moves v x c d s i there matchable =
      settle_submit-Moves E v x c d s (sent-IsSettleable c d s i there matchable)

  pub closed-Moves :
      (v x : ℕ) (c : OrderCancelCommand) (d : Draw) (s : State B)
      → IsConsistent s.db
      → Moves v x 0 s.db (settle_cancel E c d s).1.db
  closed-Moves v x c d s i = settle_cancel-Moves E v x c d s (λ o found.
      not_rejected o.status
        (found-IsPlaced s.db.next_order_id c.order_id s.db.orders o i.placed found).live)

  pub settled-IsConsistent :
      (c : OrderSubmitCommand) (d : Draw) (s : State B)
      → IsConsistent s.db
      → IsIn c (submits s.db.outbox)
      → IsCommandMatchable E c d s
      → IsConsistent (settle_submit E c d s).1.db
  settled-IsConsistent c d s i there matchable =
      Keeps-IsConsistent s.db (settle_submit E c d s).1.db (settle_submit-Keeps E c d s)
        (Moves-IsBacked (λ x. charged_for E 0 x c d (to_settle c s.db) (settle_submit E c d s).0)
          (λ v x. settled-Moves v x c d s i there matchable) i.backed)
        i

  pub closed-IsConsistent :
      (c : OrderCancelCommand) (d : Draw) (s : State B)
      → IsConsistent s.db
      → IsConsistent (settle_cancel E c d s).1.db
  closed-IsConsistent c d s i =
      Keeps-IsConsistent s.db (settle_cancel E c d s).1.db (settle_cancel-Keeps E c d s)
        (Moves-IsBacked (λ _. 0) (λ v x. closed-Moves v x c d s i) i.backed) i
