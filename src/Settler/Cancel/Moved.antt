-- ===== src/Settler/Cancel/Moved.antt =====
-- A cancellation gives back what the order has reserved, on every path.
use orbit_exchange.Base.{
  ℕ, ◌≡◌, ◌≢◌, refl, sym, ◌∙◌, ap, Bool, true, false, Option, none, some, inl, inr, arith,
}
use orbit_exchange.Base.Int.{pos_part, is_positive}
use orbit_exchange.Base.Outcome.{ok, ok-injective}
use mathlib.Core.Path.{subst}
use orbit_exchange.Shared.{OrderSide, bid, ask, OrderStatus, rejected, OrderCancelCommand}
use orbit_exchange.Schema.{Market, Order, Db, base_amount, quote_amount}
use orbit_exchange.Engine.{Engine}
use orbit_exchange.OrderTable.{find, find-id, find_market, is_active, is_terminal, update_order}
use orbit_exchange.OrderTable.Reserved.{reserve-zero}
use orbit_exchange.Ledger.{Moves, Moves-refl}
use orbit_exchange.Ledger.Closing.{Refunds, update_wallet-Refunds, nothing-Refunds, closing-Moves}
use orbit_exchange.MatchingEngine.{State}
use orbit_exchange.Settler.Work.{
  Work, Ended-cases, proceed-ok, pure-ok, statement-ok, statement, pure,
}
use orbit_exchange.Settler.Submit.{begin}
use orbit_exchange.Settler.Events.{Draw, publish_cancel_events}
use orbit_exchange.Settler.Events.Rows.{Moves-SameRows, publish_cancel_events-SameRows}
use orbit_exchange.Settler.Fill.Matched.{persisted_row-same}
use orbit_exchange.Settler.Cancel.{
  refund, refund_left, set_cancelled, cancel_body, settle_cancel, cancel_found, run_cancel,
  cancel_row,
}

refund-Refunds :
    (v x : ℕ) (m : Market) (o : Order) (side : OrderSide) (p : Option ℕ) (db db' : Db)
    → o.side ≡ side
    → o.price ≡ p
    → refund m o side p (pos_part o.leave_qty) db ≡ ok db'
    → Refunds v x m o db db'
refund-Refunds v x m o bid (some p) db db' es ep h =
    update_wallet-Refunds v x m o m.quote_asset (quote_amount p (pos_part o.leave_qty)) db db'
      (rw es) (rw (es, ep)) h
refund-Refunds v x m o bid none db db' es ep h =
    subst (Refunds v x m o db) (ok-injective h) (nothing-Refunds v x m o db (rw (es, ep)))
refund-Refunds v x m o ask p db db' es ep h =
    update_wallet-Refunds v x m o m.base_asset (base_amount (pos_part o.leave_qty)) db db' (rw es)
      (rw es) h

-- The refund is what the order reserves, also when nothing is left of it.
pub refund_left-Refunds :
    (v x : ℕ) (m : Market) (o : Order) (b : Bool) (db db' : Db)
    → is_positive o.leave_qty ≡ b
    → refund_left m o b db ≡ ok db'
    → Refunds v x m o db db'
unfolding refund_left
refund_left-Refunds v x m o false db db' e h =
    let none_left : pos_part o.leave_qty ≡ 0 = ground arith in
    subst (Refunds v x m o db) (ok-injective h)
      (nothing-Refunds v x m o db (rw none_left (reserve-zero o.side o.price)))
refund_left-Refunds v x m o true db db' e h =
    refund-Refunds v x m o o.side o.price db db' refl refl h

active_of : (t : OrderStatus) → is_terminal t ≡ false → t ≢ rejected → is_active t ≡ true
active_of t e live = ground arith

module _ {B : Type 0} (E : Engine B) (v x : ℕ) where
  -- Publishing after the writes changes no money.
  cancel_body-Moves :
      (m : Market) (o p : Order) (d : Draw) (u w : Work B)
      → find o.id u.db.orders ≡ some o
      → is_active o.status ≡ true
      → find_market o.symbol u.db.markets ≡ some m
      → cancel_body E m o d u ≡ (ok p, w)
      → Moves v x 0 u.db w.db
  unfolding cancel_body
  cancel_body-Moves m o p d u w found active on_market h =
      let w₁ : Work B = record u { book = (E.cancel u.book o.id).0 } in
      let (_, w₂, refunded, h₂) =
        proceed-ok _ (statement (refund_left m o (is_positive o.leave_qty)) w₁) h in
      let (_, w₃, closed, h₃) = proceed-ok _ _ h₂ in
      let (row, w₄, read, h₄) = proceed-ok _ _ h₃ in
      let (_, w₅, published, out) =
        proceed-ok (λ _. pure row) (publish_cancel_events E row d w₄) h₄ in
      let (db₂, refund_ok, w₂_is) =
        statement-ok (refund_left m o (is_positive o.leave_qty)) w₁ refunded in
      let (db₃, update_ok, w₃_is) = statement-ok (update_order o.id set_cancelled) w₂ closed in
      let db₂_is : w₂.db ≡ db₂ = ap (λ (y : Work B). y.db) w₂_is in
      let refunds = refund_left-Refunds v x m o _ u.db db₂ refl refund_ok in
      let moves =
        closing-Moves v x m o set_cancelled u.db db₂ db₃ found active on_market refl refunds
          (subst (λ y. update_order o.id set_cancelled y ≡ ok db₃) db₂_is update_ok) in
      let w₄_is : db₃ ≡ w₄.db =
        ap (λ (y : Work B). y.db) (sym w₃_is)
        ∙ ap (λ (y : Work B). y.db) (sym (persisted_row-same o.id w₃ w₄ read)) in
      let w_is : (publish_cancel_events E row d w₄).1.db ≡ w.db =
        ap (λ r. r.1.db) published ∙ ap (λ (y : Work B). y.db) (pure-ok out).1 in
      subst (λ y. Moves v x 0 u.db y) w_is
        (Moves-SameRows (subst (λ y. Moves v x 0 u.db y) w₄_is moves)
          (publish_cancel_events-SameRows E row d w₄))

  -- A rollback leaves the database, a commit has what the body did.
  run_cancel-Moves :
      (o : Order) (d : Draw) (s : State B) (m : Option Market)
      → find o.id s.db.orders ≡ some o
      → is_active o.status ≡ true
      → find_market o.symbol s.db.markets ≡ m
      → Moves v x 0 s.db (run_cancel E o d s m).1.db
  run_cancel-Moves o d s none found active on_market = Moves-refl v x
  run_cancel-Moves o d s (some m) found active on_market =
      elim (Ended-cases (cancel_body E m o d (begin E o.symbol s))) [
        | inl (p, w, e) ↦
            rw e (cancel_body-Moves m o p d (begin E o.symbol s) w found active on_market e)
        | inr (x', w, e) ↦ rw e (Moves-refl v x)
      ]

  cancel_found-Moves :
      (o : Order) (t : Bool) (d : Draw) (s : State B)
      → find o.id s.db.orders ≡ some o
      → is_terminal o.status ≡ t
      → o.status ≢ rejected
      → Moves v x 0 s.db (cancel_found E o t d s).1.db
  cancel_found-Moves o true d s found e live = Moves-refl v x
  cancel_found-Moves o false d s found e live =
      run_cancel-Moves o d s (find_market o.symbol s.db.markets) found (active_of o.status e live)
        refl

  cancel_row-Moves :
      (id : ℕ) (r : Option Order) (d : Draw) (s : State B)
      → find id s.db.orders ≡ r
      → ((o : Order) → r ≡ some o → o.status ≢ rejected)
      → Moves v x 0 s.db (cancel_row E r d s).1.db
  cancel_row-Moves id none d s e live = Moves-refl v x
  cancel_row-Moves id (some o) d s e live =
      cancel_found-Moves o (is_terminal o.status) d s
        (ap (λ i. find i s.db.orders) (find-id id s.db.orders o e) ∙ e) refl (live o refl)

  -- Whatever a CANCEL command meets, the gap between a user's locked amounts and reservations and
  -- the supply of every asset are what they were; no row may be REJECTED, a status that nothing
  -- writes.
  pub settle_cancel-Moves :
      (cmd : OrderCancelCommand) (d : Draw) (s : State B)
      → ((o : Order) → find cmd.order_id s.db.orders ≡ some o → o.status ≢ rejected)
      → Moves v x 0 s.db (settle_cancel E cmd d s).1.db
  unfolding settle_cancel
  settle_cancel-Moves cmd d s live =
      cancel_row-Moves cmd.order_id (find cmd.order_id s.db.orders) d s refl live
