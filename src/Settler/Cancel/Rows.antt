-- ===== src/Settler/Cancel/Rows.antt =====
-- A CANCEL command only edits the rows of orders.
use orbit_exchange.Base.{
  ℕ, ◌≡◌, refl, sym, ◌∙◌, ap, Bool, true, false, Option, some, none, inl, inr,
}
use orbit_exchange.Base.Int.{pos_part, is_positive}
use orbit_exchange.Base.Outcome.{ok, ok-injective}
use mathlib.Core.Path.{subst}
use orbit_exchange.Shared.{OrderSide, bid, ask, OrderCancelCommand}
use orbit_exchange.Schema.{Market, Order, Db, base_amount, quote_amount}
use orbit_exchange.Engine.{Engine}
use orbit_exchange.Wallets.{increment, decrement}
use orbit_exchange.OrderTable.{find, find_market, is_terminal, update_order}
use orbit_exchange.OrderTable.Edits.{Edited}
use orbit_exchange.MatchingEngine.{State}
use orbit_exchange.Settler.Work.{
  Work, Ended-cases, proceed-ok, pure-ok, pure, statement, statement-ok,
}
use orbit_exchange.Settler.Fill.Matched.{persisted_row-same}
use orbit_exchange.Settler.Events.{Draw, publish_cancel_events}
use orbit_exchange.Settler.Events.Commands.{publish_cancel_events-Keeps}
use orbit_exchange.Settler.Submit.{begin}
use orbit_exchange.Settler.Keeps.{
  Keeps, Keeps-refl, Keeps-trans, update_order-Keeps, update_wallet-Keeps,
}
use orbit_exchange.Settler.Cancel.{
  refund, refund_left, set_cancelled, cancel_body, cancel_found, cancel_row, run_cancel,
  settle_cancel,
}

set_cancelled-Edited : (o : Order) → Edited o (set_cancelled o)
set_cancelled-Edited o = record {
  same_id = refl;
  same_user = refl;
  same_symbol = refl;
  same_side = refl;
  same_type = refl;
  same_price = refl;
  same_quantity = refl;
  same_command = refl;
  balanced = λ b. b;
  live = λ l. refl;
}

refund-Keeps :
    (m : Market) (o : Order) (side : OrderSide) (p : Option ℕ) (leave : ℕ) (db db' : Db)
    → refund m o side p leave db ≡ ok db'
    → Keeps db db'
refund-Keeps m o bid (some p) leave db db' h =
    update_wallet-Keeps o.user_id m.quote_asset (increment (quote_amount p leave))
      (decrement (quote_amount p leave)) db db' h
refund-Keeps m o bid none leave db db' h = subst (Keeps db) (ok-injective h) (Keeps-refl db)
refund-Keeps m o ask p leave db db' h =
    update_wallet-Keeps o.user_id m.base_asset (increment (base_amount leave))
      (decrement (base_amount leave)) db db' h

refund_left-Keeps :
    (m : Market) (o : Order) (b : Bool) (db db' : Db) → refund_left m o b db ≡ ok db' → Keeps db db'
unfolding refund_left
refund_left-Keeps m o true db db' h =
    refund-Keeps m o o.side o.price (pos_part o.leave_qty) db db' h
refund_left-Keeps m o false db db' h = subst (Keeps db) (ok-injective h) (Keeps-refl db)

module _ {B : Type 0} (E : Engine B) where
  cancel_body-Keeps :
      (m : Market) (o p : Order) (d : Draw) (u w : Work B)
      → cancel_body E m o d u ≡ (ok p, w)
      → Keeps u.db w.db
  unfolding cancel_body
  cancel_body-Keeps m o p d u w h =
      let refunding = refund_left m o (is_positive o.leave_qty) in
      let w₁ : Work B = record u { book = (E.cancel u.book o.id).0 } in
      let (_, w₂, refunded, h₂) = proceed-ok _ (statement refunding w₁) h in
      let (_, w₃, closed, h₃) = proceed-ok _ _ h₂ in
      let (row, w₄, read, h₄) = proceed-ok _ _ h₃ in
      let (_, w₅, published, out) =
        proceed-ok (λ _. pure row) (publish_cancel_events E row d w₄) h₄ in
      let (db₂, refund_ok, w₂_is) = statement-ok refunding w₁ refunded in
      let (db₃, update_ok, w₃_is) = statement-ok (update_order o.id set_cancelled) w₂ closed in
      let first : Keeps u.db w₂.db =
        subst (λ (y : Work B). Keeps u.db y.db) (sym w₂_is)
          (refund_left-Keeps m o (is_positive o.leave_qty) u.db db₂ refund_ok) in
      let second : Keeps w₂.db w₃.db =
        subst (λ (y : Work B). Keeps w₂.db y.db) (sym w₃_is)
          (update_order-Keeps o.id set_cancelled w₂.db db₃ (λ q e. set_cancelled-Edited q)
            update_ok) in
      let w₄_is : w₃.db ≡ w₄.db =
        ap (λ (y : Work B). y.db) (sym (persisted_row-same o.id w₃ w₄ read)) in
      let w_is : (publish_cancel_events E row d w₄).1.db ≡ w.db =
        ap (λ r. r.1.db) published ∙ ap (λ (y : Work B). y.db) (pure-ok out).1 in
      subst (Keeps u.db) w_is (
        Keeps-trans (subst (Keeps u.db) w₄_is (Keeps-trans first second))
          (publish_cancel_events-Keeps E row d w₄))

  run_cancel-Keeps :
      (o : Order) (d : Draw) (s : State B) (m : Option Market)
      → Keeps s.db (run_cancel E o d s m).1.db
  run_cancel-Keeps o d s none = Keeps-refl s.db
  run_cancel-Keeps o d s (some m) = elim (Ended-cases (cancel_body E m o d (begin E o.symbol s))) [
    | inl (p, w, e) ↦ rw e (cancel_body-Keeps m o p d (begin E o.symbol s) w e)
    | inr (x, w, e) ↦ rw e (Keeps-refl s.db)
  ]

  cancel_found-Keeps :
      (o : Order) (t : Bool) (d : Draw) (s : State B) → Keeps s.db (cancel_found E o t d s).1.db
  cancel_found-Keeps o true d s = Keeps-refl s.db
  cancel_found-Keeps o false d s = run_cancel-Keeps o d s (find_market o.symbol s.db.markets)

  cancel_row-Keeps :
      (r : Option Order) (d : Draw) (s : State B) → Keeps s.db (cancel_row E r d s).1.db
  cancel_row-Keeps none d s = Keeps-refl s.db
  cancel_row-Keeps (some o) d s = cancel_found-Keeps o (is_terminal o.status) d s

  -- A CANCEL command keeps the rows of orders in the same sense as a SUBMIT command.
  pub settle_cancel-Keeps :
      (cmd : OrderCancelCommand) (d : Draw) (s : State B)
      → Keeps s.db (settle_cancel E cmd d s).1.db
  unfolding settle_cancel
  settle_cancel-Keeps cmd d s = cancel_row-Keeps (find cmd.order_id s.db.orders) d s
