-- ===== src/Settler/Cancel/Again.antt =====
-- A CANCEL command that is delivered again.
use orbit_exchange.Base.{
  ℕ, ◌≡◌, refl, sym, ◌∙◌, ap, Bool, true, false, Option, none, some, eq_of_some, inl, inr, arith,
}
use orbit_exchange.Base.Int.{is_positive}
use orbit_exchange.Base.Outcome.{ok, ok-injective}
use mathlib.Core.Path.{subst}
use orbit_exchange.Shared.{OrderCancelCommand}
use orbit_exchange.Schema.{Market, Order, Db}
use orbit_exchange.Engine.{Engine}
use orbit_exchange.OrderTable.{
  find, find-id, find-update_self, find_market, is_terminal, update_order, update_order-ok,
}
use orbit_exchange.MatchingEngine.{State}
use orbit_exchange.Settler.Work.{
  Work, Ended-cases, proceed-ok, pure-ok, statement-ok, statement, pure,
}
use orbit_exchange.Settler.Submit.{begin}
use orbit_exchange.Settler.Events.{Draw, publish_cancel_events}
use orbit_exchange.Settler.Events.Rows.{publish_cancel_events-SameRows}
use orbit_exchange.Settler.Fill.Matched.{persisted_row-same, persisted_row-found}
use orbit_exchange.Settler.Cancel.Moved.{refund_left-Refunds}
use orbit_exchange.Settler.Cancel.{
  refund_left, set_cancelled, cancel_body, settle_cancel, cancel_found, run_cancel, cancel_row,
}

module _ {B : Type 0} (E : Engine B) where
  -- A row that has ended, under this id.
  abbrev Ended : ℕ → Order → Db → Type 0
  Ended id p db = (find id db.orders ≡ some p) × (is_terminal p.status ≡ true)

  cancel_body-Ended :
      (m : Market) (o p : Order) (d : Draw) (u w : Work B)
      → find o.id u.db.orders ≡ some o
      → cancel_body E m o d u ≡ (ok p, w)
      → Ended o.id p w.db
  unfolding cancel_body
  cancel_body-Ended m o p d u w found h =
      let refunding = refund_left m o (is_positive o.leave_qty) in
      let w₁ : Work B = record u { book = (E.cancel u.book o.id).0 } in
      let (_, w₂, refunded, h₂) = proceed-ok _ (statement refunding w₁) h in
      let (_, w₃, closed, h₃) = proceed-ok _ _ h₂ in
      let (row, w₄, read, h₄) = proceed-ok _ _ h₃ in
      let (_, w₅, published, out) =
        proceed-ok (λ _. pure row) (publish_cancel_events E row d w₄) h₄ in
      let (db₂, refund_ok, w₂_is) = statement-ok refunding w₁ refunded in
      let (db₃, update_ok, w₃_is) = statement-ok (update_order o.id set_cancelled) w₂ closed in
      let (os, put, os_is) = update_order-ok o.id set_cancelled w₂.db db₃ update_ok in
      let refunds = refund_left-Refunds 0 0 m o (is_positive o.leave_qty) u.db db₂ refl refund_ok in
      let there : find o.id w₂.db.orders ≡ some o =
        ap (λ (y : Work B). find o.id y.db.orders) w₂_is
        ∙ ap (find o.id) refunds.same_orders
        ∙ found in
      let closed_row : find o.id os ≡ some (set_cancelled o) =
        find-update_self o.id set_cancelled w₂.db.orders os o (λ _. refl) there put in
      let os₃ : w₃.db.orders ≡ os =
        ap (λ (y : Work B). y.db.orders) w₃_is ∙ ap (λ (y : Db). y.orders) (sym os_is) in
      let read_row : find o.id w₃.db.orders ≡ some row = persisted_row-found o.id w₃ w₄ read in
      let row_is : set_cancelled o ≡ row =
        eq_of_some (sym closed_row ∙ ap (find o.id) (sym os₃) ∙ read_row) in
      let w₄_is : w₄ ≡ w₃ = persisted_row-same o.id w₃ w₄ read in
      let same = (publish_cancel_events-SameRows E row d w₄).same_orders in
      let w_is : w.db ≡ (publish_cancel_events E row d w₄).1.db =
        ap (λ (y : Work B). y.db) (sym (pure-ok out).1) ∙ ap (λ r. r.1.db) (sym published) in
      let p_is : row ≡ p = (pure-ok out).0 in
      (
        ap (λ (y : Db). find o.id y.orders) w_is
            ∙ ap (find o.id) same
            ∙ ap (λ (y : Work B). find o.id y.db.orders) w₄_is
            ∙ read_row
            ∙ ap some p_is,
        subst (λ (q : Order). is_terminal q.status ≡ true) (row_is ∙ p_is) refl,
      )

  run_cancel-Ended :
      (o p : Order) (d : Draw) (s s' : State B) (m : Option Market)
      → find o.id s.db.orders ≡ some o
      → run_cancel E o d s m ≡ (ok (some p), s')
      → Ended o.id p s'.db
  run_cancel-Ended o p d s s' none found h = ground arith
  run_cancel-Ended o p d s s' (some m) found h =
      elim (Ended-cases (cancel_body E m o d (begin E o.symbol s))) [
        | inr (x, w, e) ↦ ground (arith, ap (λ r. r.0) (rw e at h))
        | inl (q, w, e) ↦
            let h' = rw e at h in
            let q_is : q ≡ p = eq_of_some (ok-injective (ap (λ r. r.0) h')) in
            let db_is : w.db ≡ s'.db = ap (λ r. r.1.db) h' in
            subst (λ r. Ended o.id r s'.db) q_is
              (subst (Ended o.id q) db_is
                (cancel_body-Ended m o q d (begin E o.symbol s) w found e))
      ]

  cancel_found-Ended :
      (o p : Order) (t : Bool) (d : Draw) (s s' : State B)
      → find o.id s.db.orders ≡ some o
      → is_terminal o.status ≡ t
      → cancel_found E o t d s ≡ (ok (some p), s')
      → Ended o.id p s'.db
  cancel_found-Ended o p true d s s' found ended h =
      let p_is : o ≡ p = eq_of_some (ok-injective (ap (λ r. r.0) h)) in
      subst (λ q. Ended o.id q s'.db) p_is
        (subst (λ (y : State B). Ended o.id o y.db) (ap (λ r. r.1) h) (found, ended))
  cancel_found-Ended o p false d s s' found ended h =
      run_cancel-Ended o p d s s' (find_market o.symbol s.db.markets) found h

  cancel_row-Ended :
      (id : ℕ) (r : Option Order) (p : Order) (d : Draw) (s s' : State B)
      → find id s.db.orders ≡ r
      → cancel_row E r d s ≡ (ok (some p), s')
      → Ended id p s'.db
  cancel_row-Ended id none p d s s' e h = ground arith
  cancel_row-Ended id (some o) p d s s' e h =
      let id_is = find-id id s.db.orders o e in
      subst (λ i. Ended i p s'.db) id_is
        (cancel_found-Ended o p (is_terminal o.status) d s s'
          (ap (λ i. find i s.db.orders) id_is ∙ e) refl h)

  -- A CANCEL command that has returned a row, of an order that it has cancelled or that had ended
  -- before, returns the same row when it is delivered again, and changes nothing: no table, book or
  -- counter.
  pub settle_cancel-again :
      (cmd : OrderCancelCommand) (p : Order) (d d' : Draw) (s s' : State B)
      → settle_cancel E cmd d s ≡ (ok (some p), s')
      → settle_cancel E cmd d' s' ≡ (ok (some p), s')
  unfolding settle_cancel
  settle_cancel-again cmd p d d' s s' h =
      let (found, ended) =
        cancel_row-Ended cmd.order_id (find cmd.order_id s.db.orders) p d s s' refl h in
      rw (found, ended) refl
