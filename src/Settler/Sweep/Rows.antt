-- ===== src/Settler/Sweep/Rows.antt =====
-- A sweep and its end only edit the rows of orders.
use orbit_exchange.Base.{
  ℕ, suc, ◌-◌, ◌≡◌, refl, sym, ◌∙◌, ap, Bool, true, false, List, [], ◌∷◌, some, min, leb, ltb,
  if◌then◌else◌, Bool-cases, inl, inr, arith,
}
use orbit_exchange.Base.Int.{pos}
use orbit_exchange.Base.Outcome.{ok}
use mathlib.Core.Path.{subst}
use orbit_exchange.Shared.{Level, OrderSide, bid, ask}
use orbit_exchange.Schema.{Order, Trade, base_amount}
use orbit_exchange.Engine.{Engine}
use orbit_exchange.Wallets.{increment, decrement, update_wallet}
use orbit_exchange.OrderTable.{find, update_order}
use orbit_exchange.OrderTable.Edits.{Edited}
use orbit_exchange.Settler.Work.{Work, proceed-ok, pure-ok, pure, statement-ok, statement}
use orbit_exchange.Settler.Fill.{Taking}
use orbit_exchange.Settler.Fill.Rows.{settle_trades-Keeps, update_order_after_match-Keeps}
use orbit_exchange.Settler.Keeps.{
  Keeps, Keeps-refl, Keeps-trans, update_order-Keeps, update_wallet-Keeps,
}
use orbit_exchange.Settler.Sweep.{
  book_add, sweep_level, sweep_levels, cancel_rest, refund_rest, settle_rest, close_unfilled,
  execute_market_order, levels_for, base_sweep_id,
}

close_unfilled-Edited :
    {B : Type 0} (E : Engine B) (quantity remaining : ℕ) (o : Order)
    → Edited o (close_unfilled E quantity remaining o)
close_unfilled-Edited E quantity remaining o = record {
  same_id = refl;
  same_user = refl;
  same_symbol = refl;
  same_side = refl;
  same_type = refl;
  same_price = refl;
  same_quantity = refl;
  same_command = refl;
  balanced = λ b. b;
  live = λ l. ground arith;
}

module _ {B : Type 0} (E : Engine B) (k : Taking) where
  cancel_rest-same_db :
      (id leave : ℕ) (u w : Work B) {t : Unit {0}}
      → cancel_rest E id leave u ≡ (ok t, w)
      → w.db ≡ u.db
  cancel_rest-same_db id leave u w h = ground arith

  sweep_level-Keeps :
      (id price qty : ℕ) (fills : List Trade) (u w : Work B)
      → sweep_level E k id price qty u ≡ (ok fills, w)
      → Keeps u.db w.db
  unfolding sweep_level
  sweep_level-Keeps id price qty fills u w h =
      let (added, w₁, add, h₁) = proceed-ok _ (book_add E id k.taker.side price (pos qty) u) h in
      let (ts, w₂, settle, h₂) = proceed-ok _ _ h₁ in
      let (_, w₃, stop, out) = proceed-ok _ _ h₂ in
      let ran : book_add E id k.taker.side price (pos qty) u ≡ (ok added, w₁) = add in
      let kept = settle_trades-Keeps k added.trades ts w₁ w₂ settle in
      let same : u.db ≡ w₁.db = ap (λ r. r.1.db) ran in
      let last : w₂.db ≡ w.db =
        sym (cancel_rest-same_db id added.leave_quantity w₂ w₃ stop)
        ∙ ap (λ (y : Work B). y.db) (pure-ok out).1 in
      subst (λ d. Keeps d w.db) (sym same) (subst (Keeps w₁.db) last kept)

  pub sweep_levels-Keeps :
      (id : ℕ) (levels : List Level) (remaining : ℕ) (r : List Trade × ℕ) (u w : Work B)
      → sweep_levels E k id levels remaining u ≡ (ok r, w)
      → Keeps u.db w.db
  unfolding sweep_levels
  sweep_levels-Keeps id [] remaining r u w h =
      subst (λ (y : Work B). Keeps u.db y.db) (pure-ok h).1 (Keeps-refl u.db)
  sweep_levels-Keeps id (lvl ∷ levels) remaining r u w h = elim (Bool-cases (leb remaining 0)) [
    | inl stop ↦
        subst (λ (y : Work B). Keeps u.db y.db) (pure-ok (rw stop at h)).1 (Keeps-refl u.db)
    | inr left ↦
        let qty : ℕ = min lvl.quantity remaining in
        let (first, w₁, swept, h₁) = proceed-ok _ _ (rw left at h) in
        let (more, w₂, others, out) = proceed-ok _ _ h₁ in
        subst (λ (y : Work B). Keeps u.db y.db) (pure-ok out).1
          (Keeps-trans (sweep_level-Keeps id lvl.price qty first u w₁ swept)
            (sweep_levels-Keeps (suc id) levels (remaining - qty) more w₁ w₂ others))
  ]

  refund_rest-Keeps :
      (side : OrderSide) (remaining : ℕ) (u w : Work B) {t : Unit {0}}
      → refund_rest E k side remaining u ≡ (ok t, w)
      → Keeps u.db w.db
  refund_rest-Keeps bid remaining u w h =
      subst (λ (y : Work B). Keeps u.db y.db) (pure-ok h).1 (Keeps-refl u.db)
  refund_rest-Keeps ask remaining u w h =
      let f =
        update_wallet k.taker.user_id k.m.base_asset (increment (base_amount remaining))
          (decrement (base_amount remaining)) in
      let (db, wrote, same) = statement-ok f u h in
      subst (λ (y : Work B). Keeps u.db y.db) (sym same)
        (update_wallet-Keeps k.taker.user_id k.m.base_asset (increment (base_amount remaining))
          (decrement (base_amount remaining)) u.db db wrote)

  settle_rest-Keeps :
      (remaining : ℕ) (u w : Work B) {t : Unit {0}}
      → settle_rest E k remaining u ≡ (ok t, w)
      → Keeps u.db w.db
  settle_rest-Keeps remaining u w h =
      let close = close_unfilled E k.taker.quantity remaining in
      let (_, w₁, refunded, h₁) =
        proceed-ok (λ _. statement (update_order k.taker.id close))
          (refund_rest E k k.taker.side remaining u) h in
      let (db, closed, same) = statement-ok (update_order k.taker.id close) w₁ h₁ in
      subst (λ (y : Work B). Keeps u.db y.db) (sym same)
        (Keeps-trans (refund_rest-Keeps k.taker.side remaining u w₁ refunded) (
          update_order-Keeps k.taker.id close w₁.db db
            (λ o e. close_unfilled-Edited E k.taker.quantity remaining o) closed))

  rested-Keeps :
      (remaining : ℕ) (b : Bool) (u w : Work B) {t : Unit {0}}
      → (if b then settle_rest E k remaining else pure tt) u ≡ (ok t, w)
      → Keeps u.db w.db
  rested-Keeps remaining true u w h = settle_rest-Keeps remaining u w h
  rested-Keeps remaining false u w h =
      subst (λ (y : Work B). Keeps u.db y.db) (pure-ok h).1 (Keeps-refl u.db)

  pub execute_market_order-Keeps :
      (rows : List Trade) (u w : Work B)
      → find k.taker.id u.db.orders ≡ some k.taker
      → execute_market_order E k u ≡ (ok rows, w)
      → Keeps u.db w.db
  unfolding execute_market_order
  execute_market_order-Keeps rows u w found h =
      let (swept, w₁, ran, h₁) =
        proceed-ok _
          (sweep_levels E k (base_sweep_id k.taker.id) (levels_for E k.taker.side u.book)
            k.taker.quantity u)
          h in
      let (_, w₂, wrote, h₂) = proceed-ok _ _ h₁ in
      let (_, w₃, rested, out) = proceed-ok _ _ h₂ in
      let sweep =
        sweep_levels-Keeps (base_sweep_id k.taker.id) (levels_for E k.taker.side u.book)
          k.taker.quantity swept u w₁ ran in
      let write = update_order_after_match-Keeps k swept.1 u.db w₁ w₂ found sweep wrote in
      subst (λ (y : Work B). Keeps u.db y.db) (pure-ok out).1
        (Keeps-trans (Keeps-trans sweep write) (rested-Keeps swept.1 (ltb 0 swept.1) w₂ w₃ rested))
