-- ===== src/Settler/Sweep/Moved.antt =====
-- A market order moves funds and reservations together.
use orbit_exchange.Base.{
  ℕ, ◌+◌, ◌≡◌, refl, ◌∙◌, ap, List, some, none, Bool, true, false, if◌then◌else◌, ltb, arith,
}
use orbit_exchange.Base.Int.{pos, pos_part, sub_ℕ}
use orbit_exchange.Base.Outcome.{ok}
use mathlib.Core.Path.{subst, subst₂}
use orbit_exchange.Schema.{Trade}
use orbit_exchange.Engine.{Engine}
use orbit_exchange.Ledger.{Moves, Moves-refl, Moves-trans}
use orbit_exchange.OrderTable.{find, find_market, is_active}
use orbit_exchange.Settler.Work.{Work, proceed-ok, pure-ok, pure}
use orbit_exchange.Settler.Settlement.{matched, status_after}
use orbit_exchange.Settler.Fill.{Taking}
use orbit_exchange.Settler.Fill.Kept.{fees}
use orbit_exchange.Settler.Fill.Matched.{IsTaker, matched-Moves, matched-found}
use orbit_exchange.Settler.Sweep.{execute_market_order, levels_for, base_sweep_id, settle_rest}
use orbit_exchange.Settler.Sweep.Levels.{IsSweepMatchable, sweep_levels-Kept}
use orbit_exchange.Settler.Sweep.Rest.{settle_rest-Moves}

-- What is left of an order keeps it active.
status_after-is_active : (n f : ℕ) → ltb 0 n ≡ true → is_active (status_after n (sub_ℕ f n)) ≡ true
status_after-is_active n f left = ground arith

-- The row of an order that nothing has filled yet.
abbrev pub IsFresh : Taking → Type 0
IsFresh k = k.taker.leave_qty ≡ pos k.taker.quantity

module _ {B : Type 0} (E : Engine B) (v x : ℕ) (k : Taking) (u w : Work B) where
  -- The unfilled rest, when there is one.
  rested-Moves :
      (remaining : ℕ) (b : Bool) (y z : Work B) {t : Unit {0}}
      → ltb 0 remaining ≡ b
      → find k.taker.id y.db.orders ≡ some (matched remaining k.taker.quantity k.taker)
      → find_market k.taker.symbol y.db.markets ≡ some k.m
      → k.taker.price ≡ none
      → (if b then settle_rest E k remaining else pure tt) y ≡ (ok t, z)
      → Moves v x 0 y.db z.db
  rested-Moves remaining false y z none_left found on_market priceless h =
      subst (λ (q : Work B). Moves v x 0 y.db q.db) (pure-ok h).1 (Moves-refl v x)
  rested-Moves remaining true y z left found on_market priceless h =
      settle_rest-Moves E v x k remaining y z found
        (status_after-is_active remaining k.taker.quantity left) on_market priceless h

  -- The sweep and the close of a market order: only the fees leave the supply.
  pub execute_market_order-Moves :
      (rows : List Trade)
      → IsTaker k u.db
      → IsFresh k
      → k.taker.price ≡ none
      → IsSweepMatchable E k
          (base_sweep_id k.taker.id)
          (levels_for E k.taker.side u.book)
          k.taker.quantity
          u
      → execute_market_order E k u ≡ (ok rows, w)
      → Moves v x (fees x k rows) u.db w.db
  unfolding execute_market_order
  execute_market_order-Moves rows taker fresh priceless matchable h =
      let (swept, w₁, ran, h₁) = proceed-ok _ _ h in
      let (_, w₂, wrote, h₂) = proceed-ok _ _ h₁ in
      let (_, w₃, rested, out) = proceed-ok _ _ h₂ in
      let (sold, whole, kept) =
        sweep_levels-Kept E k v x taker.priced _ _ k.taker.quantity swept.1 swept.0 u w₁ matchable
          ran in
      let moves =
        matched-Moves v x sold swept.1 k.taker.quantity (fees x k swept.0) k u w₁ w₂ taker
          (omega (arith, whole, ap pos_part fresh)) kept wrote in
      let rest =
        rested-Moves swept.1 (ltb 0 swept.1) w₂ w₃ refl
          (matched-found swept.1 k.taker.quantity k w₁ w₂ (kept.same_taker ∙ taker.found) wrote)
          (ap (find_market k.taker.symbol) moves.same_markets ∙ taker.on_market) priceless rested in
      let both : Moves v x (fees x k swept.0 + 0) u.db w₃.db = Moves-trans moves rest in
      subst₂ (λ rs (y : Work B). Moves v x (fees x k rs) u.db y.db) (pure-ok out).0 (pure-ok out).1
        (subst (λ n. Moves v x n u.db w₃.db) (omega arith) both)
