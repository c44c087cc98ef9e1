-- ===== src/Settler/Sweep/Levels.antt =====
-- The trades of a sweep, level after level.
use orbit_exchange.Base.{
  ℕ, suc, ◌+◌, ◌-◌, ◌≡◌, sym, ◌∙◌, ap, List, [], ◌∷◌, min, false, leb, arith, inl, inr,
  sum_by-append, Bool-cases,
}
use orbit_exchange.Base.Int.{pos}
use orbit_exchange.Base.Outcome.{ok}
use mathlib.Core.Path.{subst, subst₂}
use orbit_exchange.Shared.{OrderId, Level}
use orbit_exchange.Schema.{Trade}
use orbit_exchange.Engine.{Engine, Added}
use orbit_exchange.Settler.Work.{Work, proceed-ok, pure-ok, pure}
use orbit_exchange.Settler.Settlement.Gap.{IsPriceOf}
use orbit_exchange.Settler.Fill.{Taking, settle_trades}
use orbit_exchange.Settler.Fill.Trades.{Fit, settle_trades-Run}
use orbit_exchange.Settler.Fill.Kept.{
  Kept, Kept-trans, Kept-db, Kept-refl, traded, fees, trade_fees, Run-Kept,
}
use orbit_exchange.Settler.Sweep.{sweep_level, sweep_levels, cancel_rest}

module _ {B : Type 0} (E : Engine B) (k : Taking) where
  -- What one level of a sweep relies on: the trades that the book returns fit the makers' rows in the
  -- table, and fill what was asked for in full.
  abbrev pub IsLevelMatchable : OrderId → ℕ → ℕ → Work B → Type 0
  IsLevelMatchable id price qty u =
      (added : Added)
      → (E.add u.book id k.taker.side price (pos qty)).1 ≡ ok added
      → Fit k u.db.markets added.trades u.db.orders × (traded added.trades ≡ qty)

  -- And of the sweep: each level that it comes to, in the state that the levels before left.
  abbrev pub IsSweepMatchable : OrderId → List Level → ℕ → Work B → Type 0
  IsSweepMatchable id [] remaining u = Unit {0}
  IsSweepMatchable id (lvl ∷ levels) remaining u =
      leb remaining 0 ≡ false
      → IsLevelMatchable id lvl.price (min lvl.quantity remaining) u
        × ((fills : List Trade) (w : Work B)
            → sweep_level E k id lvl.price (min lvl.quantity remaining) u ≡ (ok fills, w)
            → IsSweepMatchable (suc id) levels (remaining - min lvl.quantity remaining) w)

  module _ (v x : ℕ) (priced : IsPriceOf k.taker.type k.taker.price) where
    cancel_rest-db :
        (id leave : ℕ) (u w : Work B) {t : Unit {0}}
        → cancel_rest E id leave u ≡ (ok t, w)
        → w.db ≡ u.db
    cancel_rest-db id leave u w h = ground arith

    sweep_level-Kept :
        (id price qty : ℕ) (fills : List Trade) (u w : Work B)
        → IsLevelMatchable id price qty u
        → sweep_level E k id price qty u ≡ (ok fills, w)
        → Kept v x k qty (fees x k fills) u w
    unfolding sweep_level
    sweep_level-Kept id price qty fills u w matchable h =
        let (added, w₁, add, h₁) = proceed-ok _ _ h in
        let (ts, w₂, settle, h₂) = proceed-ok _ _ h₁ in
        let (_, w₃, cancelled, out) = proceed-ok _ _ h₂ in
        let (fits, whole) = matchable added (ap (λ r. r.0) add) in
        let u' : Work B = record u { book = (E.add u.book id k.taker.side price (pos qty)).0 } in
        let settle' : settle_trades k added.trades u' ≡ (ok ts, w₂) =
          subst (λ y. settle_trades k added.trades y ≡ (ok ts, w₂)) (sym (ap (λ r. r.1) add))
            settle in
        let kept = Run-Kept v x k priced fits (settle_trades-Run k added.trades ts u' w₂ settle') in
        let same = cancel_rest-db id added.leave_quantity w₂ w₃ cancelled in
        let moved = Kept-db v x k w (ap (λ (y : Work B). y.db) (sym (pure-ok out).1) ∙ same) kept in
        subst₂ (λ q rs. Kept v x k q (fees x k rs) u w) whole (pure-ok out).0
          (record {
            gap = moved.gap;
            supplied = moved.supplied;
            same_markets = moved.same_markets;
            same_taker = moved.same_taker;
          })

    -- A sweep that stops has sold nothing more.
    stopped :
        (remaining rest : ℕ) (fills : List Trade) (u w : Work B)
        → pure {A = List Trade × ℕ} ([], remaining) u ≡ (ok (fills, rest), w)
        → (sold : ℕ) × (sold + rest ≡ remaining) × Kept v x k sold (fees x k fills) u w
    stopped remaining rest fills u w h =
        let (out, same) = pure-ok h in
        (
          0,
          omega (arith, ap (λ r. r.1) out),
          subst₂ (λ (r : List Trade × ℕ) y. Kept v x k 0 (fees x k r.0) u y) out same
              (Kept-refl v x k),
        )

    -- The whole sweep: what it sold and what remains make up the quantity it began with.
    pub sweep_levels-Kept :
        (id : ℕ) (levels : List Level) (remaining rest : ℕ) (fills : List Trade) (u w : Work B)
        → IsSweepMatchable id levels remaining u
        → sweep_levels E k id levels remaining u ≡ (ok (fills, rest), w)
        → (sold : ℕ) × (sold + rest ≡ remaining) × Kept v x k sold (fees x k fills) u w
    unfolding sweep_levels
    sweep_levels-Kept id [] remaining rest fills u w matchable h =
        stopped remaining rest fills u w h
    sweep_levels-Kept id (lvl ∷ levels) remaining rest fills u w matchable h =
        elim (Bool-cases (leb remaining 0)) [
          | inl none_left ↦ stopped remaining rest fills u w (rw none_left at h)
          | inr left ↦
              let qty : ℕ = min lvl.quantity remaining in
              let (first, w₁, swept, h₁) = proceed-ok _ _ (rw left at h) in
              let (more, w₂, others, out) = proceed-ok _ _ h₁ in
              let (level, later) = matchable left in
              let kept = sweep_level-Kept id lvl.price qty first u w₁ level swept in
              let (sold, whole, kept') =
                sweep_levels-Kept (suc id) levels (remaining - qty) more.1 more.0 w₁ w₂
                  (later first w₁ swept) others in
              let (out_is, w_is) = pure-ok out in
              (
                qty + sold,
                omega (arith, whole, ap (λ r. r.1) out_is),
                subst₂ (λ (r : List Trade × ℕ) y. Kept v x k (qty + sold) (fees x k r.0) u y) out_is
                    w_is
                    (rw (sum_by-append (trade_fees x k) first more.0)
                      (Kept-trans v x k kept kept')),
              )
        ]
