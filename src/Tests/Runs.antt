-- ===== src/Tests/Runs.antt =====
-- The services together: a BID is placed, and the matcher settles it against what rests.
use orbit_exchange.Base.{◌≡◌, ◌≤◌, ◌+◌, ◌∙◌, refl, sym, some, [], ◌∷◌, arith, eq_of_some, inl, IsIn}
use orbit_exchange.Base.Int.{pos_part}
use orbit_exchange.Base.Outcome.{ok, ok-injective}
use mathlib.Core.Path.{subst}
use orbit_exchange.Shared.{OrderSubmitCommand}
use orbit_exchange.Schema.{Market, Order, publish}
use orbit_exchange.Schema.Submits.{submits}
use orbit_exchange.Engine.{Added}
use orbit_exchange.OrderTable.{find}
use orbit_exchange.MatchingEngine.{State, get_engine}
use orbit_exchange.Wallets.Supply.{supply}
use orbit_exchange.OrderService.{submit_command}
use orbit_exchange.Settler.Guards.{to_settle}
use orbit_exchange.Settler.Fill.Trades.{Fit}
use orbit_exchange.Settler.Fill.Kept.{traded}
use orbit_exchange.Settler.Submit.{settle_submit, begin}
use orbit_exchange.Settler.Submit.Moved.{IsMatchable, taking_of}
use orbit_exchange.Settler.Submit.Rows.{settle_submit-Keeps}
use orbit_exchange.Settler.Keeps.{Keeps}
use orbit_exchange.Ledger.{IsBacked}
use orbit_exchange.System.Consistent.{IsConsistent}
use orbit_exchange.System.Steps.{IsCommandMatchable, Step, place, settle, idle, onward, here, step}
use orbit_exchange.System.Runs.{Reach-IsConsistent, Trading-supply}
use orbit_exchange.Tests.Fixtures.{
  one_order, spot, sale, state, submission, draw, Resting, state_of, request, funded, plain,
}
use orbit_exchange.Tests.Submitting.{placed, after, accepted}

settle_submit-Keeps_example : Keeps state.db (settle_submit one_order submission draw state).1.db
settle_submit-Keeps_example = settle_submit-Keeps one_order submission draw state

abbrev bought : OrderSubmitCommand
bought = submit_command placed 9 5

-- Before the order, and after it; the sale rests in the book.
abbrev first : State Resting
first = state_of funded (some (1, 100, 2))

abbrev second : State Resting
second = state_of after (some (1, 100, 2))

to_settle_is : to_settle bought after ≡ some (spot, placed)
unfolding to_settle find publish
to_settle_is = refl

bought_fits :
    Fit
      (taking_of one_order bought draw spot placed)
      after.markets
      (record { maker_order_id = 1; trade_price = 100; trade_quantity = 2 } ∷ [])
      after.orders
unfolding find publish
bought_fits = (
  sale,
  refl,
  record { on_market = refl; active = refl; enough = omega arith },
  refl,
  (λ (e : 1 ≡ 3). omega (arith, e)),
  tt,
)

engine_keeps :
    (added : Added)
    → (one_order.add (begin one_order 7 second).book 3 placed.side 101 placed.leave_qty).1
      ≡ ok added
    → Fit (taking_of one_order bought draw spot placed) after.markets added.trades after.orders
      × (traded added.trades + added.leave_quantity ≡ pos_part placed.leave_qty)
unfolding get_engine
engine_keeps added e =
    subst
      (λ (a : Added).
        Fit (taking_of one_order bought draw spot placed) after.markets a.trades after.orders
        × (traded a.trades + a.leave_quantity ≡ pos_part placed.leave_qty))
      (ok-injective e) (bought_fits, refl)

bought-IsMatchable : IsCommandMatchable one_order bought draw second
bought-IsMatchable m o e =
    subst
      (λ (mo : Market × Order).
        IsMatchable one_order (taking_of one_order bought draw mo.0 mo.1) (begin one_order 7 second)
          mo.1.type mo.1.price)
      (eq_of_some (sym to_settle_is ∙ e)) (record { fits = engine_keeps })

bought-IsIn : IsIn bought (submits after.outbox)
unfolding publish
bought-IsIn = inl refl

abbrev placing : Step one_order first second
placing = place 20 request 9 5 placed after accepted

abbrev settling : Step one_order second (settle_submit one_order bought draw second).1
settling = settle bought draw bought-IsIn

is_backed : IsBacked funded
is_backed v x = ground arith

is_consistent : IsConsistent funded
is_consistent = record {
  backed = is_backed;
  placed = (record { below = omega arith; live = refl; priced = tt; balanced = omega arith }, tt);
  sent = tt;
}

Reach-IsConsistent_example : IsConsistent (settle_submit one_order bought draw second).1.db
Reach-IsConsistent_example =
    Reach-IsConsistent one_order plain (step (step here placing) settling)
      ((tt, tt), bought-IsMatchable) is_consistent

Trading-supply_example :
    supply 2 (settle_submit one_order bought draw second).1.db.wallets ≤ supply 2 funded.wallets
Trading-supply_example =
    Trading-supply one_order 2 (onward (onward idle placing) settling)
      ((tt, tt), bought-IsMatchable) is_consistent
