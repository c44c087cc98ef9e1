-- ===== src/Tests/Settling.antt =====
-- The settler on a BID that buys what rests in the book.
use orbit_exchange.Base.{
  ◌≡◌, ◌≢◌, refl, sym, Option, none, some, List, [], ◌∷◌, ◌+◌, ◌∙◌, arith, eq_of_some,
}
use orbit_exchange.Base.Outcome.{ok, err, ok-injective, limit_missing_price}
use orbit_exchange.Base.Int.{pos_part}
use mathlib.Core.Path.{subst}
use orbit_exchange.Shared.{rejected, OrderStatus, bid, limit, opened, OrderCommand, submit}
use orbit_exchange.Schema.{Market, Order}
use orbit_exchange.Engine.{Added, EngineTrade}
use orbit_exchange.Ledger.{Moves, IsBacked}
use orbit_exchange.OrderTable.{find}
use orbit_exchange.MatchingEngine.{State, get_engine}
use orbit_exchange.Settler.Guards.{to_settle}
use orbit_exchange.Settler.Fill.Trades.{Fit}
use orbit_exchange.Settler.Fill.Kept.{traded}
use orbit_exchange.Settler.Submit.{settle_submit, submit_body, match_order, begin}
use orbit_exchange.Settler.Submit.Moved.{settle_submit-Moves, IsSettleable, taking_of, charged_for}
use orbit_exchange.Settler.Cancel.{settle_cancel}
use orbit_exchange.Settler.Cancel.Moved.{settle_cancel-Moves}
use orbit_exchange.Tests.Fixtures.{
  one_order, spot, purchase, sale, state, state_of, db, submission, cancellation, draw, Resting,
  db_of, order,
}
use orbit_exchange.Settler.Events.{Draw}
use orbit_exchange.CommandConsumer.{Matcher, handle_all}
use orbit_exchange.CommandConsumer.Runs.{AllSound, handle_all-IsBacked}

to_settle_is : to_settle submission db ≡ some (spot, purchase)
unfolding to_settle find
to_settle_is = refl

abbrev fill : EngineTrade
fill = record { maker_order_id = 1; trade_price = 100; trade_quantity = 2 }

fill_fits :
    Fit
      (taking_of one_order submission draw spot purchase)
      db.markets
      (record { maker_order_id = 1; trade_price = 100; trade_quantity = 2 } ∷ [])
      db.orders
unfolding find
fill_fits = (
  sale,
  refl,
  record { on_market = refl; active = refl; enough = omega arith },
  refl,
  (λ (e : 1 ≡ 2). omega (arith, e)),
  tt,
)

engine_keeps :
    (added : Added)
    → (one_order.add (begin one_order 7 state).book 2 purchase.side 101 purchase.leave_qty).1
      ≡ ok added
    → Fit (taking_of one_order submission draw spot purchase) db.markets added.trades db.orders
      × (traded added.trades + added.leave_quantity ≡ pos_part purchase.leave_qty)
unfolding get_engine
engine_keeps added e =
    subst
      (λ (a : Added).
        Fit (taking_of one_order submission draw spot purchase) db.markets a.trades db.orders
        × (traded a.trades + a.leave_quantity ≡ pos_part purchase.leave_qty))
      (ok-injective e) (fill_fits, refl)

is_settleable :
    IsSettleable one_order
      (taking_of one_order submission draw spot purchase)
      (begin one_order 7 state)
unfolding find
is_settleable = (
  record { found = refl; active = refl; on_market = refl; priced = tt },
  record { fits = engine_keeps },
)

sound :
    (m : Market) (o : Order)
    → to_settle submission state.db ≡ some (m, o)
    → IsSettleable one_order (taking_of one_order submission draw m o) (begin one_order 7 state)
sound m o e =
    subst
      (λ (mo : Market × Order).
        IsSettleable one_order (taking_of one_order submission draw mo.0 mo.1)
          (begin one_order 7 state))
      (eq_of_some (sym to_settle_is ∙ e)) is_settleable

settle_submit-Moves_example :
    Moves 20 1
      (charged_for one_order 20 1 submission draw
        (to_settle submission state.db)
        (settle_submit one_order submission draw state).0)
      state.db
      (settle_submit one_order submission draw state).1.db
settle_submit-Moves_example = settle_submit-Moves one_order 20 1 submission draw state sound

live : (o : Order) → find 2 db.orders ≡ some o → o.status ≢ rejected
unfolding find
live o e = subst (λ (p : Order). p.status ≢ rejected) (eq_of_some e) (λ f. opened≢rejected f)
  where
    opened≢rejected : OrderStatus.opened ≡ rejected → ⊥
    opened≢rejected f = cc

settle_cancel-Moves_example :
    Moves 20 2 0 state.db (settle_cancel one_order cancellation draw state).1.db
settle_cancel-Moves_example = settle_cancel-Moves one_order 20 2 cancellation draw state live

-- A limit order whose row has lost its price.
abbrev priceless : State Resting
priceless = state_of (db_of (order 2 20 bid limit none 2 opened ∷ []) []) (some (1, 100, 2))

throws : (settle_submit one_order submission draw priceless).0 ≡ err limit_missing_price
unfolding settle_submit to_settle find get_engine submit_body match_order
throws = refl

abbrev matcher : Matcher Resting
matcher = record { state = state; scheduled = [] }

abbrev messages : List (Option OrderCommand × Draw)
messages = (some (submit submission), draw) ∷ (none, draw) ∷ []

all_sound : AllSound one_order messages matcher
all_sound = (sound, (tt, tt))

is_backed : IsBacked matcher.state.db
is_backed v x = ground arith

handle_all-IsBacked_example : IsBacked (handle_all one_order messages matcher).state.db
handle_all-IsBacked_example = handle_all-IsBacked one_order messages matcher all_sound is_backed
