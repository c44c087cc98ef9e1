-- ===== src/Tests/Submitting.antt =====
-- The order service on a BID that its user can pay.
use orbit_exchange.Base.{◌≡◌, refl, none, some, [], ◌∷◌, ◌++◌}
use orbit_exchange.Base.Int.{pos}
use orbit_exchange.Base.Outcome.{ok}
use orbit_exchange.Shared.{bid, limit, opened, command, submit, order_commands}
use orbit_exchange.Schema.{Market, Order, Db, publish, Wallet}
use orbit_exchange.Schema.Submits.{submits}
use orbit_exchange.Ledger.{Moves}
use orbit_exchange.OrderTable.{find}
use orbit_exchange.Wallets.{atomic_lock}
use orbit_exchange.Settler.Guards.{to_settle}
use orbit_exchange.Settler.Fill.Matched.{IsTaker}
use orbit_exchange.OrderService.{submit_order, validate_tick_step, lock_reservation, submit_command}
use orbit_exchange.OrderService.Validation.{IsSound, submit_order-IsSound}
use orbit_exchange.OrderService.Reservation.{submit_order-Moves}
use orbit_exchange.OrderService.Commands.{submit_order-to_settle}
use orbit_exchange.Tests.Fixtures.{funded, request, sale}

-- The row of the accepted order, and the database with it.
abbrev pub placed : Order
placed = record {
  id = 3;
  user_id = 20;
  symbol = 7;
  side = bid;
  type = limit;
  price = some 101;
  quantity = 2;
  leave_qty = pos 2;
  filled_qty = pos 0;
  status = opened;
  command_id = some 9;
}

abbrev paid : Wallet
paid = record { user_id = 20; asset = 2; balance = 980000; locked = 2020000 }

abbrev seller : Wallet
seller = record { user_id = 10; asset = 1; balance = 0; locked = 20000 }

abbrev pub after : Db
after =
    publish order_commands 7 (command (submit (submit_command placed 9 5))) (record funded {
      orders = sale ∷ placed ∷ [];
      wallets = seller ∷ paid ∷ [];
      next_order_id = 4;
    })

pub accepted : submit_order 20 request 9 5 funded ≡ ok (placed, after)
unfolding submit_order validate_tick_step lock_reservation atomic_lock publish
accepted = refl

fresh : find funded.next_order_id funded.orders ≡ none
unfolding find
fresh = refl

submit_order-IsSound_example : IsSound 20 request funded
submit_order-IsSound_example = submit_order-IsSound 20 request 9 5 funded accepted

submit_order-Moves_example : Moves 20 2 0 funded after
submit_order-Moves_example = submit_order-Moves 20 2 20 request 9 5 funded after placed accepted

submit_order-to_settle_example :
    (m : Market) × (submits after.outbox ≡ submits funded.outbox ++ submit_command placed 9 5 ∷ [])
    × (to_settle (submit_command placed 9 5) after ≡ some (m, placed))
    × IsTaker (record { m = m; taker = placed; command_id = 9; now = 5 }) after
submit_order-to_settle_example =
    submit_order-to_settle 20 request 9 5 funded after placed fresh accepted
