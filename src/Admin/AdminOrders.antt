-- ===== src/Admin/AdminOrders.antt =====
-- `AdminOrdersService.forceCancel`: the operator sends the CANCEL command of the order's owner.
use orbit_exchange.Base.{ℕ, ◌≡◌, refl, some, ==-refl}
use orbit_exchange.Base.Outcome.{
  Result, ok, ◌>>=◌, ◌>>◌, throw_if, or_throw, or_throw-then, order_not_found, order_not_active,
}
use orbit_exchange.Shared.{OrderId, CommandId, order_commands, command}
use orbit_exchange.Schema.{Order, Db, publish}
use orbit_exchange.OrderTable.{find, is_terminal}
use orbit_exchange.OrderService.{cancel_order, cancel_command}

pub force_cancel : OrderId → CommandId → ℕ → Db → Result (Order × Db)
unfolding publish
force_cancel id command_id now db = do
  o ← or_throw (find id db.orders) order_not_found
  throw_if (is_terminal o.status) order_not_active
  ok (o, publish order_commands o.symbol (command (cancel_command o o.user_id command_id now)) db)

-- The operator's cancellation of an order does what its owner's does, errors included.
pub force_cancel-cancel_order :
    (id command_id now : ℕ) (db : Db) (o : Order)
    → find id db.orders ≡ some o
    → force_cancel id command_id now db ≡ cancel_order o.user_id id command_id now db
unfolding force_cancel cancel_order
force_cancel-cancel_order id command_id now db o found = rw (found, ==-refl o.user_id) refl

pub force_cancel-found :
    (id command_id now : ℕ) (db db' : Db) (o : Order)
    → force_cancel id command_id now db ≡ ok (o, db')
    → (p : Order) × (find id db.orders ≡ some p) × Unit {0}
unfolding force_cancel
force_cancel-found id command_id now db db' o h =
    let (p, found, _) =
      or_throw-then (find id db.orders) order_not_found
        (λ p.
          throw_if (is_terminal p.status) order_not_active
          >> ok (
            p,
            publish order_commands p.symbol (command (cancel_command p p.user_id command_id now))
                db,
          ))
        h in
    (p, found, tt)
