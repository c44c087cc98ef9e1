-- ===== src/System/Preserved.antt =====
-- Every step keeps the database consistent.
use orbit_exchange.Base.{
  ℕ, suc, ◌≡◌, refl, sym, ◌∙◌, ap, List, [], ◌∷◌, ◌++◌, some, Bool, Bool-cases, ◌==◌, inl, inr,
  arith, Every, Every-map, Every-append,
}
use orbit_exchange.Base.Outcome.{ok}
use mathlib.Core.Path.{subst}
use orbit_exchange.Shared.{UserId, CommandId, OrderSubmitCommand, command, submit, order_commands}
use orbit_exchange.Schema.{OutboxEvent, Market, Order, Db, publish}
use orbit_exchange.Schema.Submits.{submits, submits-publish, submits-publish_event}
use orbit_exchange.Ledger.{Moves-IsBacked, IsBacked}
use orbit_exchange.OrderTable.{find, find-append}
use orbit_exchange.OrderService.{
  CreateOrderDto, submit_order, new_order, submit_command, cancel_order, cancel_command,
}
use orbit_exchange.OrderService.Validation.{submit_order-Accepted}
use orbit_exchange.OrderService.Reservation.{submit_order-Moves}
use orbit_exchange.OrderService.Commands.{limit_price-IsPriceOf, cancel_order-ok}
use orbit_exchange.Admin.AdminOrders.{force_cancel, force_cancel-found, force_cancel-cancel_order}
use orbit_exchange.Admin.AdminUsers.{set_frozen, set_frozen-users}
use orbit_exchange.Admin.AdminMarkets.{
  MarketUpdateInput, update_market, update_market-ok, reserved-update_markets,
}
use orbit_exchange.System.Consistent.{IsPlaced, IsSent, IsConsistent, find-next}

-- A row that was found stays found when another one is added.
find-append_some :
    (i : ℕ) (os : List Order) (o p : Order) → find i os ≡ some p → find i (os ++ o ∷ []) ≡ some p
unfolding find
find-append_some i [] o p h = cc
find-append_some i (x ∷ os) o p h = elim (Bool-cases (x.id == i)) [
  | inl e ↦ rw e (rw e at h)
  | inr e ↦ rw e (find-append_some i os o p (rw e at h))
]

IsSent-append :
    (os : List Order) (o : Order) (c : OrderSubmitCommand) → IsSent os c → IsSent (os ++ o ∷ []) c
IsSent-append os o c i = record {
  row = i.row;
  found = find-append_some c.order_id os o i.row i.found;
  same_symbol = i.same_symbol;
}

IsPlaced-suc : (next : ℕ) (o : Order) → IsPlaced next o → IsPlaced (suc next) o
IsPlaced-suc next o i = record {
  below = omega (arith, i.below);
  live = i.live;
  priced = i.priced;
  balanced = i.balanced;
}

new_order-IsPlaced :
    (id u : ℕ) (dto : CreateOrderDto) (c : CommandId) → IsPlaced (suc id) (new_order id u dto c)
new_order-IsPlaced id u dto c = record {
  below = omega arith;
  live = refl;
  priced = limit_price-IsPriceOf dto.type dto.price;
  balanced = omega arith;
}

-- The new row takes the next id, so that the command that is sent with it finds it.
pub submit_order-IsConsistent :
    (u : UserId) (dto : CreateOrderDto) (c : CommandId) (now : ℕ) (db db' : Db) (o : Order)
    → submit_order u dto c now db ≡ ok (o, db')
    → IsConsistent db
    → IsConsistent db'
unfolding publish
submit_order-IsConsistent u dto c now db db' o h i =
    let a = submit_order-Accepted u dto c now db h in
    let row = new_order db.next_order_id u dto c in
    let os' : List Order = db.orders ++ row ∷ [] in
    let fresh = find-next db.next_order_id db.orders i.placed in
    let mine : IsSent os' (submit_command row c now) = record {
      row = row;
      found = find-append db.orders row fresh;
      same_symbol = refl;
    } in
    let backed =
      Moves-IsBacked (λ _. 0) (λ v x. submit_order-Moves v x u dto c now db db' o h) i.backed in
    subst IsConsistent (ap (λ r. r.1) a.result) (record {
      backed = subst IsBacked (sym (ap (λ r. r.1) a.result)) backed;
      placed =
          Every-append (IsPlaced (suc db.next_order_id)) db.orders (row ∷ [])
            (Every-map (IsPlaced-suc db.next_order_id) db.orders i.placed)
            (new_order-IsPlaced db.next_order_id u dto c, tt);
      sent =
          subst (Every (IsSent os'))
            (sym (
              submits-publish order_commands dto.symbol
                (command (submit (submit_command row c now))) (record db { orders = os' })))
            (Every-append (IsSent os') (submits db.outbox) (submit_command row c now ∷ [])
              (Every-map (IsSent-append db.orders row) (submits db.outbox) i.sent) (mine, tt));
    })

-- Marks on the outbox's rows.
pub marks-IsConsistent :
    (db : Db) (evs : List OutboxEvent)
    → submits evs ≡ submits db.outbox
    → IsConsistent db
    → IsConsistent (record db { outbox = evs })
marks-IsConsistent db evs same i = record {
  backed = i.backed;
  placed = i.placed;
  sent = subst (Every (IsSent db.orders)) (sym same) i.sent;
}

-- A command that cancels adds itself to the outbox, and nothing else.
cancels-IsConsistent :
    (o : Order) (u c now : ℕ) (db : Db)
    → IsConsistent db
    → IsConsistent (publish order_commands o.symbol (command (cancel_command o u c now)) db)
unfolding publish
cancels-IsConsistent o u c now db i =
    let sent = command (cancel_command o u c now) in
    record {
      backed = i.backed;
      placed = i.placed;
      sent =
          subst (Every (IsSent db.orders))
            (sym (submits-publish_event order_commands o.symbol sent db refl)) i.sent;
    }

pub cancel_order-IsConsistent :
    (u id c now : ℕ) (db db' : Db) (o : Order)
    → cancel_order u id c now db ≡ ok (o, db')
    → IsConsistent db
    → IsConsistent db'
cancel_order-IsConsistent u id c now db db' o h i =
    let (found, own, live, is) = cancel_order-ok u id c now db db' o h in
    subst IsConsistent (sym is) (cancels-IsConsistent o u c now db i)

pub force_cancel-IsConsistent :
    (id c now : ℕ) (db db' : Db) (o : Order)
    → force_cancel id c now db ≡ ok (o, db')
    → IsConsistent db
    → IsConsistent db'
force_cancel-IsConsistent id c now db db' o h i =
    let (p, found, _) = force_cancel-found id c now db db' o h in
    cancel_order-IsConsistent p.user_id id c now db db' o
      (sym (force_cancel-cancel_order id c now db p found) ∙ h) i

-- Accounts and terms of markets.
pub set_frozen-IsConsistent :
    (id : ℕ) (frozen : Bool) (db db' : Db)
    → set_frozen id frozen db ≡ ok db'
    → IsConsistent db
    → IsConsistent db'
set_frozen-IsConsistent id frozen db db' h i =
    subst IsConsistent (set_frozen-users id frozen db db' h)
      (record { backed = i.backed; placed = i.placed; sent = i.sent })

pub update_market-IsConsistent :
    (symbol : ℕ) (input : MarketUpdateInput) (db db' : Db) (m : Market × Market)
    → update_market symbol input db ≡ ok (m, db')
    → IsConsistent db
    → IsConsistent db'
update_market-IsConsistent symbol input db db' m h i =
    subst IsConsistent (sym (update_market-ok symbol input db db' m h)) (record {
      backed =
          λ v x. i.backed v x ∙ sym (reserved-update_markets input symbol db.markets v x db.orders);
      placed = i.placed;
      sent = i.sent;
    })
