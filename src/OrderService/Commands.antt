-- ===== src/OrderService/Commands.antt =====
-- The commands that the order service sends: what the matcher finds when it gets them.
use orbit_exchange.Base.{
  ℕ, suc, ◌≡◌, refl, false, [], ◌∷◌, ◌++◌, Option, none, some, ◌==◌, ==-refl, ==-eq, arith, not,
}
use orbit_exchange.Base.Outcome.{
  ok, or_throw-then, throw_if-then, throw_if, ◌>>◌, order_not_found, order_not_active, ok-injective,
}
use mathlib.Core.Path.{subst}
use orbit_exchange.Shared.{
  UserId, OrderId, CommandId, OrderType, limit, market, command, submit, order_commands,
}
use orbit_exchange.Schema.{Market, Order, Db, publish}
use orbit_exchange.Schema.Submits.{submits, submits-publish}
use orbit_exchange.OrderTable.{find, find-append, is_terminal}
use orbit_exchange.Settler.Guards.{to_settle}
use orbit_exchange.Settler.Fill.Matched.{IsTaker}
use orbit_exchange.Settler.Settlement.Gap.{IsPriceOf}
use orbit_exchange.OrderService.Validation.{submit_order-Accepted}
use orbit_exchange.OrderService.{
  CreateOrderDto, submit_order, cancel_order, submit_command, cancel_command, new_order,
  limit_price,
}

pub limit_price-IsPriceOf : (t : OrderType) (p : Option ℕ) → IsPriceOf t (limit_price t p)
limit_price-IsPriceOf limit p = tt
limit_price-IsPriceOf market p = tt

-- An accepted submission, under an id that the table does not have, adds one SUBMIT command to the
-- outbox. With it the matcher finds the row that is answered and its market, and does not pass it
-- over; and the row is active, on its market, and without a price if it is a market order.
pub submit_order-to_settle :
    (u : UserId) (dto : CreateOrderDto) (c : CommandId) (now : ℕ) (db db' : Db) (o : Order)
    → find db.next_order_id db.orders ≡ none
    → submit_order u dto c now db ≡ ok (o, db')
    → (m : Market) × (submits db'.outbox ≡ submits db.outbox ++ submit_command o c now ∷ [])
      × (to_settle (submit_command o c now) db' ≡ some (m, o))
      × IsTaker (record { m = m; taker = o; command_id = c; now = now }) db'
unfolding to_settle publish
submit_order-to_settle u dto c now db db' o fresh h =
    let a = submit_order-Accepted u dto c now db h in
    let row = new_order db.next_order_id u dto c in
    let there : find row.id (db.orders ++ row ∷ []) ≡ some row = find-append db.orders row fresh in
    subst
      (λ (r : Order × Db).
        (m : Market) × (submits r.1.outbox ≡ submits db.outbox ++ submit_command r.0 c now ∷ [])
        × (to_settle (submit_command r.0 c now) r.1 ≡ some (m, r.0))
        × IsTaker (record { m = m; taker = r.0; command_id = c; now = now }) r.1)
      a.result
      (
        a.m,
        submits-publish order_commands row.symbol (command (submit (submit_command row c now)))
            (record db {
              orders = db.orders ++ row ∷ [];
              wallets = a.ws;
              next_order_id = suc db.next_order_id;
            }),
        rw (a.market_found, there, ==-refl c) refl,
        record {
          found = there;
          active = refl;
          on_market = a.market_found;
          priced = limit_price-IsPriceOf dto.type dto.price;
        },
      )

-- A cancellation that is accepted comes from the order's owner, of an order that has not ended; it
-- sends the CANCEL command for it and changes nothing but the outbox.
pub cancel_order-ok :
    (u : UserId) (id : OrderId) (c : CommandId) (now : ℕ) (db db' : Db) (o : Order)
    → cancel_order u id c now db ≡ ok (o, db')
    → (find id db.orders ≡ some o)
      × (o.user_id ≡ u)
      × (is_terminal o.status ≡ false)
      × (db' ≡ publish order_commands o.symbol (command (cancel_command o u c now)) db)
unfolding cancel_order
cancel_order-ok u id c now db db' o h =
    let sent =
      (λ (p : Order). publish order_commands p.symbol (command (cancel_command p u c now)) db) in
    let last = (λ (p : Order). ok (p, sent p)) in
    let live = (λ (p : Order). throw_if (is_terminal p.status) order_not_active >> last p) in
    let (p, found, h₁) =
      or_throw-then (find id db.orders) order_not_found
        (λ p. throw_if (not (p.user_id == u)) order_not_found >> live p) h in
    let (own, h₂) = throw_if-then (not (p.user_id == u)) order_not_found (live p) h₁ in
    let (open_yet, h₃) = throw_if-then (is_terminal p.status) order_not_active (last p) h₂ in
    let out : (p, sent p) ≡ (o, db') = ok-injective h₃ in
    subst
      (λ (r : Order × Db).
        (find id db.orders ≡ some r.0)
        × (r.0.user_id ≡ u)
        × (is_terminal r.0.status ≡ false)
        × (r.1 ≡ publish order_commands r.0.symbol (command (cancel_command r.0 u c now)) db))
      out (found, ==-eq p.user_id u (ground (arith, own)), open_yet, refl)
