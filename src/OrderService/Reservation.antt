-- ===== src/OrderService/Reservation.antt =====
-- A submission keeps the wallets' locked amounts in step with the orders' reservations.
use mathlib.Core.Path.{subst}
use orbit_exchange.Ledger.{Moves}
use orbit_exchange.OrderTable.{find_market}
use orbit_exchange.Base.{
  ℕ, ◌+◌, ◌≡◌, refl, Option, none, some, List, ◌++◌, ◌∷◌, [], arith, sum_by-append,
}
use orbit_exchange.Base.Outcome.{ok}
use orbit_exchange.Shared.{OrderSide, bid, ask, OrderType, limit, market}
use orbit_exchange.Schema.{Wallet, Market, Order, Db, publish}
use orbit_exchange.Wallets.Supply.{supply, supply-atomic_lock}
use orbit_exchange.Wallets.Locked.{locked, same, locked-atomic_lock}
use orbit_exchange.OrderTable.Reserved.{reserved, reserves, reserve, reserve_asset}
use orbit_exchange.OrderService.Validation.{submit_order-Accepted}
use orbit_exchange.OrderService.{
  CreateOrderDto, lock_reservation, limit_price, submit_order, new_order,
}

-- What `lockReservation` locks is what an order of that side and price reserves.
pub locked-lock_reservation :
    (v x u : ℕ) (m : Market) (s : OrderSide) (t : OrderType) (qty : ℕ) (p : Option ℕ)
    (ws ws' : List Wallet)
    → lock_reservation u m s t qty (limit_price t p) ws ≡ ok ws'
    → locked v x ws'
      ≡ locked v x ws + same u (reserve_asset m s) v x (reserve s (limit_price t p) qty)
unfolding lock_reservation
locked-lock_reservation v x u m bid limit qty none ws ws' h = cc
locked-lock_reservation v x u m bid limit qty (some p) ws ws' h =
    locked-atomic_lock v x u _ _ ws ws' h
locked-lock_reservation v x u m bid market qty p ws ws' h = ground arith
locked-lock_reservation v x u m ask t qty p ws ws' h = locked-atomic_lock v x u _ _ ws ws' h

supply-lock_reservation :
    (x u : ℕ) (m : Market) (s : OrderSide) (t : OrderType) (qty : ℕ) (p : Option ℕ)
    (ws ws' : List Wallet)
    → lock_reservation u m s t qty p ws ≡ ok ws'
    → supply x ws' ≡ supply x ws
unfolding lock_reservation
supply-lock_reservation x u m bid limit qty none ws ws' h = cc
supply-lock_reservation x u m bid limit qty (some p) ws ws' h = supply-atomic_lock x u _ _ ws ws' h
supply-lock_reservation x u m bid market qty p ws ws' h = ground arith
supply-lock_reservation x u m ask t qty p ws ws' h = supply-atomic_lock x u _ _ ws ws' h

-- The new row's share is what its side, price and quantity reserve on its market.
reserved-new_order :
    (v x u : ℕ) (dto : CreateOrderDto) (c id : ℕ) (ms : List Market) (m : Market) (os : List Order)
    → find_market dto.symbol ms ≡ some m
    → reserved ms v x (os ++ new_order id u dto c ∷ [])
      ≡ reserved ms v x os
        + same u
            (reserve_asset m dto.side)
            v
            x
            (reserve dto.side (limit_price dto.type dto.price) dto.quantity)
reserved-new_order v x u dto c id ms m os e =
    rw (sum_by-append (reserves ms v x) os (new_order id u dto c ∷ []), e) (omega arith)

-- The gap between what a user has locked and what the orders reserve is not changed by an accepted
-- submission: the locked amount grows by the new order's reservation.
submit_order-gap :
    (v x u : ℕ) (dto : CreateOrderDto) (c now : ℕ) (db db' : Db) (o : Order)
    → submit_order u dto c now db ≡ ok (o, db')
    → locked v x db'.wallets + reserved db.markets v x db.orders
      ≡ locked v x db.wallets + reserved db'.markets v x db'.orders
unfolding publish
submit_order-gap v x u dto c now db db' o h =
    let a = submit_order-Accepted u dto c now db h in
    subst
      (λ (r : Order × Db).
        locked v x r.1.wallets + reserved db.markets v x db.orders
        ≡ locked v x db.wallets + reserved r.1.markets v x r.1.orders)
      a.result
      (omega (
        arith,
        reserved-new_order v x u dto c db.next_order_id db.markets a.m db.orders a.market_found,
        locked-lock_reservation v x u a.m dto.side dto.type dto.quantity dto.price db.wallets a.ws
            a.reserved,
      ))

-- A submission moves funds within wallets: the supply of each asset stays.
submit_order-supply :
    (x u : ℕ) (dto : CreateOrderDto) (c now : ℕ) (db db' : Db) (o : Order)
    → submit_order u dto c now db ≡ ok (o, db')
    → supply x db'.wallets ≡ supply x db.wallets
unfolding publish
submit_order-supply x u dto c now db db' o h =
    let a = submit_order-Accepted u dto c now db h in
    subst (λ (r : Order × Db). supply x r.1.wallets ≡ supply x db.wallets) a.result
      (supply-lock_reservation x u a.m dto.side dto.type dto.quantity _ db.wallets a.ws a.reserved)

submit_order-same_markets :
    (u : ℕ) (dto : CreateOrderDto) (c now : ℕ) (db db' : Db) (o : Order)
    → submit_order u dto c now db ≡ ok (o, db')
    → db'.markets ≡ db.markets
unfolding publish
submit_order-same_markets u dto c now db db' o h =
    subst (λ (r : Order × Db). r.1.markets ≡ db.markets)
      (submit_order-Accepted u dto c now db h).result refl

-- An accepted submission locks, of its user and asset, exactly what the new order reserves, so that
-- the gap between locked amounts and reservations stays for every user and asset; and it moves
-- funds within wallets, so that the supply of every asset stays.
pub submit_order-Moves :
    (v x u : ℕ) (dto : CreateOrderDto) (c now : ℕ) (db db' : Db) (o : Order)
    → submit_order u dto c now db ≡ ok (o, db')
    → Moves v x 0 db db'
submit_order-Moves v x u dto c now db db' o h = record {
  gap = submit_order-gap v x u dto c now db db' o h;
  supplied = omega (arith, submit_order-supply x u dto c now db db' o h);
  same_markets = submit_order-same_markets u dto c now db db' o h;
}
