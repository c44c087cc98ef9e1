-- ===== src/Ledger/Closing.antt =====
-- An order is closed: what it has reserved goes back to the balance, and its row stops reserving.
use orbit_exchange.Base.{ℕ, ◌+◌, ◌≡◌, refl, ap, some, true, false, arith}
use mathlib.Core.Path.{subst}
use orbit_exchange.Base.Int.{pos_part}
use orbit_exchange.Base.Outcome.{ok}
use orbit_exchange.Schema.{Market, Order, Db}
use orbit_exchange.Wallets.{increment, decrement, update_wallet, update_wallet-ok}
use orbit_exchange.Wallets.Supply.{supply, supply-update}
use orbit_exchange.Wallets.Locked.{locked, same, locked-update}
use orbit_exchange.OrderTable.{
  find, find_market, is_active, update_order, update_order-ok, sum_by-update,
}
use orbit_exchange.OrderTable.Reserved.{reserve, reserve_asset, reserves, reserved}
use orbit_exchange.Ledger.{Moves}

-- The wallet has back what the order reserves, and nothing else has changed.
pub record Refunds (v x : ℕ) (m : Market) (o : Order) (db db' : Db) : Type 0 where
  pub unlocked :
      locked v x db'.wallets
        + same o.user_id
            (reserve_asset m o.side)
            v
            x
            (reserve o.side o.price (pos_part o.leave_qty))
      ≡ locked v x db.wallets
  pub supplied : supply x db'.wallets ≡ supply x db.wallets
  pub same_orders : db'.orders ≡ db.orders
  pub same_markets : db'.markets ≡ db.markets

module _ (v x : ℕ) (m : Market) (o : Order) where
  pub update_wallet-Refunds :
      (a n : ℕ) (db db' : Db)
      → reserve_asset m o.side ≡ a
      → reserve o.side o.price (pos_part o.leave_qty) ≡ n
      → update_wallet o.user_id a (increment n) (decrement n) db ≡ ok db'
      → Refunds v x m o db db'
  update_wallet-Refunds a n db db' asset amount h =
      let (ws, wrote, is) = update_wallet-ok o.user_id a (increment n) (decrement n) db db' h in
      subst (Refunds v x m o db) is (record {
        unlocked =
            rw (asset, amount)
              (ground (arith, locked-update v x o.user_id a _ _ db.wallets ws wrote));
        supplied = ground (arith, supply-update x o.user_id a _ _ db.wallets ws wrote);
        same_orders = refl;
        same_markets = refl;
      })

  -- Nothing to give back.
  pub nothing-Refunds :
      (db : Db) → reserve o.side o.price (pos_part o.leave_qty) ≡ 0 → Refunds v x m o db db
  nothing-Refunds db amount = record {
    unlocked = rw amount (ground arith);
    supplied = refl;
    same_orders = refl;
    same_markets = refl;
  }

  pub closing-Moves :
      (f : Order → Order) (db db₁ db₂ : Db)
      → find o.id db.orders ≡ some o
      → is_active o.status ≡ true
      → find_market o.symbol db.markets ≡ some m
      → is_active (f o).status ≡ false
      → Refunds v x m o db db₁
      → update_order o.id f db₁ ≡ ok db₂
      → Moves v x 0 db db₂
  closing-Moves f db db₁ db₂ found active on_market closed r h =
      let (os, put, is) = update_order-ok o.id f db₁ db₂ h in
      let row : find o.id db₁.orders ≡ some o = rw r.same_orders found in
      let gone : reserves db.markets v x (f o) ≡ 0 = rw closed refl in
      let mine : reserves db.markets v x o
          ≡ same o.user_id (reserve_asset m o.side) v x
              (reserve o.side o.price (pos_part o.leave_qty)) =
        rw (active, on_market) refl in
      let exchanged = sum_by-update (reserves db.markets v x) o.id f db₁.orders os o row put in
      subst (Moves v x 0 db) is (record {
        gap = rw r.same_markets (
            omega (
              arith,
              r.unlocked,
              gone,
              mine,
              exchanged,
              ap (reserved db.markets v x) r.same_orders,
            ));
        supplied = omega (arith, r.supplied);
        same_markets = r.same_markets;
      })
