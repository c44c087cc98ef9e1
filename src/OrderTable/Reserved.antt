-- ===== src/OrderTable/Reserved.antt =====
-- What the orders have reserved: the amount that an active order keeps locked in a wallet.
use orbit_exchange.Base.{◌+◌, ◌≡◌, refl, arith, ℕ, ◌&&◌, List, Option, none, some, ◌==◌, on, sum_by}
use orbit_exchange.Base.Int.{pos_part}
use orbit_exchange.Shared.{UserId, AssetId, OrderSide, bid, ask}
use orbit_exchange.Schema.{Order, Market, base_amount, quote_amount}
use orbit_exchange.OrderTable.{is_active, find_market}

-- What an order of this side and price keeps locked for a quantity: its price times the quantity
-- for a limit BID, the quantity itself for an ASK, nothing for a market BID.
abbrev pub reserve : OrderSide → Option ℕ → ℕ → ℕ
reserve bid (some price) qty = quote_amount price qty
reserve bid none qty = 0
reserve ask price qty = base_amount qty

abbrev pub reserve_asset : Market → OrderSide → AssetId
reserve_asset m bid = m.quote_asset
reserve_asset m ask = m.base_asset

pub reserve-add :
    (s : OrderSide) (p : Option ℕ) (a b : ℕ) → reserve s p (a + b) ≡ reserve s p a + reserve s p b
reserve-add bid none a b = omega arith
reserve-add bid (some p) a b = omega arith
reserve-add ask p a b = omega arith

pub reserve-zero : (s : OrderSide) (p : Option ℕ) → reserve s p 0 ≡ 0
reserve-zero bid none = refl
reserve-zero bid (some p) = omega arith
reserve-zero ask p = refl

-- What the order keeps locked of this asset of this user, on its market.
abbrev pub share : Option Market → UserId → AssetId → Order → ℕ
share none v x o = 0
share (some m) v x o =
    on (o.user_id == v && reserve_asset m o.side == x)
      (reserve o.side o.price (pos_part o.leave_qty))

abbrev pub reserves : List Market → UserId → AssetId → Order → ℕ
reserves ms v x o = on (is_active o.status) (share (find_market o.symbol ms) v x o)

-- Over all orders of all markets.
abbrev pub reserved : List Market → UserId → AssetId → List Order → ℕ
reserved ms v x = sum_by (reserves ms v x)
