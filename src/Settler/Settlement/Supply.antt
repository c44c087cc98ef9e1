-- ===== src/Settler/Settlement/Supply.antt =====
-- What a trade does to the supply of each asset.
use orbit_exchange.Base.{ℕ, ◌+◌, ◌*◌, ◌≡◌, Option, none, some, List, arith, on, ◌==◌}
use orbit_exchange.Base.Outcome.{ok, ◌>>=◌, >>=-eq-ok}
use orbit_exchange.Shared.{OrderSide, bid, ask, opposite, OrderType, limit, market}
use orbit_exchange.Schema.{Wallet, Market, Order, Trade, Db, base_amount, quote_amount}
use orbit_exchange.Engine.{EngineTrade}
use orbit_exchange.Wallets.Supply.{supply, supply-update, supply-credit}
use orbit_exchange.Settler.Settlement.Rows.{settle_rows-Settled}
use orbit_exchange.Settler.Settlement.{
  sell, buy_reserved, pay_balance, receive_base, settle_maker, settle_taker, settle_rows,
}

module _ (x : ℕ) (o : Order) (m : Market) (fee_bp price qty : ℕ) (ws ws' : List Wallet) where
  supply-sell :
      sell o m fee_bp price qty ws ≡ ok ws'
      → supply x ws'
          + on (m.base_asset == x) (base_amount qty)
          + on (m.quote_asset == x) (fee_bp * (price * qty))
        ≡ supply x ws + on (m.quote_asset == x) (quote_amount price qty)
  supply-sell h =
      let (ws₁, h₁, h₂) = >>=-eq-ok _ _ h in
      ground (arith, supply-update x _ _ _ _ ws ws₁ h₁, supply-credit x _ _ _ ws₁ ws' h₂)

  supply-buy_reserved :
      (p : ℕ)
      → buy_reserved o m fee_bp p price qty ws ≡ ok ws'
      → supply x ws'
          + on (m.quote_asset == x) (quote_amount price qty)
          + on (m.base_asset == x) (fee_bp * qty)
        ≡ supply x ws + on (m.base_asset == x) (base_amount qty)
  supply-buy_reserved p h =
      let (ws₁, h₁, h₂) = >>=-eq-ok _ _ h in
      ground (arith, supply-update x _ _ _ _ ws ws₁ h₁, supply-credit x _ _ _ ws₁ ws' h₂)

  supply-buy_balance :
      (pay_balance o m price qty ws >>= receive_base o m fee_bp qty) ≡ ok ws'
      → supply x ws'
          + on (m.quote_asset == x) (quote_amount price qty)
          + on (m.base_asset == x) (fee_bp * qty)
        ≡ supply x ws + on (m.base_asset == x) (base_amount qty)
  supply-buy_balance h =
      let (ws₁, h₁, h₂) = >>=-eq-ok _ _ h in
      ground (arith, supply-update x _ _ _ _ ws ws₁ h₁, supply-credit x _ _ _ ws₁ ws' h₂)

module _ (x : ℕ) (m : Market) where
  -- What a side of a trade gives, what it takes, and the fee withheld from what it takes.
  abbrev pub given : OrderSide → ℕ → ℕ → ℕ
  given bid price qty = on (m.quote_asset == x) (quote_amount price qty)
  given ask price qty = on (m.base_asset == x) (base_amount qty)

  abbrev pub taken : OrderSide → ℕ → ℕ → ℕ
  taken bid price qty = on (m.base_asset == x) (base_amount qty)
  taken ask price qty = on (m.quote_asset == x) (quote_amount price qty)

  abbrev pub fee : OrderSide → ℕ → ℕ → ℕ → ℕ
  fee bid fee_bp price qty = on (m.base_asset == x) (fee_bp * qty)
  fee ask fee_bp price qty = on (m.quote_asset == x) (fee_bp * (price * qty))

  given-taken :
      (s t : OrderSide) (price qty : ℕ)
      → s ≡ opposite t
      → given s price qty + given t price qty ≡ taken s price qty + taken t price qty
  given-taken bid bid price qty h = cc
  given-taken bid ask price qty h = omega arith
  given-taken ask bid price qty h = omega arith
  given-taken ask ask price qty h = cc

module _ (x : ℕ) (o : Order) (m : Market) (price qty : ℕ) where
  supply-settle_maker :
      (s : OrderSide) (p : Option ℕ) (ws ws' : List Wallet)
      → settle_maker m o s p price qty ws ≡ ok ws'
      → supply x ws' + given x m s price qty + fee x m s m.maker_fee_bp price qty
        ≡ supply x ws + taken x m s price qty
  unfolding settle_maker
  supply-settle_maker ask p ws ws' h = supply-sell x o m m.maker_fee_bp price qty ws ws' h
  supply-settle_maker bid none ws ws' h = cc
  supply-settle_maker bid (some p) ws ws' h =
      supply-buy_reserved x o m m.maker_fee_bp price qty ws ws' p h

  supply-settle_taker :
      (s : OrderSide) (t : OrderType) (p : Option ℕ) (ws ws' : List Wallet)
      → settle_taker m o s t p price qty ws ≡ ok ws'
      → supply x ws' + given x m s price qty + fee x m s m.taker_fee_bp price qty
        ≡ supply x ws + taken x m s price qty
  unfolding settle_taker
  supply-settle_taker ask t p ws ws' h = supply-sell x o m m.taker_fee_bp price qty ws ws' h
  supply-settle_taker bid limit (some p) ws ws' h =
      supply-buy_reserved x o m m.taker_fee_bp price qty ws ws' p h
  supply-settle_taker bid limit none ws ws' h =
      supply-buy_balance x o m m.taker_fee_bp price qty ws ws' h
  supply-settle_taker bid market p ws ws' h =
      supply-buy_balance x o m m.taker_fee_bp price qty ws ws' h

-- A trade between opposite sides moves the quantity and the price between the two users, and takes
-- from the supply exactly the two fees: the buyer's in the base asset, the seller's in the quote
-- asset.
pub supply-settle_rows :
    (x : ℕ) (m : Market) (taker maker : Order) (t : EngineTrade) (row : Trade) (db db' : Db)
    → maker.side ≡ opposite taker.side
    → settle_rows m taker maker t row db ≡ ok db'
    → supply x db'.wallets
        + fee x m maker.side m.maker_fee_bp t.trade_price t.trade_quantity
        + fee x m taker.side m.taker_fee_bp t.trade_price t.trade_quantity
      ≡ supply x db.wallets
supply-settle_rows x m taker maker t row db db' sides h =
    let d = settle_rows-Settled m taker maker t row db db' h in
    omega (
      arith,
      supply-settle_maker x maker m _ _ maker.side maker.price db.wallets d.ws d.made,
      supply-settle_taker x taker m _ _ taker.side taker.type taker.price d.ws db'.wallets d.took,
      given-taken x m maker.side taker.side t.trade_price t.trade_quantity sides,
    )
