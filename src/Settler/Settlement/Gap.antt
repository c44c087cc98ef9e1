-- ===== src/Settler/Settlement/Gap.antt =====
-- What a trade does to the locked amounts and to the orders' reservations.
use orbit_exchange.Base.{
  ℕ, ◌+◌, ◌≡◌, ◌≤◌, Option, none, some, List, arith, on, ◌==◌, true, Bool, ◌&&◌, if◌then◌else◌,
}
use orbit_exchange.Base.Int.{ℤ, pos, ◌-ℤ◌, pos_part, is_positive, pos_part-sub}
use orbit_exchange.Base.Outcome.{ok, >>=-eq-ok, ◌>>=◌}
use orbit_exchange.Shared.{OrderSide, bid, ask, OrderType, limit, market, partial, filled}
use orbit_exchange.Schema.{Wallet, Market, Order, Trade, Db, base_amount, quote_amount}
use orbit_exchange.Engine.{EngineTrade}
use orbit_exchange.Wallets.Locked.{locked, same, locked-update, locked-credit}
use orbit_exchange.OrderTable.{find, find_market, is_active, sum_by-update}
use orbit_exchange.OrderTable.Reserved.{
  reserve, reserve-add, reserve-zero, reserve_asset, reserves, reserved,
}
use orbit_exchange.Settler.Settlement.{
  sell, buy_reserved, pay_balance, receive_base, settle_maker, settle_taker, settle_rows,
  fill_maker, status_after, matched,
}
use orbit_exchange.Settler.Settlement.Rows.{settle_rows-Settled}

module _ (v x : ℕ) (o : Order) (m : Market) (fee_bp price qty : ℕ) (ws ws' : List Wallet) where
  locked-sell :
      sell o m fee_bp price qty ws ≡ ok ws'
      → locked v x ws' + same o.user_id m.base_asset v x (base_amount qty) ≡ locked v x ws
  locked-sell h =
      let (ws₁, h₁, h₂) = >>=-eq-ok _ _ h in
      ground (arith, locked-update v x _ _ _ _ ws ws₁ h₁, locked-credit v x _ _ _ ws₁ ws' h₂)

  locked-buy_reserved :
      (p : ℕ)
      → buy_reserved o m fee_bp p price qty ws ≡ ok ws'
      → locked v x ws' + same o.user_id m.quote_asset v x (quote_amount p qty) ≡ locked v x ws
  locked-buy_reserved p h =
      let (ws₁, h₁, h₂) = >>=-eq-ok _ _ h in
      ground (arith, locked-update v x _ _ _ _ ws ws₁ h₁, locked-credit v x _ _ _ ws₁ ws' h₂)

  locked-buy_balance :
      (pay_balance o m price qty ws >>= receive_base o m fee_bp qty) ≡ ok ws'
      → locked v x ws' ≡ locked v x ws
  locked-buy_balance h =
      let (ws₁, h₁, h₂) = >>=-eq-ok _ _ h in
      ground (arith, locked-update v x _ _ _ _ ws ws₁ h₁, locked-credit v x _ _ _ ws₁ ws' h₂)

-- A market order has no price.
abbrev pub IsPriceOf : OrderType → Option ℕ → Type 0
IsPriceOf limit p = Unit {0}
IsPriceOf market none = Unit {0}
IsPriceOf market (some p) = ⊥

-- A side of a trade releases from the user's locked amount what its order reserves for the
-- quantity.
abbrev pub released : ℕ → ℕ → Market → Order → ℕ → ℕ
released v x m o qty = same o.user_id (reserve_asset m o.side) v x (reserve o.side o.price qty)

module _ (v x : ℕ) (o : Order) (m : Market) (price qty : ℕ) where
  locked-settle_maker :
      (s : OrderSide) (p : Option ℕ) (ws ws' : List Wallet)
      → settle_maker m o s p price qty ws ≡ ok ws'
      → locked v x ws' + same o.user_id (reserve_asset m s) v x (reserve s p qty) ≡ locked v x ws
  unfolding settle_maker
  locked-settle_maker ask p ws ws' h = locked-sell v x o m m.maker_fee_bp price qty ws ws' h
  locked-settle_maker bid none ws ws' h = cc
  locked-settle_maker bid (some p) ws ws' h =
      locked-buy_reserved v x o m m.maker_fee_bp price qty ws ws' p h

  locked-settle_taker :
      (s : OrderSide) (t : OrderType) (p : Option ℕ) (ws ws' : List Wallet)
      → IsPriceOf t p
      → settle_taker m o s t p price qty ws ≡ ok ws'
      → locked v x ws' + same o.user_id (reserve_asset m s) v x (reserve s p qty) ≡ locked v x ws
  unfolding settle_taker
  locked-settle_taker ask t p ws ws' i h = locked-sell v x o m m.taker_fee_bp price qty ws ws' h
  locked-settle_taker bid limit (some p) ws ws' i h =
      locked-buy_reserved v x o m m.taker_fee_bp price qty ws ws' p h
  locked-settle_taker bid limit none ws ws' i h =
      let e = locked-buy_balance v x o m m.taker_fee_bp price qty ws ws' h in ground (arith, e)
  locked-settle_taker bid market none ws ws' i h =
      let e = locked-buy_balance v x o m m.taker_fee_bp price qty ws ws' h in ground (arith, e)
  locked-settle_taker bid market (some p) ws ws' i h = absurd i

-- A row of the Order table that a trade of this quantity on this market can fill.
pub record IsFillable (ms : List Market) (m : Market) (o : Order) (qty : ℕ) : Type 0 where
  pub on_market : find_market o.symbol ms ≡ some m
  pub active : is_active o.status ≡ true
  pub enough : qty ≤ pos_part o.leave_qty

-- What is left decides the status, and an order with nothing left reserves nothing.
pub share_of_left :
    (b : Bool) (s : OrderSide) (p : Option ℕ) (l : ℤ)
    → on (is_active (if is_positive l then partial else filled)) (on b (reserve s p (pos_part l)))
      ≡ on b (reserve s p (pos_part l))
share_of_left b bid none l = ground arith
share_of_left b bid (some p) l = ground arith
share_of_left b ask p l = ground arith

share_of_rest :
    (b : Bool) (s : OrderSide) (p : Option ℕ) (l : ℕ) (f : ℤ)
    → on (is_active (status_after l f)) (on b (reserve s p l)) ≡ on b (reserve s p l)
share_of_rest b bid none l f = ground arith
share_of_rest b bid (some p) l f = ground arith
share_of_rest b ask p l f = ground arith

-- So does settling the taker's row, for all its trades.
pub reserves-matched :
    (ms : List Market) (v x : ℕ) (m : Market) (o : Order) (leave original qty : ℕ)
    → find_market o.symbol ms ≡ some m
    → is_active o.status ≡ true
    → qty + leave ≡ pos_part o.leave_qty
    → reserves ms v x (matched leave original o) + released v x m o qty ≡ reserves ms v x o
reserves-matched ms v x m o leave original qty on_market active e =
    let b : Bool = o.user_id == v && reserve_asset m o.side == x in
    rw (on_market, active, share_of_rest b o.side o.price leave, ← e, reserve-add) (ground arith)

-- Filling a maker takes from its share what the trade releases.
reserves-fill_maker :
    (ms : List Market) (v x : ℕ) (m : Market) (o : Order) (qty : ℕ)
    → IsFillable ms m o qty
    → reserves ms v x (fill_maker qty o) + released v x m o qty ≡ reserves ms v x o
reserves-fill_maker ms v x m o qty f =
    let l : ℤ = o.leave_qty -ℤ pos qty in
    let b : Bool = o.user_id == v && reserve_asset m o.side == x in
    let e : pos_part l + qty ≡ pos_part o.leave_qty = pos_part-sub o.leave_qty qty f.enough in
    rw (f.on_market, f.active, share_of_left b o.side o.price l, ← e, reserve-add) (ground arith)

-- What a trade releases for the taker: its own row is settled after the last trade.
pub gap-settle_rows :
    (v x : ℕ) (m : Market) (taker maker : Order) (t : EngineTrade) (row : Trade) (db db' : Db)
    → find maker.id db.orders ≡ some maker
    → IsFillable db.markets m maker t.trade_quantity
    → IsPriceOf taker.type taker.price
    → settle_rows m taker maker t row db ≡ ok db'
    → locked v x db'.wallets
        + released v x m taker t.trade_quantity
        + reserved db.markets v x db.orders
      ≡ locked v x db.wallets + reserved db.markets v x db'.orders
gap-settle_rows v x m taker maker t row db db' found f priced h =
    let d = settle_rows-Settled m taker maker t row db db' h in
    omega (
      arith,
      locked-settle_maker v x maker m _ _ maker.side maker.price db.wallets d.ws d.made,
      locked-settle_taker v x taker m _ _ taker.side taker.type taker.price d.ws db'.wallets priced
          d.took,
      sum_by-update (reserves db.markets v x) maker.id _ db.orders db'.orders maker found d.filled,
      reserves-fill_maker db.markets v x m maker t.trade_quantity f,
    )

pub released-add :
    (v x : ℕ) (m : Market) (o : Order) (a b : ℕ)
    → released v x m o (a + b) ≡ released v x m o a + released v x m o b
released-add v x m o a b = ground (arith, reserve-add o.side o.price a b)

pub released-zero : (v x : ℕ) (m : Market) (o : Order) → released v x m o 0 ≡ 0
released-zero v x m o = ground (arith, reserve-zero o.side o.price)
