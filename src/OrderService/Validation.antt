-- ===== src/OrderService/Validation.antt =====
-- What an accepted order has passed.
use orbit_exchange.Base.{
  ℕ, ◌≡◌, refl, ◌≤◌, ◌*◌, ◌<◌, ◌≢◌, ◌%◌, true, false, not, List, Option, some, none, arith, leb,
  ◌==◌, find_if,
}
use orbit_exchange.Base.Outcome.{ok, >>=-eq-ok, throw_if-then, or_throw-then, ok-injective}
use orbit_exchange.Shared.{UserId, CommandId, OrderType, limit, market}
use orbit_exchange.Schema.{User, Wallet, Market, Order, Db}
use orbit_exchange.OrderTable.{find_market}
use orbit_exchange.OrderService.{
  CreateOrderDto, limit_price, limit_price_not_positive, validate_tick_step, validate_price,
  lock_reservation, create_order, submit_order,
}

-- The facts that `submit_order` has checked when it returns, and what it returns.
pub record Accepted (u : UserId) (dto : CreateOrderDto) (c : CommandId) (now : ℕ) (db : Db)
    (o : Order) (db' : Db) : Type 0 where
  pub user : User
  pub m : Market
  pub ws : List Wallet
  pub user_found : find_if (λ x. x.id == u) db.users ≡ some user
  pub not_frozen : user.frozen ≡ false
  pub market_found : find_market dto.symbol db.markets ≡ some m
  pub enabled : not m.enabled ≡ false
  pub valid : validate_tick_step dto m ≡ ok tt
  pub quantity_positive : leb dto.quantity 0 ≡ false
  pub price_positive : limit_price_not_positive dto.type dto.price ≡ false
  pub reserved :
      lock_reservation u m dto.side dto.type dto.quantity
        (limit_price dto.type dto.price)
        db.wallets
      ≡ ok ws
  pub result : create_order u dto c now ws db ≡ (o, db')

pub submit_order-Accepted :
    (u : UserId) (dto : CreateOrderDto) (c : CommandId) (now : ℕ) (db : Db) {o : Order} {db' : Db}
    → submit_order u dto c now db ≡ ok (o, db')
    → Accepted u dto c now db o db'
unfolding submit_order
submit_order-Accepted u dto c now db h =
    let (user, user_found, h₁) = or_throw-then _ _ _ h in
    let (not_frozen, h₂) = throw_if-then _ _ _ h₁ in
    let (m, market_found, h₃) = or_throw-then _ _ _ h₂ in
    let (enabled, h₄) = throw_if-then _ _ _ h₃ in
    let (_, valid, h₅) = >>=-eq-ok _ _ h₄ in
    let (quantity_positive, h₆) = throw_if-then _ _ _ h₅ in
    let (price_positive, h₇) = throw_if-then _ _ _ h₆ in
    let (ws, reserved, h₈) = >>=-eq-ok _ _ h₇ in
    record {
      user = user;
      m = m;
      ws = ws;
      user_found = user_found;
      not_frozen = not_frozen;
      market_found = market_found;
      enabled = enabled;
      valid = valid;
      quantity_positive = quantity_positive;
      price_positive = price_positive;
      reserved = reserved;
      result = ok-injective h₈;
    }

-- A limit order has a positive price that is a multiple of the tick and with the quantity reaches
-- the smallest notional; a market order's price is ignored.
abbrev pub IsPriced : Market → ℕ → OrderType → Option ℕ → Type 0
IsPriced m qty limit none = ⊥
IsPriced m qty limit (some p) =
    (0 < p) × (m.tick_size ≢ 0) × (p % m.tick_size ≡ 0) × (m.min_notional ≤ p * qty)
IsPriced m qty market price = Unit {0}

-- The user exists and is not frozen, the market exists and is enabled, the quantity is a positive
-- multiple of the step, and the price is in order.
pub record IsSound (u : UserId) (dto : CreateOrderDto) (db : Db) : Type 0 where
  pub user : User
  pub m : Market
  pub user_found : find_if (λ x. x.id == u) db.users ≡ some user
  pub not_frozen : user.frozen ≡ false
  pub market_found : find_market dto.symbol db.markets ≡ some m
  pub enabled : m.enabled ≡ true
  pub quantity_positive : 0 < dto.quantity
  pub step_nonzero : m.step_size ≢ 0
  pub on_step : dto.quantity % m.step_size ≡ 0
  pub priced : IsPriced m dto.quantity dto.type dto.price

validate_price-IsPriced :
    (dto : CreateOrderDto) (m : Market) (t : OrderType) (p : Option ℕ)
    → dto.type ≡ t
    → dto.price ≡ p
    → limit_price_not_positive t p ≡ false
    → validate_price dto m dto.type ≡ ok tt
    → IsPriced m dto.quantity t p
validate_price-IsPriced dto m limit none et ep pos v = cc
validate_price-IsPriced dto m limit (some p) et ep pos v = ground arith
validate_price-IsPriced dto m market p et ep pos v = tt

-- Every order that `submit` accepts comes from a user who exists and is not frozen, on a market that
-- exists and is enabled; its quantity is a positive multiple of the step, and a limit order has a
-- positive price on the tick whose notional reaches the market's smallest.
pub submit_order-IsSound :
    (u : UserId) (dto : CreateOrderDto) (c : CommandId) (now : ℕ) (db : Db) {o : Order} {db' : Db}
    → submit_order u dto c now db ≡ ok (o, db')
    → IsSound u dto db
unfolding validate_tick_step
submit_order-IsSound u dto c now db h =
    let a = submit_order-Accepted u dto c now db h in
    record {
      user = a.user;
      m = a.m;
      user_found = a.user_found;
      not_frozen = a.not_frozen;
      market_found = a.market_found;
      enabled = ground (arith, a.enabled);
      quantity_positive = ground (arith, a.quantity_positive);
      step_nonzero = ground (arith, a.valid);
      on_step = ground (arith, a.valid);
      priced =
          validate_price-IsPriced dto a.m dto.type dto.price refl refl a.price_positive
            (throw_if-then _ _ _ a.valid).1;
    }
