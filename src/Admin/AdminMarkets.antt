-- ===== src/Admin/AdminMarkets.antt =====
-- `AdminMarketsService.update`: the terms of a market, of which each may be left out.
use orbit_exchange.Base.{
  ℕ, ◌≡◌, refl, ap, ◌∙◌, Bool, List, [], ◌∷◌, Option, none, some, ◌==◌, if◌then◌else◌, Bool-cases,
  inl, inr, arith, on, sym,
}
use orbit_exchange.Base.Outcome.{
  Result, ok, ◌>>=◌, or_throw, or_throw-then, ok-injective, market_not_found,
}
use orbit_exchange.Shared.{MarketSymbol, OrderSide, bid, ask}
use orbit_exchange.Schema.{Market, Order, Db}
use orbit_exchange.OrderTable.{find_market, is_active}
use orbit_exchange.OrderTable.Reserved.{reserves, reserved, share}

-- `MarketUpdateInput`, with unsigned numbers.
pub record MarketUpdateInput : Type 0 where
  pub enabled : Option Bool
  pub tick_size : Option ℕ
  pub step_size : Option ℕ
  pub min_notional : Option ℕ
  pub taker_fee_bp : Option ℕ
  pub maker_fee_bp : Option ℕ

-- `if (x !== undefined)`
abbrev or_keep {ℓ} : {A : Type ℓ} → Option A → A → A
or_keep none a = a
or_keep (some b) a = b

abbrev pub set_terms : MarketUpdateInput → Market → Market
set_terms input m = record m {
  enabled = or_keep input.enabled m.enabled;
  tick_size = or_keep input.tick_size m.tick_size;
  step_size = or_keep input.step_size m.step_size;
  min_notional = or_keep input.min_notional m.min_notional;
  taker_fee_bp = or_keep input.taker_fee_bp m.taker_fee_bp;
  maker_fee_bp = or_keep input.maker_fee_bp m.maker_fee_bp;
}

abbrev pub edit_market : MarketUpdateInput → MarketSymbol → Market → Market
edit_market input symbol m = if m.symbol == symbol then set_terms input m else m

abbrev pub update_markets : MarketUpdateInput → MarketSymbol → List Market → List Market
update_markets input symbol [] = []
update_markets input symbol (m ∷ ms) = edit_market input symbol m ∷ update_markets input symbol ms

-- The rows before and after, and the database.
unfoldable pub update_market :
    MarketSymbol → MarketUpdateInput → Db → Result ((Market × Market) × Db)
update_market symbol input db = do
  before ← or_throw (find_market symbol db.markets) market_not_found
  ok (
    (before, set_terms input before),
    record db { markets = update_markets input symbol db.markets },
  )

-- The columns that a settlement's reservations depend on are not among the terms.
pub record SameAssets (m n : Market) : Type 0 where
  pub same_symbol : n.symbol ≡ m.symbol
  pub same_base : n.base_asset ≡ m.base_asset
  pub same_quote : n.quote_asset ≡ m.quote_asset

pub edit_market-SameAssets :
    (input : MarketUpdateInput) (symbol : MarketSymbol) (m : Market)
    → SameAssets m (edit_market input symbol m)
edit_market-SameAssets input symbol m = elim (Bool-cases (m.symbol == symbol)) [
  | inl e ↦ rw e (record { same_symbol = refl; same_base = refl; same_quote = refl })
  | inr e ↦ rw e (record { same_symbol = refl; same_base = refl; same_quote = refl })
]

abbrev edit_found : MarketUpdateInput → MarketSymbol → Option Market → Option Market
edit_found input symbol none = none
edit_found input symbol (some m) = some (edit_market input symbol m)

pub find_market-update_markets :
    (input : MarketUpdateInput) (symbol s : MarketSymbol) (ms : List Market)
    → find_market s (update_markets input symbol ms) ≡ edit_found input symbol (find_market s ms)
find_market-update_markets input symbol s [] = refl
find_market-update_markets input symbol s (m ∷ ms) =
    let same = (edit_market-SameAssets input symbol m).same_symbol in
    elim (Bool-cases (m.symbol == s)) [
      | inl e ↦ rw (same, e) refl
      | inr e ↦ rw (same, e) (find_market-update_markets input symbol s ms)
    ]

share-edit_found :
    (input : MarketUpdateInput) (symbol : MarketSymbol) (r : Option Market) (v x : ℕ) (o : Order)
    → share (edit_found input symbol r) v x o ≡ share r v x o
share-edit_found input symbol none v x o = refl
share-edit_found input symbol (some m) v x o =
    let same = edit_market-SameAssets input symbol m in side_share o.side same
  where
    side_share :
        (d : OrderSide)
        → SameAssets m (edit_market input symbol m)
        → share (some (edit_market input symbol m)) v x (record o { side = d })
          ≡ share (some m) v x (record o { side = d })
    side_share bid same = rw same.same_quote refl
    side_share ask same = rw same.same_base refl

pub reserved-update_markets :
    (input : MarketUpdateInput) (symbol : MarketSymbol) (ms : List Market) (v x : ℕ)
    (os : List Order)
    → reserved (update_markets input symbol ms) v x os ≡ reserved ms v x os
reserved-update_markets input symbol ms v x [] = refl
reserved-update_markets input symbol ms v x (o ∷ os) =
    let here : reserves (update_markets input symbol ms) v x o ≡ reserves ms v x o =
      ap (λ r. on (is_active o.status) (share r v x o))
        (find_market-update_markets input symbol o.symbol ms)
      ∙ ap (on (is_active o.status))
          (share-edit_found input symbol (find_market o.symbol ms) v x o) in
    omega (arith, here, reserved-update_markets input symbol ms v x os)

pub update_market-ok :
    (symbol : MarketSymbol) (input : MarketUpdateInput) (db db' : Db) (m : Market × Market)
    → update_market symbol input db ≡ ok (m, db')
    → db' ≡ record db { markets = update_markets input symbol db.markets }
unfolding update_market
update_market-ok symbol input db db' m h =
    let (before, found, out) =
      or_throw-then (find_market symbol db.markets) market_not_found
        (λ b.
          ok (
            (b, set_terms input b),
            record db { markets = update_markets input symbol db.markets },
          ))
        h in
    sym (ap (λ r. r.1) (ok-injective out))
