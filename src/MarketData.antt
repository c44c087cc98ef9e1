-- ===== src/MarketData.antt =====
-- apps/api/src/market/market.controller.ts: `list`, `orderbook` and `trades`; its candles are in
-- Candles.
use orbit_exchange.Base.{
  ℕ, ◌≡◌, ◌<◌, refl, ◌∙◌, sym, ap, Bool, List, [], ◌∷◌, Option, none, some, ◌==◌, keep_if, take,
  Bool-cases, inl, inr,
}
use orbit_exchange.Base.Outcome.{ok}
use orbit_exchange.Shared.{MarketSymbol, Level}
use orbit_exchange.Schema.{Market, Trade}
use orbit_exchange.Paging.{Page, page_size, reverse}
use orbit_exchange.Paging.Follow.{page-first}
use orbit_exchange.Admin.Listings.{TradeQuery, list_trades, matches_trade}

-- `list`
pub list_markets : List Market → List Market
list_markets markets = keep_if (λ m. m.enabled) markets

pub record Book : Type 0 where
  pub symbol : MarketSymbol
  pub asks : List Level
  pub bids : List Level
  pub ts : ℕ

-- `orderbook`; `cached` is the snapshot in Redis, where there is one that can be read.
pub orderbook : MarketSymbol → Option Book → ℕ → Book
orderbook symbol none now = record { symbol = symbol; asks = []; bids = []; ts = now }
orderbook symbol (some b) now = b

-- `trades`; `limit` is a whole number where it is given.
unfoldable pub market_trades : MarketSymbol → Option ℕ → List Trade → List Trade
market_trades symbol limit table =
    take (page_size limit 50 200) (reverse (keep_if (λ t. t.symbol == symbol) table))

-- The query of the operator's list for one market.
abbrev pub of_market : MarketSymbol → Option ℕ → TradeQuery
of_market symbol limit = record {
  market = some symbol;
  user_id = none;
  since = none;
  until = none;
  take = limit;
}

keep_if-same :
    {A : Type 0} (p q : A → Bool) (xs : List A)
    → ((x : A) → p x ≡ q x)
    → keep_if p xs ≡ keep_if q xs
keep_if-same p q [] same = refl
keep_if-same p q (x ∷ xs) same = rw (same x, keep_if-same p q xs same) refl

matches_of_market :
    (symbol : MarketSymbol) (limit : Option ℕ) (t : Trade)
    → (t.symbol == symbol) ≡ matches_trade (of_market symbol limit) t
matches_of_market symbol limit t = elim (Bool-cases (t.symbol == symbol)) [
  | inl e ↦ rw e refl
  | inr e ↦ rw e refl
]

-- The public list of a market's trades is the first page of the operator's list for that market,
-- with the same limit; a page is asked to show at least one.
pub market_trades-list_trades :
    (symbol : MarketSymbol) (limit : Option ℕ) (table : List Trade)
    → 0 < page_size limit 50 200
    → (p : Page Trade) × (list_trades (of_market symbol limit) table none ≡ ok p)
      × (p.items ≡ market_trades symbol limit table)
unfolding list_trades market_trades
market_trades-list_trades symbol limit table shows =
    let same =
      keep_if-same (λ t. t.symbol == symbol) (matches_trade (of_market symbol limit)) table
        (matches_of_market symbol limit) in
    let (p, first, shown) =
      page-first (λ t. t.id) (page_size limit 50 200)
        (reverse (keep_if (matches_trade (of_market symbol limit)) table)) shows in
    (p, first, shown ∙ ap (λ ts. take (page_size limit 50 200) (reverse ts)) (sym same))
