-- ===== src/Candles.antt =====
-- M1 candles: apps/workers/src/candle-aggregator writes them, market.controller.ts of the API reads
-- them in coarser intervals.
pub mod Buckets
use orbit_exchange.Base.{
  ℕ, zero, suc, ◌+◌, ◌-◌, ◌*◌, ◌/◌, ◌≡◌, List, [], ◌∷◌, ◌++◌, Option, none, some, Bool, true, false,
  if◌then◌else◌, ◌==◌, ◌&&◌, leb, ltb, min, max, take, keep_if, length,
}
use orbit_exchange.Base.Outcome.{Result, ok, err, Error, type_error}
use orbit_exchange.Shared.{MarketSymbol, TradeEvent}

-- A candle: prices and volume in the units of a trade, its minute in seconds.
pub record Candle : Type 0 where
  pub market : MarketSymbol
  pub open_time : ℕ
  pub open_price : ℕ
  pub high : ℕ
  pub low : ℕ
  pub close : ℕ
  pub volume : ℕ

-- `Math.floor(t / interval) * interval`
abbrev pub floor_to : ℕ → ℕ → ℕ
floor_to zero t = 0
floor_to (suc n) t = t / suc n * suc n

abbrev pub is_bucket : MarketSymbol → ℕ → Candle → Bool
is_bucket market time c = c.market == market && c.open_time == time

-- `b.high = max`, `b.low = min`, `b.close = price`, `b.volume += qty`
abbrev pub extend : ℕ → ℕ → ℕ → ℕ → Candle → Candle
extend high low close qty b = record b {
  high = max b.high high;
  low = min b.low low;
  close = close;
  volume = b.volume + qty;
}

abbrev pub first_candle : TradeEvent → ℕ → Candle
first_candle t time = record {
  market = t.symbol;
  open_time = time;
  open_price = t.price;
  high = t.price;
  low = t.price;
  close = t.price;
  volume = 0;
}

-- `Math.floor(trade.ts / 1000 / 60) * 60`, of a time in milliseconds.
abbrev pub minute_of : TradeEvent → ℕ
minute_of t = floor_to 60 (t.ts / 1000)

-- The buckets of a batch: a `Map`, which keeps the order of insertion.
pub add_trade : TradeEvent → List Candle → List Candle
add_trade t [] = extend t.price t.price t.price t.quantity (first_candle t (minute_of t)) ∷ []
add_trade t (b ∷ bs) =
    if is_bucket t.symbol (minute_of t) b
    then extend t.price t.price t.price t.quantity b ∷ bs
    else b ∷ add_trade t bs

-- The loop over the batch's messages; `none` is one that cannot be parsed or is no trade.
pub aggregate : List (Option TradeEvent) → List Candle → List Candle
unfolding add_trade
aggregate [] bs = bs
aggregate (none ∷ ms) bs = aggregate ms bs
aggregate (some t ∷ ms) bs = aggregate ms (add_trade t bs)

-- The update branch of the upsert writes the batch's values over the row's, but for the open.
abbrev overwrite : Candle → Candle → Candle
overwrite b row = record row { high = b.high; low = b.low; close = b.close; volume = b.volume }

pub upsert : Candle → List Candle → List Candle
upsert b [] = b ∷ []
upsert b (row ∷ rows) =
    if is_bucket b.market b.open_time row then overwrite b row ∷ rows else row ∷ upsert b rows

pub upsert_all : List Candle → List Candle → List Candle
upsert_all [] rows = rows
upsert_all (b ∷ bs) rows = upsert_all bs (upsert b rows)

-- One batch in one transaction, which the database may refuse: then the offset does not advance,
-- and Kafka delivers the batch again.
pub flush : Option Error → List (Option TradeEvent) → List Candle → Result (List Candle)
unfolding aggregate upsert upsert_all
flush none batch rows = ok (upsert_all (aggregate batch []) rows)
flush (some e) batch rows = err e

-- The read side: rows that ascend in time, into buckets of `interval` seconds. A later row of a
-- bucket extends it.
pub add_row : ℕ → Candle → List Candle → List Candle
add_row interval c [] = record c { open_time = floor_to interval c.open_time } ∷ []
add_row interval c (b ∷ bs) =
    if b.open_time == floor_to interval c.open_time
    then extend c.high c.low c.close c.volume b ∷ bs
    else b ∷ add_row interval c bs

pub group_rows : ℕ → List Candle → List Candle → List Candle
unfolding add_row
group_rows interval [] bs = bs
group_rows interval (c ∷ cs) bs = group_rows interval cs (add_row interval c bs)
