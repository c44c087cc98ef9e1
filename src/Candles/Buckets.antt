-- ===== src/Candles/Buckets.antt =====
-- What the buckets of a market's candles keep of the trades.
use orbit_exchange.Base.{
  ℕ, ◌+◌, ◌≡◌, ◌≤◌, List, [], ◌∷◌, Option, none, some, sum_by, ◌==◌, Bool-cases, inl, inr, arith,
}
use orbit_exchange.Shared.{TradeEvent}
use orbit_exchange.Candles.{
  Candle, is_bucket, minute_of, floor_to, extend, first_candle, add_trade, aggregate, add_row,
  group_rows,
}

abbrev pub traded : Option TradeEvent → ℕ
traded none = 0
traded (some t) = t.quantity

abbrev pub volumes : List Candle → ℕ
volumes = sum_by (λ c. c.volume)

volumes-add_trade :
    (t : TradeEvent) (bs : List Candle) → volumes (add_trade t bs) ≡ volumes bs + t.quantity
unfolding add_trade
volumes-add_trade t [] = omega arith
volumes-add_trade t (b ∷ bs) = elim (Bool-cases (is_bucket t.symbol (minute_of t) b)) [
  | inl e ↦ rw e (omega arith)
  | inr e ↦ rw e (omega (arith, volumes-add_trade t bs))
]

-- The buckets of a batch have among them the volume of all its trades.
pub volumes-aggregate :
    (ms : List (Option TradeEvent)) (bs : List Candle)
    → volumes (aggregate ms bs) ≡ volumes bs + sum_by traded ms
unfolding aggregate
volumes-aggregate [] bs = omega arith
volumes-aggregate (none ∷ ms) bs = omega (arith, volumes-aggregate ms bs)
volumes-aggregate (some t ∷ ms) bs =
    omega (arith, volumes-aggregate ms (add_trade t bs), volumes-add_trade t bs)

volumes-add_row :
    (n : ℕ) (c : Candle) (bs : List Candle) → volumes (add_row n c bs) ≡ volumes bs + c.volume
unfolding add_row
volumes-add_row n c [] = omega arith
volumes-add_row n c (b ∷ bs) = elim (Bool-cases (b.open_time == floor_to n c.open_time)) [
  | inl e ↦ rw e (omega arith)
  | inr e ↦ rw e (omega (arith, volumes-add_row n c bs))
]

-- Reading in a coarser interval loses no volume.
pub volumes-group_rows :
    (n : ℕ) (cs bs : List Candle) → volumes (group_rows n cs bs) ≡ volumes bs + volumes cs
unfolding group_rows
volumes-group_rows n [] bs = omega arith
volumes-group_rows n (c ∷ cs) bs =
    omega (arith, volumes-group_rows n cs (add_row n c bs), volumes-add_row n c bs)

-- A candle's open and close lie between its low and its high.
pub record IsWellFormed (c : Candle) : Type 0 where
  pub low_open : c.low ≤ c.open_price
  pub open_high : c.open_price ≤ c.high
  pub low_close : c.low ≤ c.close
  pub close_high : c.close ≤ c.high

abbrev pub AllWellFormed : List Candle → Type 0
AllWellFormed [] = Unit {0}
AllWellFormed (c ∷ cs) = IsWellFormed c × AllWellFormed cs

extend-IsWellFormed :
    (high low close qty : ℕ) (c : Candle)
    → low ≤ close
    → close ≤ high
    → IsWellFormed c
    → IsWellFormed (extend high low close qty c)
extend-IsWellFormed high low close qty c lo hi w = record {
  low_open = omega (arith, w.low_open);
  open_high = omega (arith, w.open_high);
  low_close = omega (arith, lo);
  close_high = omega (arith, hi);
}

add_trade-AllWellFormed :
    (t : TradeEvent) (bs : List Candle) → AllWellFormed bs → AllWellFormed (add_trade t bs)
unfolding add_trade
add_trade-AllWellFormed t [] w = (
  extend-IsWellFormed t.price t.price t.price t.quantity (first_candle t (minute_of t))
      (omega arith) (omega arith)
      (record {
        low_open = omega arith;
        open_high = omega arith;
        low_close = omega arith;
        close_high = omega arith;
      }),
  tt,
)
add_trade-AllWellFormed t (b ∷ bs) (w, ws) =
    elim (Bool-cases (is_bucket t.symbol (minute_of t) b)) [
      | inl e ↦ rw e (
        extend-IsWellFormed t.price t.price t.price t.quantity b (omega arith) (omega arith) w,
        ws,
      )
      | inr e ↦ rw e (w, add_trade-AllWellFormed t bs ws)
    ]

-- Every bucket of a batch is well formed.
pub aggregate-AllWellFormed :
    (ms : List (Option TradeEvent)) (bs : List Candle)
    → AllWellFormed bs
    → AllWellFormed (aggregate ms bs)
unfolding aggregate
aggregate-AllWellFormed [] bs w = w
aggregate-AllWellFormed (none ∷ ms) bs w = aggregate-AllWellFormed ms bs w
aggregate-AllWellFormed (some t ∷ ms) bs w =
    aggregate-AllWellFormed ms (add_trade t bs) (add_trade-AllWellFormed t bs w)

add_row-AllWellFormed :
    (n : ℕ) (c : Candle) (bs : List Candle)
    → IsWellFormed c
    → AllWellFormed bs
    → AllWellFormed (add_row n c bs)
unfolding add_row
add_row-AllWellFormed n c [] v w = (
  record {
    low_open = v.low_open;
    open_high = v.open_high;
    low_close = v.low_close;
    close_high = v.close_high;
  },
  tt,
)
add_row-AllWellFormed n c (b ∷ bs) v (w, ws) =
    elim (Bool-cases (b.open_time == floor_to n c.open_time)) [
      | inl e ↦
          rw e (extend-IsWellFormed c.high c.low c.close c.volume b v.low_close v.close_high w, ws)
      | inr e ↦ rw e (w, add_row-AllWellFormed n c bs v ws)
    ]

-- Candles of a coarser interval are well formed when the rows are.
pub group_rows-AllWellFormed :
    (n : ℕ) (cs bs : List Candle)
    → AllWellFormed cs
    → AllWellFormed bs
    → AllWellFormed (group_rows n cs bs)
unfolding group_rows
group_rows-AllWellFormed n [] bs vs w = w
group_rows-AllWellFormed n (c ∷ cs) bs (v, vs) w =
    group_rows-AllWellFormed n cs (add_row n c bs) vs (add_row-AllWellFormed n c bs v w)
