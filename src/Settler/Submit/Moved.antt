-- ===== src/Settler/Submit/Moved.antt =====
-- A SUBMIT command moves funds and reservations together, on every path.
use orbit_exchange.Base.{ℕ, ◌≡◌, refl, sym, ◌∙◌, ap, List, Option, some, none, inl, inr, arith}
use orbit_exchange.Base.Outcome.{Result, ok, err}
use mathlib.Core.Path.{subst, subst₂}
use orbit_exchange.Shared.{MarketSymbol, OrderType, limit, market, OrderSubmitCommand}
use orbit_exchange.Schema.{Market, Order, Trade}
use orbit_exchange.Engine.{Engine}
use orbit_exchange.Ledger.{Moves, Moves-refl}
use orbit_exchange.MatchingEngine.{State}
use orbit_exchange.Settler.Work.{Work, Ended-cases, proceed-ok, pure-ok, pure}
use orbit_exchange.Settler.Fill.{Taking}
use orbit_exchange.Settler.Fill.Kept.{fees}
use orbit_exchange.Settler.Fill.Matched.{IsTaker, persisted_row-same}
use orbit_exchange.Settler.Events.{Draw, publish_submit_events}
use orbit_exchange.Settler.Events.Rows.{Moves-SameRows, publish_submit_events-SameRows}
use orbit_exchange.Settler.Guards.{to_settle}
use orbit_exchange.Settler.Settlement.Gap.{IsPriceOf}
use orbit_exchange.Settler.Sweep.{levels_for, base_sweep_id}
use orbit_exchange.Settler.Sweep.Levels.{IsSweepMatchable}
use orbit_exchange.Settler.Sweep.Moved.{IsFresh, execute_market_order-Moves}
use orbit_exchange.Settler.Submit.{begin, match_order, submit_body, run_submit, settle_submit}
use orbit_exchange.Settler.Submit.Limit.{IsLimitMatchable, settle_limit-Moves}

market-priceless : (p : Option ℕ) → IsPriceOf market p → p ≡ none
market-priceless none h = refl
market-priceless (some p) h = absurd h

module _ {B : Type 0} (E : Engine B) where
  -- What the match of an order of this type and price relies on. The trades that the book returns
  -- fit the rows of their makers and their quantities add up: the book in memory is in step with the
  -- table. And the row of a market order is one that nothing has filled yet.
  abbrev pub IsMatchable : Taking → Work B → OrderType → Option ℕ → Type 0
  IsMatchable k u limit none = Unit {0}
  IsMatchable k u limit (some price) = IsLimitMatchable E k price u
  IsMatchable k u market price =
      IsFresh k
      × IsSweepMatchable E k (base_sweep_id k.taker.id) (levels_for E k.taker.side u.book)
          k.taker.quantity u

  -- A command finds its row as the order service wrote it, and the book in step with the table.
  abbrev pub IsSettleable : Taking → Work B → Type 0
  IsSettleable k u = IsTaker k u.db × IsMatchable k u k.taker.type k.taker.price

  abbrev pub taking_of : OrderSubmitCommand → Draw → Market → Order → Taking
  taking_of cmd d m o = record { m = m; taker = o; command_id = cmd.command_id; now = d.now }

  module _ (v x : ℕ) where
    match_order-Moves :
        (k : Taking) (u w : Work B) (type : OrderType) (price : Option ℕ) (rows : List Trade)
        → IsTaker k u.db
        → IsPriceOf type k.taker.price
        → IsMatchable k u type price
        → match_order E k type price u ≡ (ok rows, w)
        → Moves v x (fees x k rows) u.db w.db
    unfolding match_order
    match_order-Moves k u w limit none rows taker priced matchable h = ground arith
    match_order-Moves k u w limit (some price) rows taker priced matchable h =
        settle_limit-Moves E v x k price u w rows taker matchable h
    match_order-Moves k u w market price rows taker priced (fresh, matchable) h =
        execute_market_order-Moves E v x k u w rows taker fresh
          (market-priceless k.taker.price priced) matchable h

    submit_body-Moves :
        (k : Taking) (symbol : MarketSymbol) (d : Draw) (u w : Work B) (row : Order)
        (rows : List Trade)
        → IsSettleable k u
        → submit_body E k symbol d u ≡ (ok (row, rows), w)
        → Moves v x (fees x k rows) u.db w.db
    unfolding submit_body
    submit_body-Moves k symbol d u w row rows (taker, matchable) h =
        let (ts, w₁, matched, h₁) = proceed-ok _ _ h in
        let (o, w₂, read, h₂) = proceed-ok _ _ h₁ in
        let (_, w₃, published, out) =
          proceed-ok (λ _. pure (o, ts)) (publish_submit_events E o ts symbol d w₂) h₂ in
        let moves =
          match_order-Moves k u w₁ k.taker.type k.taker.price ts taker taker.priced matchable
            matched in
        let w₂_is : w₁.db ≡ w₂.db =
          ap (λ (y : Work B). y.db) (sym (persisted_row-same k.taker.id w₁ w₂ read)) in
        let w_is : (publish_submit_events E o ts symbol d w₂).1.db ≡ w.db =
          ap (λ r. r.1.db) published ∙ ap (λ (y : Work B). y.db) (pure-ok out).1 in
        subst₂ (λ rs y. Moves v x (fees x k rs) u.db y) (ap (λ r. r.1) (pure-ok out).0) w_is
          (Moves-SameRows (subst (λ y. Moves v x (fees x k ts) u.db y) w₂_is moves)
            (publish_submit_events-SameRows E o ts symbol d w₂))

    -- The fees of the trades that a command returns.
    abbrev pub charged : Taking → Result (Option (Order × List Trade)) → ℕ
    charged k (ok (some (row, rows))) = fees x k rows
    charged k (ok none) = 0
    charged k (err e) = 0

    abbrev pub charged_for :
        OrderSubmitCommand
        → Draw
        → Option (Market × Order)
        → Result (Option (Order × List Trade))
        → ℕ
    charged_for cmd d none r = 0
    charged_for cmd d (some (m, o)) r = charged (taking_of cmd d m o) r

    run_submit-Moves :
        (cmd : OrderSubmitCommand) (d : Draw) (s : State B) (found : Option (Market × Order))
        → ((m : Market) (o : Order)
            → found ≡ some (m, o)
            → IsSettleable (taking_of cmd d m o) (begin E cmd.symbol s))
        → Moves v x
            (charged_for cmd d found (run_submit E cmd d s found).0)
            s.db
            (run_submit E cmd d s found).1.db
    run_submit-Moves cmd d s none sound = Moves-refl v x
    run_submit-Moves cmd d s (some (m, o)) sound =
        let k = taking_of cmd d m o in
        elim (Ended-cases (submit_body E k cmd.symbol d (begin E cmd.symbol s))) [
          | inl ((row, rows), w, e) ↦ rw e (
              submit_body-Moves k cmd.symbol d (begin E cmd.symbol s) w row rows (sound m o refl) e)
          | inr (x', w, e) ↦ rw e (Moves-refl v x)
        ]

    -- Whatever a SUBMIT command meets, the gap between a user's locked amounts and reservations is
    -- what it was, and the supply of every asset loses exactly the fees of the trades that the
    -- command returns, none if it is passed over or throws; its row is as the order service wrote
    -- it, and the engine's trades fit the makers' rows and its quantities add up.
    pub settle_submit-Moves :
        (cmd : OrderSubmitCommand) (d : Draw) (s : State B)
        → ((m : Market) (o : Order)
            → to_settle cmd s.db ≡ some (m, o)
            → IsSettleable (taking_of cmd d m o) (begin E cmd.symbol s))
        → Moves v x
            (charged_for cmd d (to_settle cmd s.db) (settle_submit E cmd d s).0)
            s.db
            (settle_submit E cmd d s).1.db
    unfolding settle_submit
    settle_submit-Moves cmd d s sound = run_submit-Moves cmd d s (to_settle cmd s.db) sound
