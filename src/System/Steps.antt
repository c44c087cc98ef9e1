-- ===== src/System/Steps.antt =====
-- The steps that the services take, each on the database as the last one left it; the matcher takes
-- a command from the outbox at any time, in any order and any number of times.
use orbit_exchange.Base.{ℕ, ◌≡◌, Bool, List, some, IsIn}
use orbit_exchange.Base.Outcome.{ok}
use orbit_exchange.Shared.{
  UserId, OrderId, CommandId, MarketSymbol, AssetId, OrderSubmitCommand, OrderCancelCommand,
}
use orbit_exchange.Schema.{OutboxEvent, Order, Market, Wallet, Db}
use orbit_exchange.Schema.Submits.{submits}
use orbit_exchange.Engine.{Engine}
use orbit_exchange.MatchingEngine.{State, on_module_init}
use orbit_exchange.OrderService.{CreateOrderDto, submit_order, cancel_order}
use orbit_exchange.Settler.Events.{Draw}
use orbit_exchange.Settler.Guards.{to_settle}
use orbit_exchange.Settler.Submit.{settle_submit, begin}
use orbit_exchange.Settler.Submit.Moved.{IsMatchable, taking_of}
use orbit_exchange.Settler.Cancel.{settle_cancel}
use orbit_exchange.OutboxRelay.{Attempt, Sent, drain_once}
use orbit_exchange.Admin.AdminOrders.{force_cancel}
use orbit_exchange.Admin.AdminOutbox.{retry, skip}
use orbit_exchange.Admin.AdminUsers.{set_frozen}
use orbit_exchange.Admin.AdminMarkets.{MarketUpdateInput, update_market}
use orbit_exchange.Admin.AdminWallets.{AdjustInput, balance, adjust}
use orbit_exchange.Auth.{Crypto, Tokens, signup}

-- The outbox after a round of the relay.
abbrev pub drained :
    ℕ → (OutboxEvent → Attempt) → ℕ → List Sent → List OutboxEvent → List OutboxEvent
drained now how n kafka evs =
    (drain_once now how n (record { outbox = evs; kafka = kafka })).1.outbox

module _ {B : Type 0} (E : Engine B) where
  -- What settling the command at hand relies on, if it is not passed over: the book of its market
  -- and the table are in step, and a market order's row is one that nothing has filled yet.
  abbrev pub IsCommandMatchable : OrderSubmitCommand → Draw → State B → Type 0
  IsCommandMatchable c d s =
      (m : Market) (o : Order)
      → to_settle c s.db ≡ some (m, o)
      → IsMatchable E (taking_of E c d m o) (begin E c.symbol s) o.type o.price

  -- The trading steps. `place`, `withdraw`: a request of a user. `settle`, `close`: the matcher
  -- gets a command. `restart`: the matcher boots. `relay`: a round of the outbox relay, with a log
  -- of whatever it has sent. The others are an operator's.
  pub data Step (s : State B) : State B → Type 0 where
    place :
        (u : UserId) (dto : CreateOrderDto) (c : CommandId) (now : ℕ) (o : Order) (db : Db)
        → submit_order u dto c now s.db ≡ ok (o, db)
        → Step s (record s { db = db })
    withdraw :
        (u : UserId) (id : OrderId) (c : CommandId) (now : ℕ) (o : Order) (db : Db)
        → cancel_order u id c now s.db ≡ ok (o, db)
        → Step s (record s { db = db })
    settle :
        (c : OrderSubmitCommand) (d : Draw)
        → IsIn c (submits s.db.outbox)
        → Step s (settle_submit E c d s).1
    close : (c : OrderCancelCommand) (d : Draw) → Step s (settle_cancel E c d s).1
    restart : Step s (on_module_init E s.db)
    relay :
        (now : ℕ) (how : OutboxEvent → Attempt) (n : ℕ) (kafka : List Sent)
        → Step s (record s { db = record s.db { outbox = drained now how n kafka s.db.outbox } })
    force :
        (id : OrderId) (c : CommandId) (now : ℕ) (o : Order) (db : Db)
        → force_cancel id c now s.db ≡ ok (o, db)
        → Step s (record s { db = db })
    rearm :
        (id : ℕ) (evs : List OutboxEvent)
        → retry id s.db.outbox ≡ ok evs
        → Step s (record s { db = record s.db { outbox = evs } })
    pass :
        (now text id : ℕ) (evs : List OutboxEvent)
        → skip now text id s.db.outbox ≡ ok evs
        → Step s (record s { db = record s.db { outbox = evs } })
    freeze :
        (id : UserId) (frozen : Bool) (db : Db)
        → set_frozen id frozen s.db ≡ ok db
        → Step s (record s { db = db })
    reterm :
        (symbol : MarketSymbol) (input : MarketUpdateInput) (m : Market × Market) (db : Db)
        → update_market symbol input s.db ≡ ok (m, db)
        → Step s (record s { db = db })

  -- Where money comes in: an account is opened, or an operator adjusts a wallet.
  pub data Funding {T : Type 0} (C : Crypto T) (s : State B) : State B → Type 0 where
    register :
        (unit : ℕ) (id : UserId) (email password : ℕ) (t : Tokens T) (db : Db)
        → signup C unit id email password s.db ≡ ok (t, db)
        → Funding C s (record s { db = db })
    fund :
        (u : UserId) (a : AssetId) (input : AdjustInput) (ws : List Wallet)
        → adjust u a input s.db.wallets ≡ ok ws
        → Funding C s (record s { db = record s.db { wallets = ws } })

  pub data Trading (s : State B) : State B → Type 0 where
    idle : Trading s s
    onward : {t u : State B} → Trading s t → Step t u → Trading s u

  pub data Reach {T : Type 0} (C : Crypto T) (s : State B) : State B → Type 0 where
    here : Reach C s s
    step : {t u : State B} → Reach C s t → Step t u → Reach C s u
    funding : {t u : State B} → Reach C s t → Funding C t u → Reach C s u

  -- The book and the table are in step when a command is settled. Nothing here keeps them so: a
  -- settlement that is rolled back, or a replay that adds an order whose command is still to come,
  -- can leave a book with orders or trades that the table does not have.
  abbrev pub IsSoundStep : {s t : State B} → Step s t → Type 0
  IsSoundStep (place u dto c now o db h) = Unit {0}
  IsSoundStep (withdraw u id c now o db h) = Unit {0}
  IsSoundStep {s} (settle c d there) = IsCommandMatchable c d s
  IsSoundStep (close c d) = Unit {0}
  IsSoundStep restart = Unit {0}
  IsSoundStep (relay now how n kafka) = Unit {0}
  IsSoundStep (force id c now o db h) = Unit {0}
  IsSoundStep (rearm id evs h) = Unit {0}
  IsSoundStep (pass now text id evs h) = Unit {0}
  IsSoundStep (freeze id frozen db h) = Unit {0}
  IsSoundStep (reterm symbol input m db h) = Unit {0}

  -- An operator adjusts the balance, and not what is locked.
  abbrev pub IsSoundFunding : {T : Type 0} (C : Crypto T) {s t : State B} → Funding C s t → Type 0
  IsSoundFunding C (register unit id email password t db h) = Unit {0}
  IsSoundFunding C (fund u a input ws h) = input.field ≡ some balance

  abbrev pub IsSoundTrading : {s t : State B} → Trading s t → Type 0
  IsSoundTrading idle = Unit {0}
  IsSoundTrading (onward r h) = IsSoundTrading r × IsSoundStep h

  abbrev pub IsSoundRun : {T : Type 0} (C : Crypto T) {s t : State B} → Reach C s t → Type 0
  IsSoundRun C here = Unit {0}
  IsSoundRun C (step r h) = IsSoundRun C r × IsSoundStep h
  IsSoundRun C (funding r h) = IsSoundRun C r × IsSoundFunding C h
