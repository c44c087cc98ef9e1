-- ===== src/CommandConsumer.antt =====
-- apps/matcher/src/matching/command-consumer.service.ts: one command of the topic after another.
pub mod Runs
use orbit_exchange.Base.{ℕ, List, [], ◌∷◌, ◌++◌, Option, none, some}
use orbit_exchange.Base.Outcome.{Result, ok, err}
use orbit_exchange.Shared.{
  MarketSymbol, OrderCommand, submit, cancel, OrderSubmitCommand, OrderCancelCommand,
}
use orbit_exchange.Schema.{Order, Trade}
use orbit_exchange.Engine.{Engine}
use orbit_exchange.MatchingEngine.{State}
use orbit_exchange.Settler.Events.{Draw}
use orbit_exchange.Settler.Submit.{settle_submit}
use orbit_exchange.Settler.Cancel.{settle_cancel}

-- The label `result` of the metrics.
pub data Outcome : Type 0 where
  done noop failed : Outcome

-- The matcher, and the markets whose snapshot was asked for.
pub record Matcher (B : Type 0) : Type 0 where
  pub state : State B
  pub scheduled : List MarketSymbol

abbrev outcome_of : {A : Type 0} → Result (Option A) → Outcome
outcome_of (ok none) = noop
outcome_of (ok (some a)) = done
outcome_of (err e) = failed

-- Only a command that was settled has its market's snapshot refreshed.
abbrev scheduled_for : Outcome → MarketSymbol → List MarketSymbol → List MarketSymbol
scheduled_for done symbol ms = ms ++ symbol ∷ []
scheduled_for noop symbol ms = ms
scheduled_for failed symbol ms = ms

module _ {B : Type 0} (E : Engine B) where
  abbrev finish :
      {A : Type 0} → MarketSymbol → Result (Option A) × State B → Matcher B → Outcome × Matcher B
  finish symbol (r, s) x = (
    outcome_of r,
    record { state = s; scheduled = scheduled_for (outcome_of r) symbol x.scheduled },
  )

  -- The task of one command; an exception is logged and goes no further.
  pub run_command : OrderCommand → Draw → Matcher B → Outcome × Matcher B
  run_command (submit cmd) d x = finish cmd.symbol (settle_submit E cmd d x.state) x
  run_command (cancel cmd) d x = finish cmd.symbol (settle_cancel E cmd d x.state) x

  -- `handleMessage`: `none` is a message with no value, or one that cannot be parsed.
  pub handle_message : Option OrderCommand → Draw → Matcher B → Matcher B
  unfolding run_command
  handle_message none d x = x
  handle_message (some cmd) d x = (run_command cmd d x).1

  -- The messages of a lane, in their order.
  pub handle_all : List (Option OrderCommand × Draw) → Matcher B → Matcher B
  unfolding handle_message
  handle_all [] x = x
  handle_all ((cmd, d) ∷ rest) x = handle_all rest (handle_message cmd d x)
