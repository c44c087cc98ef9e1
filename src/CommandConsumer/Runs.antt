-- ===== src/CommandConsumer/Runs.antt =====
-- The matcher over any run of commands: the locked amounts stay backed by the orders.
use orbit_exchange.Base.{◌≡◌, ◌≢◌, List, [], ◌∷◌, Option, none, some}
use orbit_exchange.Shared.{OrderCommand, submit, cancel, rejected}
use orbit_exchange.Schema.{Market, Order}
use orbit_exchange.Engine.{Engine}
use orbit_exchange.OrderTable.{find}
use orbit_exchange.Ledger.{IsBacked, Moves-IsBacked}
use orbit_exchange.MatchingEngine.{State}
use orbit_exchange.Settler.Events.{Draw}
use orbit_exchange.Settler.Guards.{to_settle}
use orbit_exchange.Settler.Submit.{begin, settle_submit}
use orbit_exchange.Settler.Submit.Moved.{IsSettleable, taking_of, charged_for, settle_submit-Moves}
use orbit_exchange.Settler.Cancel.Moved.{settle_cancel-Moves}
use orbit_exchange.CommandConsumer.{Matcher, run_command, handle_message, handle_all}

module _ {B : Type 0} (E : Engine B) where
  -- What a command needs in the state it meets.
  abbrev pub IsSound : OrderCommand → Draw → State B → Type 0
  IsSound (submit cmd) d s =
      (m : Market) (o : Order)
      → to_settle cmd s.db ≡ some (m, o)
      → IsSettleable E (taking_of E cmd d m o) (begin E cmd.symbol s)
  IsSound (cancel cmd) d s =
      (o : Order) → find cmd.order_id s.db.orders ≡ some o → o.status ≢ rejected

  abbrev pub MessageIsSound : Option OrderCommand → Draw → State B → Type 0
  MessageIsSound none d s = Unit {0}
  MessageIsSound (some cmd) d s = IsSound cmd d s

  abbrev pub AllSound : List (Option OrderCommand × Draw) → Matcher B → Type 0
  AllSound [] x = Unit {0}
  AllSound ((cmd, d) ∷ rest) x =
      MessageIsSound cmd d x.state × AllSound rest (handle_message E cmd d x)

  run_command-IsBacked :
      (cmd : OrderCommand) (d : Draw) (x : Matcher B)
      → IsSound cmd d x.state
      → IsBacked x.state.db
      → IsBacked (run_command E cmd d x).1.state.db
  unfolding run_command
  run_command-IsBacked (submit cmd) d x sound =
      Moves-IsBacked
        (λ a. charged_for E 0 a cmd d (to_settle cmd x.state.db) (settle_submit E cmd d x.state).0)
        (λ v a. settle_submit-Moves E v a cmd d x.state sound)
  run_command-IsBacked (cancel cmd) d x sound =
      Moves-IsBacked (λ a. 0) (λ v a. settle_cancel-Moves E v a cmd d x.state sound)

  handle_message-IsBacked :
      (cmd : Option OrderCommand) (d : Draw) (x : Matcher B)
      → MessageIsSound cmd d x.state
      → IsBacked x.state.db
      → IsBacked (handle_message E cmd d x).state.db
  unfolding handle_message
  handle_message-IsBacked none d x sound backed = backed
  handle_message-IsBacked (some cmd) d x sound backed = run_command-IsBacked cmd d x sound backed

  -- Over any run of commands, those that fail included, every locked amount stays the sum of what
  -- the user's active orders reserve, when each command that is settled meets the row that the
  -- order service wrote and an engine whose trades fit the rows.
  pub handle_all-IsBacked :
      (ms : List (Option OrderCommand × Draw)) (x : Matcher B)
      → AllSound ms x
      → IsBacked x.state.db
      → IsBacked (handle_all E ms x).state.db
  unfolding handle_all
  handle_all-IsBacked [] x sound backed = backed
  handle_all-IsBacked ((cmd, d) ∷ rest) x (sound, later) backed =
      handle_all-IsBacked rest (handle_message E cmd d x) later
        (handle_message-IsBacked cmd d x sound backed)
