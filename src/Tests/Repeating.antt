-- ===== src/Tests/Repeating.antt =====
-- The settler's loop, its repeated commands, and the books at boot, on small inputs.
use orbit_exchange.Base.{
  ◌≡◌, ◌+◌, refl, ap, [], ◌∷◌, List, Option, none, some, true, length, keep_if,
}
use orbit_exchange.Base.Outcome.{Result, ok, err}
use orbit_exchange.Shared.{bid, ask, limit, cancelled}
use orbit_exchange.Schema.{Order, Trade, publish}
use orbit_exchange.Engine.{EngineTrade}
use orbit_exchange.Wallets
use orbit_exchange.OrderTable
use orbit_exchange.OrderTable.{find, is_terminal}
use orbit_exchange.MatchingEngine.{State, get_engine, replay_open_orders}
use orbit_exchange.MatchingEngine.Replay.{add_open, is_open_on, replay_open_orders-get_engine}
use orbit_exchange.Settler.Work.{Work}
use orbit_exchange.Settler.Settlement.{settle_rows, is_taken, settle_maker, settle_taker}
use orbit_exchange.Settler.Fill.{
  Taking, settle_trades, settle_trade, persisted_row, update_order_after_match,
}
use orbit_exchange.Settler.Fill.Numbers.{Numbered, Recorded, settle_trades-Numbered}
use orbit_exchange.Settler.Events.{publish_cancel_events, publish_submit_events}
use orbit_exchange.Settler.Guards.{to_settle}
use orbit_exchange.Settler.Submit.{begin, settle_submit, submit_body, match_order}
use orbit_exchange.Settler.Submit.Again.{settle_submit-again}
use orbit_exchange.Settler.Cancel.{settle_cancel, cancel_body, refund_left}
use orbit_exchange.Settler.Cancel.Again.{settle_cancel-again}
use orbit_exchange.Tests.Fixtures.{
  one_order, spot, sale, purchase, submission, state, cancellation, draw, order, Resting,
}

abbrev taking : Taking
taking = record { m = spot; taker = purchase; command_id = 2; now = 0 }

abbrev fill : EngineTrade
fill = record { maker_order_id = 1; trade_price = 100; trade_quantity = 2 }

abbrev row : Trade
row = record {
  id = 1;
  sequence = 1;
  symbol = 7;
  price = 100;
  quantity = 2;
  maker_order_id = 1;
  taker_order_id = 2;
  maker_side = ask;
  taker_side = bid;
  maker_user_id = 10;
  taker_user_id = 20;
  maker_fee = 20;
  taker_fee = 40;
  match_id = record { command_id = 2; match_idx = 0 };
  created_at = 0;
}

abbrev begun : Work Resting
begun = begin one_order 7 state

abbrev filled_work : Work Resting
filled_work = (settle_trades taking (fill ∷ []) begun).1

one_fill : settle_trades taking (fill ∷ []) begun ≡ (ok (row ∷ []), filled_work)
unfolding settle_trades settle_trade settle_rows is_taken settle_maker settle_taker find
    Wallets.update Wallets.credit OrderTable.update
one_fill = refl

settle_trades-Numbered_example :
    Numbered 2 0 (row ∷ [])
    × Recorded (fill ∷ []) (row ∷ [])
    × (filled_work.match_idx ≡ 0 + length (fill ∷ []))
settle_trades-Numbered_example =
    settle_trades-Numbered taking (fill ∷ []) (row ∷ []) begun filled_work one_fill

abbrev after_cancel : State Resting
after_cancel = (settle_cancel one_order cancellation draw state).1

abbrev gone : Order
gone = order 2 20 bid limit (some 101) 2 cancelled

first_cancel : settle_cancel one_order cancellation draw state ≡ (ok (some gone), after_cancel)
unfolding settle_cancel cancel_body refund_left persisted_row publish_cancel_events publish find
    Wallets.update OrderTable.update get_engine
first_cancel = refl

settle_cancel-again_example :
    settle_cancel one_order cancellation draw after_cancel ≡ (ok (some gone), after_cancel)
settle_cancel-again_example =
    settle_cancel-again one_order cancellation gone draw draw state after_cancel first_cancel

-- The purchase is filled in full.
abbrev bought : Result (Option (Order × List Trade)) × State Resting
bought = settle_submit one_order submission draw state

abbrev returned : Result (Option (Order × List Trade)) → Order × List Trade
returned (ok (some out)) = out
returned (ok none) = (purchase, [])
returned (err e) = (purchase, [])

settled_first : bought.0 ≡ ok (some (returned bought.0))
unfolding settle_submit to_settle submit_body match_order settle_trades settle_trade settle_rows
    persisted_row find get_engine is_taken settle_maker Wallets.update Wallets.credit settle_taker
    OrderTable.update update_order_after_match publish_submit_events
settled_first = refl

first_settlement :
    settle_submit one_order submission draw state ≡ (ok (some (returned bought.0)), bought.1)
first_settlement = ap (λ (r : Result (Option (Order × List Trade))). (r, bought.1)) settled_first

filled_now : is_terminal (returned bought.0).0.status ≡ true
unfolding settle_submit to_settle submit_body match_order settle_trades settle_trade settle_rows
    persisted_row find get_engine is_taken settle_maker Wallets.update Wallets.credit settle_taker
    OrderTable.update update_order_after_match publish_submit_events
filled_now = refl

settle_submit-again_example : settle_submit one_order submission draw bought.1 ≡ (ok none, bought.1)
settle_submit-again_example =
    settle_submit-again one_order submission draw draw state bought.1 (returned bought.0).0
      (returned bought.0).1 first_settlement filled_now

replay_open_orders-get_engine_example :
    get_engine one_order 7 (replay_open_orders one_order (sale ∷ gone ∷ []) [])
    ≡ add_open one_order
        (keep_if (is_open_on one_order 7) (sale ∷ gone ∷ []))
        (get_engine one_order 7 [])
replay_open_orders-get_engine_example =
    replay_open_orders-get_engine one_order 7 (sale ∷ gone ∷ []) []
