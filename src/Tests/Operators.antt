-- ===== src/Tests/Operators.antt =====
-- An operator's changes on small inputs.
use orbit_exchange.Base.{
  ℕ, ◌≡◌, ◌⊎◌, ◌+◌, ◌==◌, refl, on, not, true, false, List, [], ◌∷◌, Option, none, some,
}
use orbit_exchange.Base.Int.{ℤ, negsuc, pos_part, neg_part}
use orbit_exchange.Base.Outcome.{Error, ok, err, record_not_found}
use orbit_exchange.Shared.{bid, trades, trade_event, TradeEvent, uuid, ask}
use orbit_exchange.Schema.{Wallet, OutboxEvent}
use orbit_exchange.Wallets.Supply.{supply}
use orbit_exchange.Wallets.Locked.{locked, same}
use orbit_exchange.OrderTable.{find}
use orbit_exchange.OrderService.{cancel_order}
use orbit_exchange.Admin.AdminWallets.{
  Field, locked_funds, AdjustInput, adjust, adjust_wallet, adjust-moves, locked_part,
}
use orbit_exchange.Admin.AdminOrders.{force_cancel, force_cancel-cancel_order}
use orbit_exchange.Admin.AdminDlq
use orbit_exchange.Admin.AdminDlq.{
  DlqEvent, Dlq, Producer, ready, failing, find_row, replay, dismiss, replay-once, unmarked,
}
use orbit_exchange.Tests.Fixtures.{both_wallets, db, purchase}

abbrev input : AdjustInput
input = record { field = some locked_funds; delta = some (negsuc 19); reason = true }

-- User 20 has 20 less locked of asset 2.
abbrev less : List Wallet
less =
    record { user_id = 10; asset = 1; balance = 0; locked = 20000 }
    ∷ record { user_id = 20; asset = 2; balance = 0; locked = 2019980 }
    ∷ []

adjusted : adjust 20 2 input both_wallets ≡ ok less
unfolding adjust adjust_wallet
adjusted = refl

adjust-moves_example :
    (f : Field) × (d : ℤ) × (input.field ≡ some f)
    × (input.delta ≡ some d)
    × (not input.reason ≡ false)
    × (supply 2 less + on (2 == 2) (neg_part d) ≡ supply 2 both_wallets + on (2 == 2) (pos_part d))
    × (locked 20 2 less + same 20 2 20 2 (locked_part f (neg_part d))
        ≡ locked 20 2 both_wallets + same 20 2 20 2 (locked_part f (pos_part d)))
adjust-moves_example = adjust-moves 20 2 20 2 input both_wallets less adjusted

there : find 2 db.orders ≡ some purchase
unfolding find
there = refl

force_cancel-cancel_order_example : force_cancel 2 9 5 db ≡ cancel_order 20 2 9 5 db
force_cancel-cancel_order_example = force_cancel-cancel_order 2 9 5 db purchase there

abbrev trade : TradeEvent
trade = record {
  event_id = uuid 1;
  id = 1;
  sequence = 1;
  symbol = 7;
  price = 100;
  quantity = 2;
  maker_order_id = 1;
  taker_order_id = 2;
  maker_user_id = 10;
  taker_user_id = 20;
  maker_side = ask;
  taker_side = bid;
  ts = 0;
}

abbrev pub event : ℕ → Option ℕ → Option ℕ → OutboxEvent
event id processed_at last_error = record {
  id = id;
  topic = trades;
  key = 7;
  payload = trade_event trade;
  processed_at = processed_at;
  attempts = 0;
  last_error = last_error;
}

abbrev letter : DlqEvent
letter = record {
  id = 4;
  original_topic = trades;
  original_partition = 0;
  original_offset = 11;
  worker = some 6;
  last_error = none;
  attempt = 3;
  replayed_from = none;
  original_key = none;
  traceparent = some 1;
  payload = 8;
  resolved_at = none;
  resolution = none;
  resolved_by = none;
}

abbrev letters : Dlq
letters = record { rows = letter ∷ []; sent = [] }

-- The UPDATE after the message throws: the message is out twice when the operator tries again.
twice :
    (replay ready 1 10 4 (replay (unmarked record_not_found) 1 9 4 letters).1).1.sent
    ≡ AdminDlq.message_of letter ∷ AdminDlq.message_of letter ∷ []
unfolding replay
twice = refl

replay-once_example :
    (((replay ready 1 9 4 letters).0 ≡ ok tt)
      × AdminDlq.IsDone letters (replay ready 1 9 4 letters).1 4 ready 2 10)
    ⊎ ((e : Error) × ((replay ready 1 9 4 letters).0 ≡ err e)
        × AdminDlq.IsLeft letters (replay ready 1 9 4 letters).1 4 ready e)
replay-once_example = replay-once ready ready 1 2 9 10 4 letters
