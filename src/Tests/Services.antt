-- ===== src/Tests/Services.antt =====
-- Accounts, lists, dead letters, snapshots and the relay's loop on small inputs.
use orbit_exchange.Base.{
  ℕ, suc, ◌≡◌, ◌≤◌, ◌+◌, ◌⊎◌, refl, none, some, List, [], ◌∷◌, ◌++◌, true, false, length, map,
  keep_if, IsKeyed, arith,
}
use orbit_exchange.Base.Outcome.{ok, err, email_taken, account_frozen, engine_error}
use orbit_exchange.Shared.{bid, ask, UserId, trades, dlq}
use orbit_exchange.Schema.{Trade, Db, OutboxEvent}
use orbit_exchange.OrderService.{submit_order}
use orbit_exchange.Auth.{Tokens, signup, login, refresh, login-signup}
use orbit_exchange.Admin.AdminUsers.{set_frozen, set_frozen-submit_order}
use orbit_exchange.Paging.{Page}
use orbit_exchange.MarketData.{of_market, market_trades, market_trades-list_trades}
use orbit_exchange.Paging.Follow.{follow}
use orbit_exchange.Admin.Listings.{
  list_trades, pending, list_events, matches_event, follow-list_events,
}
use orbit_exchange.RetryPolicy.{Escalated}
use orbit_exchange.Admin.AdminDlq.{DlqEvent, Dlq, find_row, ready, replay}
use orbit_exchange.DlqMonitor.{
  Headers, letter_of, replayed_of, replayed_headers, monitor, replay-monitor,
}
use orbit_exchange.Snapshot.{
  Happening, scheduled, fired, finished, IsQueued, IsOnTime, run, at_boot, schedule, begin_write,
  throttle_ms, schedule-soon,
}
use orbit_exchange.OutboxRelay.{Relay, Attempt, delivered, message_of, catch_up}
use orbit_exchange.OutboxRelay.Waiting.{waiting}
use orbit_exchange.OutboxRelay.Liveness.{catch_up-done}
use orbit_exchange.Tests.Fixtures.{funded, request, plain}
use orbit_exchange.Tests.Operators.{event}

abbrev tokens : Tokens (UserId × ℕ)
tokens = record { access_token = (30, 77); refresh_token = (30, 77); user_id = 30; email = 77 }

abbrev joined : Db
joined = record funded {
  users = funded.users ++ record { id = 30; frozen = false; email = 77; password_hash = 5 } ∷ [];
  wallets =
      funded.wallets
      ++ record { user_id = 30; asset = 0; balance = 100_000_000; locked = 0 }
        ∷ record { user_id = 30; asset = 1; balance = 1; locked = 0 }
        ∷ record { user_id = 30; asset = 2; balance = 5; locked = 0 }
        ∷ record { user_id = 30; asset = 3; balance = 10_000; locked = 0 }
        ∷ [];
}

signed_up : signup plain 1 30 77 5 funded ≡ ok (tokens, joined)
unfolding signup
signed_up = refl

login-signup_example :
    (login plain 77 5 joined ≡ ok tokens)
    × (refresh plain tokens.refresh_token ≡ ok tokens)
    × (signup plain 1 31 77 6 joined ≡ err email_taken)
login-signup_example = login-signup plain 1 30 77 5 31 6 funded joined tokens signed_up

abbrev frozen : Db
frozen = record funded {
  users =
      record { id = 10; frozen = false; email = 10; password_hash = 10 }
      ∷ record { id = 20; frozen = true; email = 20; password_hash = 20 }
      ∷ [];
}

froze : set_frozen 20 true funded ≡ ok frozen
unfolding set_frozen
froze = refl

set_frozen-submit_order_example : submit_order 20 request 9 5 frozen ≡ err account_frozen
set_frozen-submit_order_example = set_frozen-submit_order 20 funded frozen request 9 5 froze

abbrev trade : ℕ → ℕ → Trade
trade id symbol = record {
  id = id;
  sequence = id;
  symbol = symbol;
  price = 100;
  quantity = 2;
  maker_order_id = 1;
  taker_order_id = 2;
  maker_side = ask;
  taker_side = bid;
  maker_user_id = 10;
  taker_user_id = 20;
  maker_fee = 20;
  taker_fee = 40;
  match_id = record { command_id = 2; match_idx = id };
  created_at = 0;
}

-- The latest two of the three trades of market 7.
abbrev tape : List Trade
tape = trade 1 7 ∷ trade 2 8 ∷ trade 3 7 ∷ trade 4 7 ∷ []

market_trades-list_trades_example :
    (p : Page Trade) × (list_trades (of_market 7 (some 2)) tape none ≡ ok p)
    × (p.items ≡ market_trades 7 (some 2) tape)
market_trades-list_trades_example = market_trades-list_trades 7 (some 2) tape (omega arith)

-- Three rows wait; one was processed.
abbrev outbox : List OutboxEvent
outbox = event 1 none none ∷ event 2 (some 9) none ∷ event 3 none none ∷ event 4 none none ∷ []

outbox_keyed : IsKeyed (λ ev. ev.id) outbox
outbox_keyed = ((refl, (refl, (refl, tt))), ((refl, (refl, tt)), ((refl, tt), (tt, tt))))

follow-list_events_example :
    follow
      (suc (length (keep_if (matches_event pending none) outbox)))
      (list_events pending none (some 2) outbox)
      none
    ≡ some (keep_if (matches_event pending none) outbox)
follow-list_events_example =
    follow-list_events pending none (some 2) outbox (omega arith) outbox_keyed

abbrev relay : Relay
relay = record { outbox = outbox; kafka = [] }

abbrev all_delivered : OutboxEvent → Attempt
all_delivered ev = delivered

waiting_keyed : IsKeyed (λ ev. ev.id) (waiting outbox)
waiting_keyed = ((refl, (refl, tt)), ((refl, tt), (tt, tt)))

catch_up-done_example :
    (r : Relay) × (catch_up 4 7 all_delivered 2 relay ≡ some r)
    × (waiting r.outbox ≡ [])
    × (r.kafka ≡ [] ++ map message_of (waiting relay.outbox))
catch_up-done_example = catch_up-done 3 7 1 relay waiting_keyed (omega arith)

abbrev no_headers : Headers
no_headers = record {
  original_topic = none;
  original_partition = none;
  original_offset = none;
  original_key = none;
  worker = none;
  last_error = none;
  attempt = none;
  replay_of = none;
  traceparent = some 1;
}

abbrev given_up : Escalated
given_up = record {
  target = dlq;
  key = some 7;
  value = some 8;
  original_topic = trades;
  original_partition = 0;
  original_offset = 11;
  attempt = 3;
  last_error = engine_error;
  retry_after = none;
}

abbrev no_letters : Dlq
no_letters = record { rows = []; sent = [] }

replay-monitor_example :
    ((replay ready 1 9 4 (record no_letters {
      rows = monitor true 4 (letter_of no_headers 6 0 20 given_up) [];
    })).1.sent
      ≡ [] ++ replayed_of 4 no_headers 8 given_up ∷ [])
    × (r : DlqEvent) × (find_row 5 (
          monitor true 5
            (letter_of (replayed_headers (replayed_of 4 no_headers 8 given_up)) 6 0 21 given_up)
            [])
        ≡ some r)
    × (r.replayed_from ≡ some 4)
    × (r.original_topic ≡ trades)
    × (r.payload ≡ 8)
replay-monitor_example =
    replay-monitor no_headers 6 0 20 4 1 9 8 given_up no_letters 5 21 8 given_up [] refl refl refl
      refl

-- A change and its write, two more changes for one queued write, and its timer.
abbrev history : List (ℕ × Happening)
history =
    (500, scheduled) ∷ (2, finished true) ∷ (28, scheduled) ∷ (40, scheduled) ∷ (32, fired) ∷ []

on_time : IsOnTime 0 history at_boot
unfolding schedule
on_time = (tt, tt, (tt, tt, (tt, tt, (omega arith, tt, (omega arith, refl, tt)))))

schedule-soon_example :
    ((schedule (run 0 history at_boot).0 (run 0 history at_boot).1
        ≡ begin_write (run 0 history at_boot).0 (run 0 history at_boot).1)
      × ((run 0 history at_boot).1.last_write + throttle_ms ≤ (run 0 history at_boot).0))
    ⊎ IsQueued (run 0 history at_boot).0 (run 0 history at_boot).1
schedule-soon_example = schedule-soon history on_time
