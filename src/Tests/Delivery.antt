-- ===== src/Tests/Delivery.antt =====
-- What reaches a client, the archive and an admin endpoint, on small inputs.
use orbit_exchange.Base.{
  ℕ, ◌≡◌, ◌⊎◌, refl, Option, none, some, List, [], ◌∷◌, ◌++◌, true, false, ◌==◌, ◌&&◌,
  if◌then◌else◌, arith,
}
use orbit_exchange.Base.Outcome.{Error, Result, ok, err}
use orbit_exchange.Shared.{bid, ask, trades, trade_event, TradeEvent, uuid}
use orbit_exchange.Shared.{UserEvent, order_filled}
use orbit_exchange.Base.Outcome.{engine_error}
use orbit_exchange.Dedupe.{World}
use orbit_exchange.RetryPolicy.{RetryConfig, default_config, transient}
use orbit_exchange.Notification.{Delivery, Published, notify_all, notify_all-once}
use orbit_exchange.Tests.Workers.{Store, table, context, memory}
use orbit_exchange.AuditLogger.{
  Logger, Happening, produced, batched, acknowledged, unacknowledged, each_batch, run,
}
use orbit_exchange.AuditLogger.Archived.{IsArchived, run-IsArchived}
use orbit_exchange.Realtime.{Gateway, Room, trade, orderbook, same_room}
use orbit_exchange.Realtime
use orbit_exchange.Realtime.Expected.{expected}
use orbit_exchange.Admin.Access.{Claims, bearer, Route, Call, Audited, handle}
use orbit_exchange.Admin.Access.Admitted.{Admitted, logged, handle-cases}

-- A message without a value, then a batch of two that is stored but not acknowledged, and is fetched
-- again in the next hour, with a third message.
abbrev history : List Happening
history =
    produced none
    ∷ produced (some 8)
    ∷ batched 13 2 2 unacknowledged
    ∷ produced (some 9)
    ∷ batched 14 3 3 acknowledged
    ∷ []

abbrev new_logger : Logger
new_logger = record { read = []; unread = []; bucket = [] }

-- The loop breaks off after the first of two messages: the second is passed over.
broken_off :
    each_batch 13 2 1 acknowledged
      (record { read = []; unread = some 8 ∷ some 9 ∷ []; bucket = [] })
    ≡ record {
      read = some 8 ∷ some 9 ∷ [];
      unread = [];
      bucket = record { hour = 13; first = 0; lines = 8 ∷ [] } ∷ [];
    }
unfolding each_batch
broken_off = refl

run-IsArchived_example : IsArchived (run history new_logger)
run-IsArchived_example =
    run-IsArchived history new_logger (tt, (tt, (omega arith, (tt, (omega arith, tt))))) tt

-- Client 1 is in the room of the trades of market 7, asks for the books, and then for nothing more;
-- client 2 comes, asks and goes.
abbrev gateway : Gateway
gateway = record {
  clients = 1 ∷ [];
  is_in = λ c r. c == 1 && same_room r (record { symbol = 7; kind = trade });
  emitted = [];
}

abbrev traded : TradeEvent
traded = record {
  event_id = uuid 1;
  id = 1;
  sequence = 1;
  symbol = 7;
  price = 100;
  quantity = 2;
  maker_order_id = 1;
  taker_order_id = 2;
  maker_user_id = 10;
  taker_user_id = 20;
  maker_side = ask;
  taker_side = bid;
  ts = 0;
}

abbrev happenings : List Realtime.Happening
happenings =
    Realtime.connected 2
    ∷ Realtime.subscribed 2 (some 7) none (some 5)
    ∷ Realtime.fed trades (trade_event traded)
    ∷ Realtime.unsubscribed 2 (some 7) (some orderbook)
    ∷ Realtime.subscribed 1 (some 7) (some orderbook) (some 6)
    ∷ Realtime.unsubscribed 1 (some 7) none
    ∷ Realtime.fed trades (trade_event traded)
    ∷ Realtime.disconnected 2
    ∷ []

what_client_1_has :
    expected 1 (gateway.is_in 1) happenings
    ≡ Realtime.tick 1 7 100 2 bid 0 ∷ Realtime.snapshot 6 ∷ []
what_client_1_has = refl

-- An operator with the role 3 counts up, for a reason.
abbrev operator : Claims
operator = record { sub = 5; email = none; preferred_username = some 6; roles = 2 ∷ 3 ∷ [] }

abbrev verify : ℕ → Option Claims
verify t = if t == 77 then some operator else none

abbrev counts : ℕ → Result ℕ × ℕ
counts n = (ok n, 1)

abbrev route : Route
route = record {
  required = 3 ∷ [];
  meta = some (record { action = 1; target_type = 2; reason_required = true });
}

abbrev call : Call ℕ
call = record {
  authorization = bearer 77;
  target_id = 20;
  reason = some (record { text = 4; blank = false });
}

abbrev audited : Audited ℕ ℕ
audited = record { world = 0; log = [] }

handle-cases_example :
    ((¬ ((admin : Claims) × Admitted verify route call admin))
      × ((e : Error) × (handle verify counts true route call audited ≡ (err e, audited))))
    ⊎ ((admin : Claims) × Admitted verify route call admin
        × (handle verify counts true route call audited ≡ (
          (counts 0).0,
          record {
            world = (counts 0).1;
            log = [] ++ logged true admin route.meta 20 call.reason (counts 0).0;
          },
        )))
handle-cases_example = handle-cases verify counts true route call audited

abbrev notice : UserEvent
notice = record {
  event_id = uuid 1;
  user_id = 20;
  type = order_filled;
  order_id = 2;
  symbol = 7;
  price = some 100;
  quantity = some 2;
  ts = 0;
}

abbrev delivery : ℕ → Option Error → Delivery
delivery now sns_error = record {
  memory = memory;
  ctx = context;
  now = now;
  publish_error = none;
  sns_error = sns_error;
}

abbrev quiet : World Store Published
quiet = record { redis = λ k. none; work = [] }

abbrev config : RetryConfig
config = default_config (λ e. transient)

-- SNS fails once, works, and the message comes again within the hour.
notify_all-once_example :
    ((notify_all table config true 5 notice (delivery 10 (some engine_error) ∷ []) quiet).work ≡ [])
    × ((notify_all table config true 5 notice
          (delivery 20 none ∷ delivery 3600019 none ∷ [])
          (notify_all table config true 5 notice (delivery 10 (some engine_error) ∷ []) quiet)).work
        ≡ [] ++ notice ∷ [])
notify_all-once_example =
    notify_all-once table config true 5 10 notice (delivery 10 (some engine_error) ∷ [])
      (delivery 3600019 none ∷ []) (delivery 20 none) quiet refl refl
      ((omega arith, (engine_error, refl)), tt) (omega arith) refl (omega arith, tt)
