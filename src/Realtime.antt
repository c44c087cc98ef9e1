-- ===== src/Realtime.antt =====
-- apps/realtime/src/market-data: `MarketDataGateway`, and the worker that feeds it,
-- apps/workers/src/market-data-fanout.
pub mod Emitted
pub mod Expected
pub mod Requests
pub mod Received
use orbit_exchange.Base.{
  ℕ, Bool, true, false, not, ◌&&◌, ◌||◌, List, [], ◌∷◌, ◌++◌, Option, none, some, ◌==◌,
  if◌then◌else◌, keep_if,
}
use orbit_exchange.Shared.{
  MarketSymbol, OrderSide, Level, KafkaTopic, TradeEvent, OrderbookEvent, Payload, command,
  order_event, trade_event, user_event, orderbook_event,
}
use orbit_exchange.Shared

pub data Kind : Type 0 where
  trade orderbook candle : Kind

abbrev pub same_kind : Kind → Kind → Bool
same_kind trade trade = true
same_kind orderbook orderbook = true
same_kind candle candle = true
same_kind a b = false

-- `md:${symbol}:${kind}`, a channel of Redis and a room of the gateway.
pub record Room : Type 0 where
  pub symbol : MarketSymbol
  pub kind : Kind

abbrev pub same_room : Room → Room → Bool
same_room a b = a.symbol == b.symbol && same_kind a.kind b.kind

-- What a client gets: a tick, a book, or the snapshot that the matcher has stored.
pub data Emission : Type 0 where
  tick : (id market price quantity : ℕ) → OrderSide → (ts : ℕ) → Emission
  book : (symbol : MarketSymbol) → (asks bids : List Level) → (ts : ℕ) → Emission
  snapshot : ℕ → Emission

-- The worker's handler, of an event that its dedupe lets through: what it publishes, and where. A
-- topic that it has not subscribed to is passed over.
pub fan_out : KafkaTopic → Payload → Option (Room × Emission)
fan_out Shared.trades (trade_event t) = some (
  record { symbol = t.symbol; kind = trade },
  tick t.id t.symbol t.price t.quantity t.taker_side t.ts,
)
fan_out Shared.orderbook (orderbook_event o) =
    some (record { symbol = o.symbol; kind = orderbook }, book o.symbol o.asks o.bids o.ts)
fan_out topic payload = none

-- A pod: who is connected, who is in which room, and what was sent to whom.
pub record Gateway : Type 0 where
  pub clients : List ℕ
  pub is_in : ℕ → Room → Bool
  pub emitted : List (ℕ × Emission)

abbrev pub emit_to : (ℕ → Bool) → Emission → List ℕ → List (ℕ × Emission)
emit_to p x [] = []
emit_to p x (c ∷ cs) = if p c then (c, x) ∷ emit_to p x cs else emit_to p x cs

-- The callback of `pmessage`: `server.to(room).emit(...)`.
abbrev pub on_message : Room → Emission → Gateway → Gateway
on_message room x g = record g { emitted = g.emitted ++ emit_to (λ c. g.is_in c room) x g.clients }

-- `client.join` and `client.leave`.
abbrev set_in : Bool → ℕ → Room → Gateway → Gateway
set_in b c room g = record g {
  is_in = λ d r. if d == c && same_room r room then b else g.is_in d r;
}

abbrev set_all : Bool → ℕ → MarketSymbol → List Kind → Gateway → Gateway
set_all b c symbol [] g = g
set_all b c symbol (k ∷ ks) g =
    set_all b c symbol ks (set_in b c (record { symbol = symbol; kind = k }) g)

-- `kind === 'all' ? [...] : [kind]`, with 'all' for none.
abbrev kinds_of : Option Kind → List Kind
kinds_of none = trade ∷ orderbook ∷ candle ∷ []
kinds_of (some k) = k ∷ []

abbrev wants_book : Option Kind → Bool
wants_book none = true
wants_book (some k) = same_kind k orderbook

abbrev push_snapshot : ℕ → Bool → Option ℕ → Gateway → Gateway
push_snapshot c true (some s) g = record g { emitted = g.emitted ++ (c, snapshot s) ∷ [] }
push_snapshot c true none g = g
push_snapshot c false s g = g

-- `onSubscribe`; `cached` is what `getOrderbook` reads. An absent symbol is refused.
unfoldable pub on_subscribe : ℕ → Option MarketSymbol → Option Kind → Option ℕ → Gateway → Gateway
on_subscribe c none kind cached g = g
on_subscribe c (some symbol) kind cached g =
    push_snapshot c (wants_book kind) cached (set_all true c symbol (kinds_of kind) g)

unfoldable pub on_unsubscribe : ℕ → Option MarketSymbol → Option Kind → Gateway → Gateway
on_unsubscribe c none kind g = g
on_unsubscribe c (some symbol) kind g = set_all false c symbol (kinds_of kind) g

-- A connection has no rooms, and leaves them at its end.
abbrev connect : ℕ → Gateway → Gateway
connect c g = record g {
  clients = c ∷ g.clients;
  is_in = λ d r. if d == c then false else g.is_in d r;
}

abbrev disconnect : ℕ → Gateway → Gateway
disconnect c g = record g { clients = keep_if (λ d. not (d == c)) g.clients }

-- What happens to a pod.
pub data Happening : Type 0 where
  connected disconnected : ℕ → Happening
  subscribed : ℕ → Option MarketSymbol → Option Kind → Option ℕ → Happening
  unsubscribed : ℕ → Option MarketSymbol → Option Kind → Happening
  fed : KafkaTopic → Payload → Happening

abbrev feed : Option (Room × Emission) → Gateway → Gateway
feed none g = g
feed (some (room, x)) g = on_message room x g

abbrev happen : Happening → Gateway → Gateway
happen (connected c) g = connect c g
happen (disconnected c) g = disconnect c g
happen (subscribed c symbol kind cached) g = on_subscribe c symbol kind cached g
happen (unsubscribed c symbol kind) g = on_unsubscribe c symbol kind g
happen (fed topic payload) g = feed (fan_out topic payload) g

pub run : List Happening → Gateway → Gateway
unfolding on_subscribe on_unsubscribe fan_out
run [] g = g
run (h ∷ hs) g = run hs (happen h g)
