-- ===== src/Realtime/Expected.antt =====
-- What a client is to receive, said from its own requests and from the messages of Kafka.
use orbit_exchange.Base.{
  ℕ, ◌≡◌, Bool, true, false, ◌&&◌, List, [], ◌∷◌, ◌++◌, Option, none, some, ◌==◌, if◌then◌else◌,
}
use orbit_exchange.Shared.{
  MarketSymbol, KafkaTopic, Payload, trade_event, orderbook_event, command, order_event, user_event,
}
use orbit_exchange.Shared
use orbit_exchange.Realtime.{
  Kind, trade, orderbook, same_kind, Room, Emission, tick, book, snapshot, Happening, connected,
  disconnected, subscribed, unsubscribed, fed,
}

-- The client itself neither connects nor disconnects.
abbrev pub IsStaying : ℕ → Happening → Type 0
IsStaying c (connected d) = (d == c) ≡ false
IsStaying c (disconnected d) = (d == c) ≡ false
IsStaying c h = Unit {0}

-- What a request is about: the rooms of its market, of its kind or of every kind.
abbrev pub is_asked : MarketSymbol → Option Kind → Room → Bool
is_asked s none r = r.symbol == s
is_asked s (some k) r = r.symbol == s && same_kind r.kind k

-- The rooms of the client after a step.
abbrev pub rooms_after : ℕ → (Room → Bool) → Happening → Room → Bool
rooms_after c p (subscribed d (some s) kind cached) r =
    if d == c then if is_asked s kind r then true else p r else p r
rooms_after c p (unsubscribed d (some s) kind) r =
    if d == c then if is_asked s kind r then false else p r else p r
rooms_after c p h r = p r

-- What a client in these rooms has of a message of Kafka: the tick of a trade, for the room of its
-- market's trades, and a book, for the room of its market's books.
abbrev pub of_message : (Room → Bool) → KafkaTopic → Payload → List Emission
of_message p Shared.trades (trade_event t) =
    if p (record { symbol = t.symbol; kind = trade })
    then tick t.id t.symbol t.price t.quantity t.taker_side t.ts ∷ []
    else []
of_message p Shared.orderbook (orderbook_event o) =
    if p (record { symbol = o.symbol; kind = orderbook })
    then book o.symbol o.asks o.bids o.ts ∷ []
    else []
of_message p topic payload = []

-- The stored snapshot, for a request of the books or of every kind.
abbrev pub of_request : Option Kind → Option ℕ → List Emission
of_request none (some x) = snapshot x ∷ []
of_request (some orderbook) (some x) = snapshot x ∷ []
of_request kind cached = []

abbrev pub of_step : ℕ → (Room → Bool) → Happening → List Emission
of_step c p (subscribed d (some s) kind cached) = if d == c then of_request kind cached else []
of_step c p (fed topic payload) = of_message p topic payload
of_step c p h = []

-- What the client is to have of a history that begins with it in these rooms.
abbrev pub expected : ℕ → (Room → Bool) → List Happening → List Emission
expected c p [] = []
expected c p (h ∷ hs) = of_step c p h ++ expected c (rooms_after c p h) hs
