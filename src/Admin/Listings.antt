-- ===== src/Admin/Listings.antt =====
-- The queries of the admin lists: `AdminOrdersService.list`, `AdminTradesService.list` and
-- `AdminOutboxService.list`.
use orbit_exchange.Base.{
  ℕ, suc, ◌≡◌, ◌<◌, Bool, true, false, not, ◌&&◌, ◌||◌, List, [], ◌∷◌, Option, none, some, ltb, leb,
  ◌==◌, keep_if, IsKeyed, length,
}
use orbit_exchange.Base.Outcome.{Result}
use orbit_exchange.Shared.{
  UserId, MarketSymbol, OrderStatus, opened, partial, filled, cancelled, rejected, KafkaTopic,
  order_commands, trades, orders, orderbook, user_events, retry_30s, dlq,
}
use orbit_exchange.Schema.{Order, Trade, OutboxEvent}
use orbit_exchange.OutboxRelay.{is_pending}
use orbit_exchange.Paging.{Page, page, page_size, reverse}
use orbit_exchange.Paging.Follow.{follow}
use orbit_exchange.Paging.Follow.Queries.{follow-newest, follow-oldest}

-- A condition that may be left out.
abbrev pub unless_absent {ℓ} : {A : Type ℓ} → Option A → (A → Bool) → Bool
unless_absent none test = true
unless_absent (some a) test = test a

-- `createdAt: { gte, lte }`
abbrev within : Option ℕ → Option ℕ → ℕ → Bool
within since until t = unless_absent since (λ s. leb s t) && unless_absent until (λ u. leb t u)

abbrev same_status : OrderStatus → OrderStatus → Bool
same_status opened opened = true
same_status partial partial = true
same_status filled filled = true
same_status cancelled cancelled = true
same_status rejected rejected = true
same_status a b = false

abbrev is_among : List OrderStatus → OrderStatus → Bool
is_among [] t = false
is_among (s ∷ ss) t = same_status s t || is_among ss t

-- `if (statuses.length) where.status = { in: statuses }`
abbrev of_statuses : List OrderStatus → OrderStatus → Bool
of_statuses [] t = true
of_statuses (s ∷ ss) t = is_among (s ∷ ss) t

-- `statuses` are what is left of the list after it is split and trimmed.
pub record OrderQuery : Type 0 where
  pub user_id : Option UserId
  pub market : Option MarketSymbol
  pub statuses : List OrderStatus
  pub since : Option ℕ
  pub until : Option ℕ
  pub take : Option ℕ

-- `created_at` is the column of that name, which nothing else reads.
abbrev pub matches_order : (Order → ℕ) → OrderQuery → Order → Bool
matches_order created_at q o =
    unless_absent q.user_id (λ u. o.user_id == u)
    && unless_absent q.market (λ m. o.symbol == m)
    && of_statuses q.statuses o.status
    && within q.since q.until (created_at o)

unfoldable pub list_orders : (Order → ℕ) → OrderQuery → List Order → Option ℕ → Result (Page Order)
list_orders created_at q table cursor =
    page (λ o. o.id) (page_size q.take 50 200) cursor
      (reverse (keep_if (matches_order created_at q) table))

pub record TradeQuery : Type 0 where
  pub market : Option MarketSymbol
  pub user_id : Option UserId
  pub since : Option ℕ
  pub until : Option ℕ
  pub take : Option ℕ

abbrev pub matches_trade : TradeQuery → Trade → Bool
matches_trade q t =
    unless_absent q.market (λ m. t.symbol == m)
    && unless_absent q.user_id (λ u. t.maker_user_id == u || t.taker_user_id == u)
    && within q.since q.until t.created_at

unfoldable pub list_trades : TradeQuery → List Trade → Option ℕ → Result (Page Trade)
list_trades q table cursor =
    page (λ t. t.id) (page_size q.take 50 200) cursor (reverse (keep_if (matches_trade q) table))

-- `status`: an absent one is 'pending'.
pub data EventStatus : Type 0 where
  pending processed failed all : EventStatus

abbrev of_status : EventStatus → OutboxEvent → Bool
of_status pending ev = is_pending ev
of_status processed ev = not (is_pending ev)
of_status failed ev = is_pending ev && ltb 0 ev.attempts
of_status all ev = true

abbrev pub same_topic : KafkaTopic → KafkaTopic → Bool
same_topic order_commands order_commands = true
same_topic trades trades = true
same_topic orders orders = true
same_topic orderbook orderbook = true
same_topic user_events user_events = true
same_topic retry_30s retry_30s = true
same_topic dlq dlq = true
same_topic a b = false

abbrev pub matches_event : EventStatus → Option KafkaTopic → OutboxEvent → Bool
matches_event status topic ev = of_status status ev && unless_absent topic (same_topic ev.topic)

-- `orderBy`: processed rows newest first, the others oldest first.
abbrev pub in_order {ℓ} : {A : Type ℓ} → EventStatus → List A → List A
in_order pending rows = rows
in_order processed rows = reverse rows
in_order failed rows = rows
in_order all rows = rows

unfoldable pub list_events :
    EventStatus
    → Option KafkaTopic
    → Option ℕ
    → List OutboxEvent
    → Option ℕ
    → Result (Page OutboxEvent)
list_events status topic take table cursor =
    page (λ ev. ev.id) (page_size take 50 200) cursor
      (in_order status (keep_if (matches_event status topic) table))

-- The pages of the list of orders, followed from the first one, end, and show exactly the orders
-- that match, each once and newest first; a page is asked to show at least one, and ids are unique.
pub follow-list_orders :
    (created_at : Order → ℕ) (q : OrderQuery) (table : List Order)
    → 0 < page_size q.take 50 200
    → IsKeyed (λ o. o.id) table
    → follow
        (suc (length (reverse (keep_if (matches_order created_at q) table))))
        (list_orders created_at q table)
        none
      ≡ some (reverse (keep_if (matches_order created_at q) table))
unfolding list_orders
follow-list_orders created_at q table shows keyed =
    follow-newest (λ o. o.id) (matches_order created_at q) (page_size q.take 50 200) table shows
      keyed

-- The same of the list of trades.
pub follow-list_trades :
    (q : TradeQuery) (table : List Trade)
    → 0 < page_size q.take 50 200
    → IsKeyed (λ t. t.id) table
    → follow (suc (length (reverse (keep_if (matches_trade q) table)))) (list_trades q table) none
      ≡ some (reverse (keep_if (matches_trade q) table))
unfolding list_trades
follow-list_trades q table shows keyed =
    follow-newest (λ t. t.id) (matches_trade q) (page_size q.take 50 200) table shows keyed

-- The pages of the list of outbox rows, followed from the first one, end, and show exactly the rows
-- of the status and topic, each once, processed ones newest first and the others oldest first; a
-- page is asked to show at least one, and ids are unique.
pub follow-list_events :
    (status : EventStatus) (topic : Option KafkaTopic) (take : Option ℕ) (table : List OutboxEvent)
    → 0 < page_size take 50 200
    → IsKeyed (λ ev. ev.id) table
    → follow
        (suc (length (in_order status (keep_if (matches_event status topic) table))))
        (list_events status topic take table)
        none
      ≡ some (in_order status (keep_if (matches_event status topic) table))
unfolding list_events
follow-list_events pending topic take table shows keyed =
    follow-oldest (λ ev. ev.id) (matches_event pending topic) (page_size take 50 200) table shows
      keyed
follow-list_events processed topic take table shows keyed =
    follow-newest (λ ev. ev.id) (matches_event processed topic) (page_size take 50 200) table shows
      keyed
follow-list_events failed topic take table shows keyed =
    follow-oldest (λ ev. ev.id) (matches_event failed topic) (page_size take 50 200) table shows
      keyed
follow-list_events all topic take table shows keyed =
    follow-oldest (λ ev. ev.id) (matches_event all topic) (page_size take 50 200) table shows keyed
