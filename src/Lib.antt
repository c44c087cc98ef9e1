-- ===== src/Lib.antt =====
-- Orbit exchange: a model of its order flow, with the theorems that make it correct.
--
-- The program. The API (apps/api) takes orders: OrderService checks an order, locks what it
-- reserves in the user's wallet, and writes the row and a SUBMIT command to the outbox in one
-- transaction. The outbox relay (apps/workers/src/outbox-relay) sends the rows of the outbox to
-- Kafka. The matcher (apps/matcher) consumes the commands one after the other in each market:
-- SettlerService adds the order to the book in memory, and settles the trades, the wallets, the
-- order rows and the outbox events in one transaction. Workers consume the events behind a retry
-- policy and a dedupe (packages/observability), and keep M1 candles, which the API reads.
--
-- The files.
--   Base          tests on numbers, lists, signed numbers, results with exceptions
--   Shared        packages/shared/src: dto.ts, constants.ts, events.ts
--   Schema        the tables of apps/api/prisma/schema.prisma and `OutboxPublisherService.publish`
--   Wallets       wallet updates, `creditWallet`, `atomicLock`; supply and locked amounts
--   OrderTable    the Order table; what the active orders reserve
--   Ledger        what an operation does to the money; orders that are closed
--   OrderService  apps/api/src/order/order.service.ts: `submit`, `cancel`, the lists of a user
--   Engine        the package orderbook-match-engine, as a parameter
--   MatchingEngine apps/matcher/src/matching/matching-engine.service.ts: books and their replay
--   Settler       apps/matcher/src/settler/settler.service.ts: Settlement and Fill are
--                 `settleTrades`, Sweep is `executeMarketOrder`, Events the outbox rows, Guards and
--                 Submit `settleSubmit`, Cancel `settleCancel`
--   CommandConsumer apps/matcher/src/consumer/command-consumer.service.ts: `handleMessage`
--   Dedupe, RetryPolicy  packages/observability/src: `withDedupe`, `withRetryPolicy`
--   Retry30s      apps/workers/src/retry-30s/index.ts
--   OutboxRelay   apps/workers/src/outbox-relay/index.ts: `drainOnce` and the loop
--   Candles       apps/workers/src/candle-aggregator/index.ts, and the buckets of `candles` of
--                 apps/api/src/market/market.controller.ts
--   Idempotency   apps/api/src/idempotency: the interceptor and the sweep
--   Admin         apps/api/src/admin: wallets, orders, outbox, dead letters, users, markets, assets;
--                 Listings, DlqList and Paging are the lists with their cursors, Access the guards
--                 and the audit log
--   Auth          apps/api/src/auth/auth.service.ts
--   DlqMonitor    apps/workers/src/dlq-monitor/index.ts
--   AuditLogger   apps/workers/src/audit-logger/index.ts
--   Notification  apps/workers/src/notification/index.ts
--   Realtime      apps/realtime/src/market-data and apps/workers/src/market-data-fanout/index.ts
--   MarketData    apps/api/src/market/market.controller.ts: `list`, `orderbook`, `trades`
--   Snapshot      apps/matcher/src/snapshot/snapshot.service.ts
--   System        all services on one database: the steps, what is consistent, and the runs
--   Tests         the theorems at concrete inputs
--
-- How state is modelled. A table is a list in the order of insertion. A transaction is a function
-- on the database that returns or throws; what it did to the database is kept only if it returns,
-- while the book and the counters of the process are kept in both cases (Settler/Work). Loops are
-- structural recursion on a list. The relay's loop and a client that follows cursors count their
-- rounds; one round more than there are rows is enough (OutboxRelay/Liveness, Paging/Follow).
-- Exceptions are values of Base/Outcome.
--
-- Numbers. Prices and quantities are whole numbers of a scale that is fine enough for every value
-- at hand, and wallet amounts count 1/10000 of a unit of that scale, so that a fee in basis points
-- is a whole number. This is exact as long as the columns' decimals and the 20 significant digits
-- of decimal.js hold every product; rounding beyond that is not modelled. A balance or a locked
-- amount that would be negative violates a CHECK and throws.
--
-- Parameters. The engine package, the hash of a request's body, the classifier of errors, the
-- outcome of calls of Kafka and Redis, the verification of an operator's token, random ids and the
-- clock are arguments. The hash of a password and the signature of a token are an interface with the
-- laws that they document (Auth), and so is the store of the dedupe (Dedupe). The settlement of
-- a SUBMIT command has named hypotheses, for a run of System at each command that is settled: the
-- book in memory is in step with the table, that is, the trades that it returns name active rows on
-- the other side of the market, none of them the order's own, with enough left, and their quantities
-- and what is left add up; and the row of a market order is one that nothing has filled yet. They are
-- facts about the book and the table together, and are not proved here: a settlement that is rolled
-- back after it has changed the book, or a replay that adds an order whose command is still to come,
-- can break them. Of kafkajs, the audit logger's model has that a handler of batches that returns has
-- its whole batch resolved (AuditLogger).
--
-- Not modelled: the two front ends, most queries that only read, metrics, tracing and logs, and the
-- isolation of concurrent transactions, which are taken one after the other.
pub mod Base
pub mod Shared
pub mod Schema
pub mod Wallets
pub mod OrderTable
pub mod Ledger
pub mod OrderService
pub mod Engine
pub mod MatchingEngine
pub mod Settler
pub mod Dedupe
pub mod RetryPolicy
pub mod OutboxRelay
pub mod Candles
pub mod Idempotency
pub mod CommandConsumer
pub mod Tests
pub mod Admin
pub mod Retry30s
pub mod Auth
pub mod System
pub mod Paging
pub mod DlqMonitor
pub mod Snapshot
pub mod AuditLogger
pub mod Realtime
pub mod Notification
pub mod MarketData
