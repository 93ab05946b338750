-- ===== src/Lib.antt =====
-- Verification of flash-sale-lab: a flash sale backend of orders, products, a transactional outbox and
-- a consumer of order notifications, over PostgreSQL (Prisma), Redis and RabbitMQ.
--
-- How the program is modelled. Asynchronous code is a program of `Io`: a tree of the calls that it
-- makes of what is not in the repository, each with the rest of the code as a function of the reply.
-- Platform lists the calls. What answers them, an environment, is a parameter of every theorem; what
-- is relied on about the database stands in the record `IsDatabase` of Platform/Laws: a statement has
-- the effect that Prisma documents or fails without one, and `$transaction` is isolated and takes
-- effect as a whole or not at all. (PostgreSQL isolates less by default, Read Committed. The law is
-- used of the one body that the program runs, `place_order`, whose only statement that reads what
-- others write is its conditional update, on a locked row and after its own insertions.) Tests/Memory
-- has an environment that meets it. Nothing is assumed of Redis, the broker, the clock, the log and
-- the metrics, but for four hypotheses that the theorems which need them name: that a field of the
-- process is one (`IsField` of Outbox/Active), that the calls of a publishing cycle are served
-- (`serves` of Outbox/Progress), what Redis keeps at a key (`IsCache` of Platform/Laws/Cached), and
-- that a lock lasts (`IsLock` of Consumer/Exclusion). One task runs by `run` of Io/Run, many tasks
-- interleave call by call by `interleave` of Io/Tasks (with a ledger of what each has done by
-- `log_interleave` of Platform/Logged), and those of one process take turns from `await` to `await`
-- by `take_turns` of Platform/Turns. What outlives a task, the connections to RabbitMQ with their
-- timers and handlers, is a step relation (Base/Among has what the two of them share).
--
-- The parts, by file:
--   Platform, Platform/*       the calls; tables of prisma/schema.prisma, queues, keys, the laws
--   Redis                      src/redis/redis.service.ts
--   RabbitMq, RabbitMq/*       src/messaging/rabbitmq.service.ts: connecting, reconnecting, shutting down
--   Order/Repository           src/order/repository/prisma-inventory.repository.ts and prisma-order.repository.ts
--   Order/Service              src/order/order.service.ts, src/order/transaction
--   Order/Service/Atomic       what `create` writes; Order/Stock: what stock and orders add up to
--   Outbox/Repository          src/order/repository/prisma-outbox.repository.ts
--   Outbox/Publisher           src/messaging/outbox-publisher.service.ts, `publishOrderNotification`
--   Outbox/Ledger, Sending, Publishing, Progress   what a publishing cycle does, and in what order
--   Outbox/Active, Cycles, Cycles/*   the field that keeps cycles apart, and that it does
--   Outbox/Told, Known, Telling, Telling/*   which message an event tells of, and what a publisher asks
--   Outbox/Reading             what the repository makes of its rows
--   Product                    src/product
--   Product/Caching, Reading, Refreshing, Racing   when the cache tells what the tables do
--   Consumer/Handler           `handleMessage` of src/messaging/order-notification.consumer.ts
--   Consumer/Lifecycle, Lifecycle/*   how the consumer connects, subscribes, reconnects and shuts down
--   Consumer/Ledger, Settling  what the broker sees of it; Consumer/Redelivery: how often it comes back
--   Consumer/Locking, Locking/Handled, Exclusion, Racing   several handlers of one order at once
--   System                     the tasks that the framework starts; System/Calls: what they call
--   System/Unmarking           the tasks that mark nothing as SENT, all but a publishing cycle
--   System/Delivered, Delivered/*   that a message stands behind each SENT event
--   System/Invariants, Events, Holds, Claims   what all of them keep, however they interleave
--   Health, Health/Truthful    src/health
--   Http/Latency, Passing, Reports   src/observability/http-latency.interceptor.ts, request-id.middleware.ts
--   Http/Controllers           src/order/order.controller.ts, src/product/product.controller.ts, the DTOs,
--                              src/observability/metrics.controller.ts, the pipeline of src/main.ts
--   Http/Placing, Pricing, Getting, Counting   a request for an order, for a new price, for what is
--                              there, for the metrics
--   Seed, Seed/Clearing, Planting, Sparing   prisma/seed.ts, where all is served and where something fails;
--                              Seed/Laws: what it relies on, with the foreign keys of the schema
--   Tests                      a database in memory, and the theorems at concrete inputs
--
-- Orders, the outbox and the tables meet in `place_order`, the body of one transaction; the publisher
-- reads the outbox and hands messages to the broker; the handler takes deliveries from it.
--
-- Choices. Stock and quantity are signed (Base/Int), since a column can go below zero; ids, counts and
-- times are natural numbers, and 32-bit overflow in the database is a failed statement. A Redis key is
-- its template and its number. A message's content is the JSON that the publisher writes, or a text
-- that does not parse. Of a log line there is its level and event, of a histogram's observation its
-- label; durations are left out but for a request's. An id in a route is a natural number. An
-- interleaving can switch tasks at every call, which is finer than JavaScript does, turns are not. There is no fuel:
-- every loop is over a list.
--
-- Not modelled: the declarations of modules, the start of the server and of tracing (wiring of Nest and
-- OpenTelemetry) and the load tests. What Nest, class-validator, Terminus and
-- prom-client do is a parameter: a pipe with the laws of `IsPipe` of Http/Controllers, a health check,
-- a rendered text.
pub mod Base
pub mod Io
pub mod Platform
pub mod Redis
pub mod RabbitMq
pub mod Health
pub mod Http
pub mod Outbox
pub mod Order
pub mod Product
pub mod Consumer
pub mod Seed
pub mod System
mod Tests
