-- ===== src/Platform.antt =====
-- What the program calls and does not implement: the database through Prisma, Redis, RabbitMQ through
-- amqplib, the log, the metrics and the clock. Here are the calls and the types of their replies. What
-- the replies and effects are is a parameter everywhere, an environment; what is relied on about it is
-- in the records of Platform/Laws.
pub mod Database
pub mod Broker
pub mod Cache
pub mod Laws
pub mod Turns
pub mod Logged
use flash_sale_lab.Base.{ℕ, String, Bool, Option}
use flash_sale_lab.Base.Int.{ℤ}
use flash_sale_lab.Base.Json.{Fields}
use flash_sale_lab.Io.{Result, Io, pure, throw, call, settle}
use Database.{Order, Statement, Answer, StatementReply}
use Broker.{Queue, Headers, Content, Delivery}
use Cache.{Key, CacheText}

pub data Level : Type 0 where
  log warn error : Level

-- A metric of src/observability/metrics.ts with its label; `observe` of a histogram takes a duration,
-- which is left out, and `observe_count` a number.
pub data Metric : Type 0 where
  observe : String → String → Metric
  observe_count : String → ℕ → Metric
  inc dec : String → String → Metric
  set_gauge : String → String → ℕ → Metric

pub record SpanContext : Type 0 where
  pub trace_id : String
  pub span_id : String

-- What a log line about a request tells beside its event.
pub record RequestLog : Type 0 where
  pub request_id : String
  pub span : Option SpanContext
  pub method : String
  pub route : String
  pub status_code : ℕ
  pub latency_ms : ℤ

-- What a piece of code does beside the services that it calls.
pub data LocalCall : Type 0 where
  -- a line of the log by its level and event, and a metric
  log_event : Level → String → LocalCall
  metric : Metric → LocalCall
  -- `propagation.inject` into an empty carrier; a span of the tracer under an extracted context
  inject_trace : LocalCall
  start_span : String → Fields → LocalCall
  end_span : LocalCall
  -- fields of the process's own objects, which several of its tasks read and write between awaits:
  -- `activeExecutions` of `OutboxPublisherService`, and whether `channel` and `connection` of
  -- `RabbitMqService` are set
  load_active : LocalCall
  store_active : ℕ → LocalCall
  load_channel : LocalCall
  load_connection : LocalCall
  -- `Date.now()` in milliseconds, `randomUUID()`
  now : LocalCall
  random_uuid : LocalCall
  -- `trace.getActiveSpan()` with the ids of its context
  active_span : LocalCall
  -- `response.setHeader` and `response.statusCode` of the request that is being served
  set_header : String → String → LocalCall
  load_status : LocalCall
  -- `httpRequestDurationSeconds.observe` and the log lines of the latency interceptor
  observe_request : String → String → ℕ → ℤ → LocalCall
  log_request : Level → String → RequestLog → LocalCall

abbrev pub LocalReply : LocalCall → Type 0
LocalReply (log_event l e) = Unit
LocalReply (metric m) = Unit
LocalReply inject_trace = Fields
LocalReply (start_span n tc) = Unit
LocalReply end_span = Unit
LocalReply load_active = ℕ
LocalReply (store_active n) = Unit
LocalReply load_channel = Bool
LocalReply load_connection = Bool
LocalReply now = ℕ
LocalReply random_uuid = String
LocalReply active_span = Option SpanContext
LocalReply (set_header n v) = Unit
LocalReply load_status = ℕ
LocalReply (observe_request m r s l) = Unit
LocalReply (log_request l e c) = Unit

-- The calls of code that is given a Prisma client, be it the service or a transaction's.
pub data ClientCall : Type 0 where
  query : Statement → ClientCall
  aside : LocalCall → ClientCall

abbrev pub ClientReply : ClientCall → Type 0
ClientReply (query s) = StatementReply s
ClientReply (aside l) = LocalReply l

abbrev pub Client {ℓ} : Type ℓ → Type ℓ
Client A = Io ClientCall ClientReply A

pub data Call : Type 0 where
  -- a statement outside a transaction, and `prisma.$transaction(body)`
  statement : Statement → Call
  transaction : Client Order → Call
  local : LocalCall → Call
  -- `SELECT 1`
  query_one : Call
  -- `client.get`, `client.set` with `EX` and perhaps `NX`, `client.del`, `client.ping`
  redis_get : Key → Call
  redis_set : Key → CacheText → ℕ → Call
  redis_set_nx : Key → CacheText → ℕ → Call
  redis_del : Key → Call
  redis_ping : Call
  -- `client.isOpen`, `client.connect`, `client.quit`
  redis_is_open : Call
  redis_connect : Call
  redis_quit : Call
  -- methods of a `ConfirmChannel`
  send_to_queue : Queue → Content → Headers → Call
  wait_for_confirms : Call
  ack nack : Delivery → Call
  -- the timer of the notification, which stands for the call of its API
  notify : ℕ → Call

abbrev pub Reply : Call → Type 0
Reply (statement s) = StatementReply s
Reply (transaction body) = Result Order
Reply (local l) = LocalReply l
Reply query_one = Result Unit
Reply (redis_get k) = Result (Option CacheText)
Reply (redis_set k v ttl) = Result (Option CacheText)
Reply (redis_set_nx k v ttl) = Result (Option CacheText)
Reply (redis_del k) = Result ℕ
Reply redis_ping = Result CacheText
Reply redis_is_open = Bool
Reply redis_connect = Result Unit
Reply redis_quit = Result Unit
Reply (send_to_queue q c h) = Result Bool
Reply wait_for_confirms = Result Unit
Reply (ack d) = Result Unit
Reply (nack d) = Result Unit
Reply (notify ms) = Result Unit

-- The programs of src/.
abbrev pub Prog {ℓ} : Type ℓ → Type ℓ
Prog A = Io Call Reply A

module _ {ℓ} {A : Type ℓ} where
  -- Code over a client, given the service's own: each statement stands alone.
  abbrev pub direct : Client A → Prog A
  direct (pure a) = pure a
  direct (throw e) = throw e
  direct (call (query s) k) = call (statement s) (λ r. direct (k r))
  direct (call (aside l) k) = call (local l) (λ r. direct (k r))

abbrev pub report : Level → String → Prog (Unit {0})
report l e = call (local (log_event l e)) pure

abbrev pub measure : Metric → Prog (Unit {0})
measure m = call (local (metric m)) pure

-- The same of code over a client, and a statement, awaited.
abbrev pub note : Metric → Client (Unit {0})
note m = call (aside (metric m)) pure

abbrev pub ask : (s : Statement) → Client (Answer s)
ask s = call (query s) settle
