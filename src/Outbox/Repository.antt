-- ===== src/Outbox/Repository.antt =====
-- src/order/repository/outbox.repository.ts and prisma-outbox.repository.ts.
use flash_sale_lab.Base.{ℕ, ◌-◌, String, Bool, Option, none, some, List, [], ◌∷◌, ◌==◌}
use flash_sale_lab.Base.Json.{Json, num, str, obj, Fields, end, field, get_field}
use flash_sale_lab.Io.{error, error_at, Result, ok, err, pure, call, ◌>>=◌, ◌>>◌, settle}
use flash_sale_lab.Platform.{Client, aside, now, ask}
use flash_sale_lab.Platform.Database.{
  pending, processing, sent, OutboxEvent, create_event, find_events, update_events, update_event,
}

-- The payload's three fields stand beside the type.
pub record CreateOutboxEventInput : Type 0 where
  pub kind : String
  pub order_id : ℕ
  pub request_id : String
  pub trace_context : Fields

pub record PendingOutboxEvent : Type 0 where
  pub id : ℕ
  pub kind : String
  pub order_id : ℕ
  pub request_id : String
  pub trace_context : Fields

-- The payload as the `Json` column holds it.
abbrev pub payload_json : ℕ → String → Fields → Json
payload_json order_id request_id trace_context = obj (
    field "orderId" (num order_id)
      (field "requestId" (str request_id) (field "traceContext" (obj trace_context) end)))

unfoldable pub create : CreateOutboxEventInput → Client (Unit {0})
create input = do
  ask (create_event input.kind (payload_json input.order_id input.request_id input.trace_context))
  pure tt

-- `typeof v === 'number'`, `typeof v === 'string'`, and an object that is no array and not null
abbrev pub as_number : Option Json → Option ℕ
as_number (some (num n)) = some n
as_number _ = none

abbrev pub as_string : Option Json → Option String
as_string (some (str s)) = some s
as_string _ = none

abbrev pub as_object : Option Json → Option Fields
as_object (some (obj fs)) = some fs
as_object _ = none

-- The checks of one row, in the source's order: the payload, then the trace context.
abbrev read_trace_context : OutboxEvent → ℕ → String → Option Fields → Result PendingOutboxEvent
read_trace_context e n r none = err (error "Invalid traceContext")
read_trace_context e n r (some tc) =
    ok (record { id = e.id; kind = e.kind; order_id = n; request_id = r; trace_context = tc })

abbrev read_fields : OutboxEvent → Fields → Option ℕ → Option String → Result PendingOutboxEvent
read_fields e fs (some n) (some r) =
    read_trace_context e n r (as_object (get_field "traceContext" fs))
read_fields e fs _ _ = err (error_at "Invalid outbox payload: " e.id)

abbrev read_payload : OutboxEvent → Option Fields → Result PendingOutboxEvent
read_payload e none = err (error_at "Invalid outbox payload: " e.id)
read_payload e (some fs) =
    read_fields e fs (as_number (get_field "orderId" fs)) (as_string (get_field "requestId" fs))

unfoldable pub read_event : OutboxEvent → Result PendingOutboxEvent
read_event e = read_payload e (as_object (some e.payload))

abbrev pub cons_ok :
    Result PendingOutboxEvent → Result (List PendingOutboxEvent) → Result (List PendingOutboxEvent)
cons_ok (ok p) (ok ps) = ok (p ∷ ps)
cons_ok (ok p) (err e) = err e
cons_ok (err e) rest = err e

-- `events.map(…)`, which throws what the first bad row throws.
unfoldable pub read_events : List OutboxEvent → Result (List PendingOutboxEvent)
unfolding read_event
read_events [] = ok []
read_events (e ∷ es) = cons_ok (read_event e) (read_events es)

unfoldable pub find_pending : ℕ → Client (List PendingOutboxEvent)
unfolding read_events
find_pending limit = do
  events ← ask (find_events (record { id = none; status = some pending; started_lt = none }) limit)
  settle (read_events events)

unfoldable pub mark_as_sent : ℕ → Client (Unit {0})
mark_as_sent id = do
  sent_at ← call (aside now) pure
  ask (
      update_event id
        (record { status = sent; processing_started_at = none; sent_at = some sent_at }))
  pure tt

unfoldable pub claim : ℕ → Client Bool
claim id = do
  started_at ← call (aside now) pure
  count ← ask (
      update_events (record { id = some id; status = some pending; started_lt = none })
        (record { status = processing; processing_started_at = some started_at; sent_at = none }))
  pure (count == 1)

-- Milliseconds after which a claimed event counts as stuck. A clock that shows less gives a time
-- before all others, as `-` on ℕ gives 0: no time lies before either.
abbrev pub stuck_after : ℕ
stuck_after = 30000

unfoldable pub recover_stuck_processing : Client ℕ
recover_stuck_processing = do
  time ← call (aside now) pure
  ask (
      update_events
        (record { id = none; status = some processing; started_lt = some (time - stuck_after) })
        (record { status = pending; processing_started_at = none; sent_at = none }))
