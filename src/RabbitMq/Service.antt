-- ===== src/RabbitMq/Service.antt =====
-- The methods and handlers of `RabbitMqService`, cut where they wait: JavaScript runs the code from
-- one `await` to the next undisturbed, so each function here takes the fields from one to the next.
-- Log lines are left out. `publishOrderNotification` is in Outbox/Publisher.
use flash_sale_lab.Base.{
  ℕ, Bool, true, false, ◌&&◌, ◌||◌, Option, none, some, is_some, if◌then◌else◌,
}
use flash_sale_lab.Platform.Broker.{
  Queue, order_notification, order_notification_dlq, order_notification_retry,
  order_notification_processing_retry,
}

-- The fields. A connection is a number, and so is its channel, of which each connection has one.
pub record Fields : Type 0 where
  pub connection : Option ℕ
  pub channel : Option ℕ
  pub reconnect_timer : Bool
  pub connecting : Bool
  pub shutting_down : Bool

abbrev pub created : Fields
created = record {
  connection = none;
  channel = none;
  reconnect_timer = false;
  connecting = false;
  shutting_down = false;
}

-- Where a call of `connect` waits: for `amqp.connect`, for `createConfirmChannel`, for the assertion
-- of a queue.
pub data Await : Type 0 where
  opening : Await
  creating : ℕ → Await
  asserting : ℕ → Queue → Await

-- How the wait ends; `amqp.connect` resolves to a connection.
pub data Outcome : Type 0 where
  resolved : Outcome
  rejected : Outcome

unfoldable pub connect : Fields → Fields × Option Await
connect s =
    if s.shutting_down || (s.connecting || is_some s.channel)
    then (s, none)
    else (record s { connecting = true }, some opening)

unfoldable pub schedule_reconnect : Fields → Fields
schedule_reconnect s =
    if s.shutting_down || s.reconnect_timer then s else record s { reconnect_timer = true }

-- The callback of the timer.
unfoldable pub on_timer : Fields → Fields × Option Await
unfolding connect
on_timer s = connect (record s { reconnect_timer = false })

-- The handler of the connection's `close`.
unfoldable pub on_close : Fields → Fields
unfolding schedule_reconnect
on_close s =
    let t = record s { connection = none; channel = none } in
    if t.shutting_down then t else schedule_reconnect t

-- The end of `connect`, after the last queue, and its `finally`.
unfoldable pub connected : ℕ → Fields → Fields
connected c s = record s { connection = some c; channel = some c; connecting = false }

-- The `catch` and the `finally` of `connect`.
unfoldable pub failed : Fields → Fields
unfolding schedule_reconnect
failed s = record (schedule_reconnect s) { connecting = false }

abbrev pub after_queue : ℕ → Queue → Option Await
after_queue c order_notification = some (asserting c order_notification_dlq)
after_queue c order_notification_dlq = some (asserting c order_notification_retry)
after_queue c order_notification_retry = none
after_queue c order_notification_processing_retry = none

abbrev pub next_or_connected : ℕ → Option Await → Fields → Fields × Option Await
next_or_connected c none s = (connected c s, none)
next_or_connected c (some a) s = (s, some a)

-- `connect` from a wait to the next one or to its end. The number is that of the connection, which is
-- new where the wait is for `amqp.connect`.
unfoldable pub resume : Await → ℕ → Outcome → Fields → Fields × Option Await
unfolding connected failed
resume a c rejected s = (failed s, none)
resume opening c resolved s = (s, some (creating c))
resume (creating d) c resolved s = (s, some (asserting d order_notification))
resume (asserting d q) c resolved s = next_or_connected d (after_queue d q) s

unfoldable pub is_available : Fields → Bool
is_available s = is_some s.connection && is_some s.channel

-- Where a call of `onApplicationShutdown` waits: for `channel.close()`, with the connection that it
-- has taken, or for `connection.close()`.
pub data Closing : Type 0 where
  closing_channel : Option ℕ → Closing
  closing_connection : ℕ → Closing

abbrev pub close_connection : Option ℕ → Option Closing
close_connection none = none
close_connection (some c) = some (closing_connection c)

abbrev pub close_both : Option ℕ → Option ℕ → Option Closing
close_both none connection = close_connection connection
close_both (some ch) connection = some (closing_channel connection)

unfoldable pub on_application_shutdown : Fields → Fields × Option Closing
on_application_shutdown s = (
  record s { shutting_down = true; reconnect_timer = false; channel = none; connection = none },
  close_both s.channel s.connection,
)

-- What follows a wait, whether it is resolved or rejected, since both `catch` blocks are empty.
unfoldable pub resume_shutdown : Closing → Option Closing
resume_shutdown (closing_channel connection) = close_connection connection
resume_shutdown (closing_connection c) = none
