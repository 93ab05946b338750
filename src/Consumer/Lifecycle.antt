-- ===== src/Consumer/Lifecycle.antt =====
-- How the consumer of src/messaging/order-notification.consumer.ts connects, takes deliveries,
-- reconnects and shuts down. The methods and handlers are cut where they wait, as in RabbitMq/Service;
-- log lines are left out. The handler of one message is in Consumer/Handler.
pub mod System
pub mod Steady
pub mod Owned
pub mod Cancelling
pub mod Drain
pub mod Late
pub mod Recovery
use flash_sale_lab.Base.{
  ℕ, Bool, true, false, not, ◌&&◌, ◌||◌, Option, none, some, is_some, List, [], ◌∷◌, without, ◌==◌,
  if◌then◌else◌,
}
use flash_sale_lab.Platform.Broker.{
  Queue, order_notification, order_notification_dlq, order_notification_retry,
  order_notification_processing_retry,
}

-- The fields. A connection is a number, and so are its channel and the tag of its subscription, of
-- which each connection has one; `in_flight` are the promises of the handlers that run.
pub record Fields : Type 0 where
  pub connection : Option ℕ
  pub channel : Option ℕ
  pub consumer_tag : Option ℕ
  pub reconnect_timer : Bool
  pub connecting : Bool
  pub shutting_down : Bool
  pub in_flight : List ℕ

abbrev pub created : Fields
created = record {
  connection = none;
  channel = none;
  consumer_tag = none;
  reconnect_timer = false;
  connecting = false;
  shutting_down = false;
  in_flight = [];
}

-- Where a call of `connect` waits.
pub data Await : Type 0 where
  opening : Await
  creating : ℕ → Await
  asserting : ℕ → Queue → Await
  prefetching : ℕ → Await
  subscribing : ℕ → Await

pub data Outcome : Type 0 where
  resolved rejected : Outcome

unfoldable pub connect : Fields → Fields × Option Await
connect s =
    if s.shutting_down || (s.connecting || is_some s.channel)
    then (s, none)
    else (record s { connecting = true }, some opening)

unfoldable pub schedule_reconnect : Fields → Fields
schedule_reconnect s =
    if s.shutting_down || s.reconnect_timer then s else record s { reconnect_timer = true }

-- The callback of the timer.
unfoldable pub on_timer : Fields → Fields × Option Await
unfolding connect
on_timer s = connect (record s { reconnect_timer = false })

-- The callback of `consume`, which is given null when the server cancels; a message comes with the
-- promise of its handler.
unfoldable pub on_message : Option ℕ → Fields → Fields
on_message none s = s
on_message (some task) s = record s { in_flight = task ∷ s.in_flight }

-- What the callback has left to do when the promise settles.
unfoldable pub on_task_end : ℕ → Fields → Fields
on_task_end task s = record s { in_flight = without task s.in_flight }

-- `this.connection === connection`, and the same of the channel
abbrev pub holds : Option ℕ → ℕ → Bool
holds none c = false
holds (some d) c = d == c

-- The handler of the channel's `close`, with the connection that it asks to close.
unfoldable pub on_channel_close : ℕ → Fields → Fields × Option ℕ
on_channel_close c s =
    let t = if holds s.channel c then record s { channel = none; consumer_tag = none } else s in
    (t, if not t.shutting_down && holds t.connection c then some c else none)

-- The handler of the connection's `close`.
unfoldable pub on_connection_close : ℕ → Fields → Fields
unfolding schedule_reconnect
on_connection_close c s =
    let t = record s { connection = none; channel = none; consumer_tag = none } in
    if holds s.connection c then (if t.shutting_down then t else schedule_reconnect t) else s

-- The end of `connect`, after the subscription, and its `finally`.
unfoldable pub connected : ℕ → Fields → Fields
connected c s = record s {
  connection = some c;
  channel = some c;
  consumer_tag = some c;
  connecting = false;
}

-- The `catch` and the `finally` of `connect`.
unfoldable pub failed : Fields → Fields
unfolding schedule_reconnect
failed s = record (if s.shutting_down then s else schedule_reconnect s) { connecting = false }

abbrev pub after_queue : ℕ → Queue → Await
after_queue c order_notification = asserting c order_notification_dlq
after_queue c order_notification_dlq = asserting c order_notification_retry
after_queue c order_notification_retry = asserting c order_notification_processing_retry
after_queue c order_notification_processing_retry = prefetching c

-- `connect` from a wait to the next one or to its end. The number is that of the connection, which is
-- new where the wait is for `amqp.connect`.
unfoldable pub resume : Await → ℕ → Outcome → Fields → Fields × Option Await
unfolding connected failed
resume a c rejected s = (failed s, none)
resume opening c resolved s = (s, some (creating c))
resume (creating d) c resolved s = (s, some (asserting d order_notification))
resume (asserting d q) c resolved s = (s, some (after_queue d q))
resume (prefetching d) c resolved s = (s, some (subscribing d))
resume (subscribing d) c resolved s = (connected d s, none)

-- Where a call of `beforeApplicationShutdown` waits, with the channel and the connection that it has
-- taken: for `channel.cancel`, for the handlers that were in flight, for `channel.close`, for
-- `connection.close`.
pub data Closing : Type 0 where
  cancelling : ℕ → Option ℕ → Closing
  draining : List ℕ → Option ℕ → Option ℕ → Closing
  closing_channel : Option ℕ → Closing
  closing_connection : ℕ → Closing

abbrev pub close_connection : Option ℕ → Option Closing
close_connection none = none
close_connection (some c) = some (closing_connection c)

abbrev pub close_both : Option ℕ → Option ℕ → Option Closing
close_both none connection = close_connection connection
close_both (some c) connection = some (closing_channel connection)

unfoldable pub drained : Option ℕ → Option ℕ → Fields → Fields × Option Closing
drained channel connection s = (
  record s { consumer_tag = none; channel = none; connection = none },
  close_both channel connection,
)

abbrev pub wait_for : List ℕ → Option ℕ → Option ℕ → Fields → Fields × Option Closing
unfolding drained
wait_for [] channel connection s = drained channel connection s
wait_for (task ∷ tasks) channel connection s =
    (s, some (draining (task ∷ tasks) channel connection))

unfoldable pub after_cancel : Option ℕ → Option ℕ → Fields → Fields × Option Closing
unfolding wait_for drained
after_cancel channel connection s = wait_for s.in_flight channel connection s

abbrev cancel_or_not : Option ℕ → Option ℕ → Option ℕ → Fields → Fields × Option Closing
unfolding after_cancel
cancel_or_not (some c) (some tag) connection s = (s, some (cancelling c connection))
cancel_or_not channel tag connection s = after_cancel channel connection s

unfoldable pub before_application_shutdown : Fields → Fields × Option Closing
unfolding after_cancel
before_application_shutdown s =
    cancel_or_not s.channel s.consumer_tag s.connection
      (record s { shutting_down = true; reconnect_timer = false })

-- What follows a wait, whether it is resolved or rejected, since each `catch` block only logs.
unfoldable pub resume_shutdown : Closing → Fields → Fields × Option Closing
unfolding after_cancel drained
resume_shutdown (cancelling c connection) s = after_cancel (some c) connection s
resume_shutdown (draining tasks channel connection) s = drained channel connection s
resume_shutdown (closing_channel connection) s = (s, close_connection connection)
resume_shutdown (closing_connection c) s = (s, none)
