-- ===== src/Outbox/Publisher.antt =====
-- src/messaging/outbox-publisher.service.ts, with `publishOrderNotification` of
-- src/messaging/rabbitmq.service.ts.
use flash_sale_lab.Base.{
  ℕ, ◌+◌, ◌-◌, String, not, List, [], ◌∷◌, length, ltb, str_eq, if◌then◌else◌,
}
use flash_sale_lab.Io.{error, pure, throw, call, ◌>>=◌, ◌>>◌, finally, settle}
use flash_sale_lab.Platform.{
  Prog, local, load_active, store_active, load_channel, start_span, end_span, send_to_queue,
  wait_for_confirms, Level, observe, observe_count, inc, dec, direct, report, measure,
}
use flash_sale_lab.Platform.Broker.{order_notification, notification, no_headers}
use flash_sale_lab.Outbox.Repository.{PendingOutboxEvent, find_pending, claim, mark_as_sent}
use flash_sale_lab.Outbox.Repository

-- `this.channel` cannot change between its uses: there is no `await` between them.
unfoldable pub publish_order_notification : ℕ → String → Prog (Unit {0})
publish_order_notification order_id request_id = do
  channel ← call (local load_channel) pure
  if not channel then throw (error "RabbitMQ channel is not available") else do
    call (send_to_queue order_notification (notification order_id request_id) no_headers) settle
    call wait_for_confirms settle

abbrev pub batch_size : ℕ
batch_size = 500

-- The callback of `startActiveSpan`.
unfoldable pub send_event : PendingOutboxEvent → Prog (Unit {0})
unfolding publish_order_notification mark_as_sent
send_event event =
    finally
      (do
        publish_order_notification event.order_id event.request_id
        direct (mark_as_sent event.id))
      (call (local end_span) pure)

-- One turn of the loop over the events.
unfoldable pub publish_event : PendingOutboxEvent → Prog (Unit {0})
unfolding claim
publish_event event = do
  claimed ← direct (claim event.id)
  if not claimed
      then pure tt
      else if not (str_eq event.kind "ORDER_NOTIFICATION")
      then pure tt
      else do call (local (start_span "outbox.publish" event.trace_context)) pure; send_event event

unfoldable pub publish_events : List PendingOutboxEvent → Prog (Unit {0})
publish_events [] = pure tt
publish_events (event ∷ events) = do publish_event event; publish_events events

-- The body of the `try` block.
unfoldable pub publish_batch : Prog (Unit {0})
unfolding find_pending
publish_batch = do
  events ← direct (find_pending batch_size)
  measure (observe_count "outbox_publisher_events" (length events))
  publish_events events

-- The `finally` block. `-= 1` reads the field anew; it is at least 1 there, so `-` is exact.
unfoldable pub leave : Prog (Unit {0})
leave = do
  active ← call (local load_active) pure
  call (local (store_active (active - 1))) pure
  measure (dec "outbox_publisher_active_executions" "")
  measure (observe "outbox_publisher_duration_seconds" "")

unfoldable pub publish_pending : Prog (Unit {0})
publish_pending = do
  active ← call (local load_active) pure
  if ltb 0 active then measure (inc "outbox_publisher_skipped_total" "") else do
    call (local (store_active (active + 1))) pure
    measure (inc "outbox_publisher_active_executions" "")
    finally publish_batch leave

unfoldable pub recover_stuck_processing : Prog (Unit {0})
unfolding Repository.recover_stuck_processing
recover_stuck_processing = do
  recovered ← direct Repository.recover_stuck_processing
  if ltb 0 recovered then report Level.log "outbox_stuck_recovered" else pure tt
