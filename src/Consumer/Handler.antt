-- ===== src/Consumer/Handler.antt =====
-- `handleMessage` of src/messaging/order-notification.consumer.ts. `channel` is the channel of the
-- calls; log lines have their events only.
use flash_sale_lab.Base.{ℕ, ◌+◌, String, Bool, true, false, some, leb, if◌then◌else◌}
use flash_sale_lab.Io.{error, pure, throw, call, ◌>>=◌, ◌>>◌, catch, settle}
use flash_sale_lab.Platform.{
  Prog, send_to_queue, wait_for_confirms, ack, nack, notify, Level, Metric, observe, report,
  measure,
}
use flash_sale_lab.Platform.Broker.{
  Queue, order_notification, order_notification_dlq, order_notification_retry,
  order_notification_processing_retry, Content, notification, malformed, Headers, Delivery, spread,
  count_or_zero,
}
use flash_sale_lab.Platform.Cache.{Key, CacheText, plain, is_truthy}
use flash_sale_lab.Redis

abbrev pub processed_key : ℕ → Key
processed_key order_id = record { template = "processed:order-notification:"; id = order_id }

abbrev pub processing_key : ℕ → Key
processing_key order_id = record { template = "processing:order-notification:"; id = order_id }

abbrev pub true_text : CacheText
true_text = plain "true"

abbrev pub max_processing_retries : ℕ
max_processing_retries = 3

-- `orderNotificationConsumerStepDurationSeconds.observe({ step }, …)`
abbrev pub consumer_step : String → Metric
consumer_step step = observe "order_notification_consumer_step_duration_seconds" step

-- `Number(message.properties.headers?.['retry-count'] ?? 0)`, and the other count
abbrev pub retry_count_of : Delivery → ℕ
retry_count_of message = count_or_zero (spread message.headers).retry_count

abbrev pub processing_retry_count_of : Delivery → ℕ
processing_retry_count_of message = count_or_zero (spread message.headers).processing_retry_count

-- The pattern of all five ways out: publish the content to another queue, wait for the confirm, log
-- and acknowledge; if any of this throws, log and return the message to its queue, and ignore it if
-- that throws too.
unfoldable pub move_to : Delivery → Queue → Headers → Level → String → String → Prog (Unit {0})
move_to message queue headers level done failed =
    catch
      (do
        call (send_to_queue queue message.content headers) settle
        call wait_for_confirms settle
        report level done
        call (ack message) settle)
      λ e. do report Level.error failed; catch (call (nack message) settle) λ _. pure tt

-- The `catch` block of the check for duplicates.
unfoldable pub on_check_failed : Delivery → Prog (Unit {0})
on_check_failed message = do
  report Level.error "redis_idempotency_check_failed"
  let headers = spread message.headers
  let retry_count = retry_count_of message
  if leb 3 retry_count
      then (move_to message order_notification_dlq
          (record headers { retry_count = some retry_count }) Level.warn
          "order_notification_moved_to_dlq" "order_notification_dlq_publish_failed")
      else (move_to message order_notification_retry
          (record headers { retry_count = some (retry_count + 1) }) Level.log
          "order_notification_retry_scheduled" "order_notification_retry_publish_failed")

-- The block of `if (!acquired)`.
unfoldable pub on_locked : Delivery → Prog (Unit {0})
on_locked message = do
  let headers = spread message.headers
  let count = processing_retry_count_of message
  if leb max_processing_retries count
      then (move_to message order_notification_dlq
          (record headers {
            processing_retry_count = some count;
            dlq_reason = some "processing-lock-exhausted";
          })
          Level.warn "order_notification_processing_retry_exhausted"
          "order_notification_processing_retry_dlq_publish_failed")
      else (move_to message order_notification_processing_retry
          (record headers { processing_retry_count = some (count + 1) }) Level.log
          "order_notification_processing_retry_scheduled"
          "order_notification_processing_retry_publish_failed")

-- The `catch` block of the processing itself.
unfoldable pub on_processing_failed : Delivery → ℕ → Prog (Unit {0})
unfolding Redis.del
on_processing_failed message order_id = do
  report Level.error "order_notification_processing_failed"
  Redis.del (processing_key order_id)
  let headers = spread message.headers
  let retry_count = retry_count_of message
  if leb 1 retry_count
      then (move_to message order_notification_dlq
          (record headers { retry_count = some retry_count }) Level.warn
          "order_notification_moved_to_dlq" "order_notification_dlq_publish_failed")
      else (move_to message order_notification
          (record headers { retry_count = some (retry_count + 1) }) Level.log
          "order_notification_reprocess_scheduled" "order_notification_reprocess_publish_failed")

-- How the check for duplicates ends when it does not throw: it has returned from the handler, or
-- says whether the lock was acquired.
pub data Check : Type 0 where
  returned : Check
  acquired : Bool → Check

-- The body of the first `try` block.
unfoldable pub check_duplicate : Delivery → ℕ → Prog Check
unfolding Redis.get_strict Redis.set_if_absent_strict
check_duplicate message order_id = do
  already_processed ← Redis.get_strict (processed_key order_id)
  measure (consumer_step "processed_check")
  if is_truthy already_processed
      then (do
        report Level.log "order_notification_duplicate_skipped"
        call (ack message) settle
        pure returned)
      else do
        got ← Redis.set_if_absent_strict (processing_key order_id) true_text 30
        measure (consumer_step "processing_lock")
        pure (acquired got)

-- The body of the last `try` block.
unfoldable pub process : Delivery → ℕ → Prog (Unit {0})
unfolding Redis.set Redis.del
process message order_id = do
  call (notify 500) settle
  measure (consumer_step "notification")
  Redis.set (processed_key order_id) true_text 86400
  measure (consumer_step "mark_processed")
  Redis.del (processing_key order_id)
  measure (consumer_step "release_processing_lock")
  call (ack message) settle
  measure (consumer_step "total")

-- What follows the first `try` block.
abbrev pub after_check : Delivery → ℕ → Check → Prog (Unit {0})
after_check message order_id returned = pure tt
after_check message order_id (acquired false) = on_locked message
after_check message order_id (acquired true) =
    catch (process message order_id) λ e. on_processing_failed message order_id

-- The handler from the parsed content on. A check that throws ends in its own handler, which returns.
unfoldable pub handle_order : Delivery → ℕ → Prog (Unit {0})
handle_order message order_id = do
  check ← catch (check_duplicate message order_id) λ e. do on_check_failed message; pure returned
  after_check message order_id check

-- `JSON.parse` throws outside every `try` block.
abbrev pub handle_content : Delivery → Content → Prog (Unit {0})
handle_content message (notification order_id request_id) = handle_order message order_id
handle_content message (malformed text) = throw (error "SyntaxError")

unfoldable pub handle_message : Delivery → Prog (Unit {0})
handle_message message = handle_content message message.content
