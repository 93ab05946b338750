-- ===== src/Tests/Messages.antt =====
-- Deliveries at concrete inputs.
use flash_sale_lab.Base.{◌≡◌, ◌≤◌, refl, true, none, some, [], ◌∷◌}
use flash_sale_lab.Io.{ok, err, error}
use flash_sale_lab.Io.Run.{run}
use flash_sale_lab.Platform.{Call, Reply, notify}
use flash_sale_lab.Platform.Broker.{Delivery, notification, order_notification, no_headers, Headers}
use flash_sale_lab.Consumer.Ledger.{Copy, Ledger, blank, kept}
use flash_sale_lab.Consumer.Handler.{
  processed_key, move_to, on_processing_failed, check_duplicate, process, handle_order,
  handle_message,
}
use flash_sale_lab.Consumer.Settling.{IsSettled, handle_message-IsSettled}
use flash_sale_lab.Consumer.Redelivery.{Comes, first, again, left_by, returns_bounded}
use flash_sale_lab.Tests.Memory.{World, memory_env}
use flash_sale_lab.Tests.Orders.{last_item}

abbrev delivery : Delivery
delivery = record { tag = 1; content = notification 5 "r1"; headers = none }

abbrev delivered : Ledger
delivered =
    (run (kept (processed_key 5) memory_env) (handle_message delivery) (last_item, blank)).1.1

notified_once : (delivered.notified ≡ 1) × (delivered.acks ≡ true ∷ []) × (delivered.confirmed ≡ [])
unfolding handle_message handle_order check_duplicate process
notified_once = (refl, refl, refl)

handle_message-IsSettled_example :
    ((run (kept (processed_key 5) memory_env) (handle_message delivery) (last_item, blank)).0
      ≡ ok tt)
    × IsSettled delivery delivered
handle_message-IsSettled_example =
    handle_message-IsSettled memory_env delivery 5 "r1" last_item refl

-- The same, but the notification fails.
abbrev failing_env : (c : Call) → World → Reply c × World
failing_env (notify ms) w = (err (error "timeout"), w)
failing_env c w = memory_env c w

abbrev second_try : Copy
second_try = record {
  queue = order_notification;
  content = notification 5 "r1";
  headers = record no_headers { retry_count = some 1 };
}

copied : (left_by failing_env delivery 5 last_item).confirmed ≡ second_try ∷ []
unfolding handle_message handle_order check_duplicate process on_processing_failed move_to
copied = refl

abbrev with_death : Headers
with_death = record second_try.headers { others = some "x-death" }

Comes-second :
    Comes 5 "r1" 1 (record { tag = 2; content = second_try.content; headers = some with_death })
Comes-second =
    again (first 1 none (refl, refl)) failing_env last_item second_try 2 copied (λ e. cc) with_death
      (refl, refl)

returns_bounded_example : 1 ≤ 6
returns_bounded_example = returns_bounded Comes-second
