-- ===== src/Tests/RabbitMq.antt =====
-- The RabbitMQ service at concrete runs.
use flash_sale_lab.Base.{to_list, ◌≡◌, refl, true, none, length, [], ◌∷◌, ◌++◌, Any, inl}
use flash_sale_lab.Platform.Broker.{
  order_notification, order_notification_dlq, order_notification_retry,
}
use flash_sale_lab.RabbitMq.Service.{
  opening, creating, asserting, resolved, rejected, connect, resume, is_available, failed,
  schedule_reconnect, on_application_shutdown,
}
use flash_sale_lab.RabbitMq.System.{
  System, init, resumed, opened, went_on, refused, Reach, start, next, Steps, here,
}
use flash_sale_lab.RabbitMq.Steady.{IsSteady, Reach-IsSteady}
use flash_sale_lab.RabbitMq.Recovery.{Connects, Reach-Connects}
use flash_sale_lab.RabbitMq.Shutdown.{
  IsQuiet, shutdown-IsQuiet, AtLastWait, shutdown_connects, failed_attempts_leak,
}

-- The first attempt was rejected.
abbrev down : System
down = resumed [] opening [] 0 rejected init

Reach-down : Reach down
unfolding init connect
Reach-down = next start (refused [] [] opening refl)

Reach-IsSteady_example : IsSteady down
Reach-IsSteady_example = Reach-IsSteady Reach-down

Reach-Connects_example : Connects down
unfolding init connect resume failed schedule_reconnect
Reach-Connects_example = Reach-Connects Reach-down refl

-- It is shut down while it waits for the timer.
abbrev stopped : System
stopped = record down {
  fields = (on_application_shutdown down.fields).0;
  closings = down.closings ++ to_list (on_application_shutdown down.fields).1;
}

shutdown-IsQuiet_example : IsQuiet stopped
unfolding init connect resume failed schedule_reconnect
shutdown-IsQuiet_example = shutdown-IsQuiet Reach-down refl here

-- The first attempt at its last wait.
abbrev opened_one : System
opened_one = resumed [] opening [] 4 resolved (record init { bare = 4 ∷ [] })

abbrev asserting_first : System
asserting_first = resumed [] (creating 4) [] 4 resolved opened_one

abbrev asserting_second : System
asserting_second = resumed [] (asserting 4 order_notification) [] 4 resolved asserting_first

abbrev asserting_last : System
asserting_last = resumed [] (asserting 4 order_notification_dlq) [] 4 resolved asserting_second

Reach-asserting_last : Reach asserting_last
unfolding init connect resume
Reach-asserting_last =
    next
      (next
        (next (next start (opened [] [] 4 refl (tt, tt)))
          (went_on [] [] (creating 4) (asserting 4 order_notification) 4 refl refl (inl refl) refl))
        (went_on [] [] (asserting 4 order_notification) (asserting 4 order_notification_dlq) 4 refl
          refl (inl refl) refl))
      (went_on [] [] (asserting 4 order_notification_dlq) (asserting 4 order_notification_retry) 4
        refl refl (inl refl) refl)

asserting_last-AtLastWait : AtLastWait asserting_last 4
unfolding init connect resume
asserting_last-AtLastWait = (refl, refl, refl)

shutdown_connects_example :
    (z : System) × Steps asserting_last z
    × (z.fields.shutting_down ≡ true)
    × (is_available z.fields ≡ true)
    × (z.closings ≡ asserting_last.closings)
    × Any (λ d. d ≡ 4) z.listened
shutdown_connects_example =
    shutdown_connects asserting_last 4 Reach-asserting_last asserting_last-AtLastWait

failed_attempts_leak_example :
    (y : System) × Reach y
    × (length y.bare ≡ 3)
    × (y.attempts ≡ [])
    × (y.fields.connection ≡ none)
    × (y.fields.reconnect_timer ≡ true)
failed_attempts_leak_example = failed_attempts_leak 3
