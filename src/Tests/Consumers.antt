-- ===== src/Tests/Consumers.antt =====
-- The consumer's connection at concrete runs.
use flash_sale_lab.Base.{◌≡◌, refl, true, none, some, [], ◌∷◌, Any, inl, without}
use flash_sale_lab.Platform.Broker.{
  order_notification, order_notification_dlq, order_notification_retry,
  order_notification_processing_retry,
}
use flash_sale_lab.Consumer.Lifecycle.{
  Await, opening, creating, asserting, prefetching, subscribing, resolved, draining, connect,
  on_channel_close, on_message, on_task_end, resume, connected, after_cancel,
  before_application_shutdown, resume_shutdown,
}
use flash_sale_lab.Consumer.Lifecycle.System.{
  asks_for, channel_lost, System, init, resumed, subscribes, shut_on, shut_down, opened, went_on,
  finished, delivered, settled, all_settled, Reach, start, next, Steps, here, step_on,
}
use flash_sale_lab.Consumer.Lifecycle.Steady.{IsConsistent, Reach-IsConsistent}
use flash_sale_lab.Consumer.Lifecycle.Recovery.{Subscribes, Reach-Subscribes}
use flash_sale_lab.Consumer.Lifecycle.Drain.{IsDraining, after_cancelled, shutdown_drains}
use flash_sale_lab.Consumer.Lifecycle.Late.{AtLastWait, shutdown_subscribes}

-- An attempt on connection 4, wait by wait.
abbrev on_four : Await → Await → System → System
on_four a b y = resumed [] a [] 4 resolved (record y { subscribed = subscribes b y.subscribed })

abbrev created_one : System
created_one = resumed [] opening [] 4 resolved (record init { bare = 4 ∷ [] })

abbrev asserting_one : System
asserting_one = on_four (creating 4) (asserting 4 order_notification) created_one

abbrev asserting_two : System
asserting_two =
    on_four (asserting 4 order_notification) (asserting 4 order_notification_dlq) asserting_one

abbrev asserting_three : System
asserting_three =
    on_four (asserting 4 order_notification_dlq) (asserting 4 order_notification_retry)
      asserting_two

abbrev asserting_four : System
asserting_four =
    on_four (asserting 4 order_notification_retry) (asserting 4 order_notification_processing_retry)
      asserting_three

abbrev prefetching_one : System
prefetching_one =
    on_four (asserting 4 order_notification_processing_retry) (prefetching 4) asserting_four

abbrev subscribing_one : System
subscribing_one = on_four (prefetching 4) (subscribing 4) prefetching_one

Reach-subscribing_one : Reach subscribing_one
unfolding init connect resume
Reach-subscribing_one =
    let r0 : Reach created_one = next start (opened [] [] 4 refl (tt, tt, tt)) in
    let r1 : Reach asserting_one =
      next r0
        (went_on [] [] (creating 4) (asserting 4 order_notification) 4 refl refl (inl refl) refl) in
    let r2 : Reach asserting_two = next r1 (
      went_on [] [] (asserting 4 order_notification) (asserting 4 order_notification_dlq) 4 refl
        refl (inl refl) refl) in
    let r3 : Reach asserting_three = next r2 (
      went_on [] [] (asserting 4 order_notification_dlq) (asserting 4 order_notification_retry) 4
        refl refl (inl refl) refl) in
    let r4 : Reach asserting_four = next r3 (
      went_on [] [] (asserting 4 order_notification_retry)
        (asserting 4 order_notification_processing_retry) 4 refl refl (inl refl) refl) in
    let r5 : Reach prefetching_one = next r4 (
      went_on [] [] (asserting 4 order_notification_processing_retry) (prefetching 4) 4 refl refl
        (inl refl) refl) in
    next r5 (went_on [] [] (prefetching 4) (subscribing 4) 4 refl refl (inl refl) refl)

Reach-IsConsistent_example : IsConsistent subscribing_one
Reach-IsConsistent_example = Reach-IsConsistent Reach-subscribing_one

abbrev subscribed_one : System
subscribed_one =
    resumed [] (subscribing 4) [] 4 resolved
      (record subscribing_one { bare = []; listened = 4 ∷ subscribing_one.listened })

-- The consumer has lost its channel and has asked to close the connection.
abbrev without_channel : System
without_channel = record subscribed_one {
  fields = (on_channel_close 4 subscribed_one.fields).0;
  subscribed = without 4 subscribed_one.subscribed;
  asked = asks_for (on_channel_close 4 subscribed_one.fields).1 subscribed_one.asked;
}

Reach-without_channel : Reach without_channel
unfolding init connect resume connected on_channel_close
Reach-without_channel =
    next (next Reach-subscribing_one (finished [] [] (subscribing 4) 4 [] [] refl refl refl refl))
      (channel_lost 4 (inl refl))

Reach-Subscribes_example : Subscribes without_channel
unfolding init connect resume connected on_channel_close
Reach-Subscribes_example = Reach-Subscribes Reach-without_channel refl

subscribing_one-AtLastWait : AtLastWait subscribing_one 4
unfolding init connect resume
subscribing_one-AtLastWait = (refl, refl, refl, refl, refl)

subscribing_one_live : Any (λ d. d ≡ 4) subscribing_one.subscribed
subscribing_one_live = inl refl

shutdown_subscribes_example :
    (z : System) × Steps subscribing_one z
    × (z.fields.shutting_down ≡ true)
    × (z.closing ≡ none)
    × (z.fields.channel ≡ some 4)
    × (z.fields.consumer_tag ≡ some 4)
    × (z.fields.in_flight ≡ 9 ∷ [])
shutdown_subscribes_example =
    shutdown_subscribes subscribing_one 4 9 Reach-subscribing_one subscribing_one-AtLastWait
      subscribing_one_live

-- Connected, with one message in handling.
abbrev connected_one : System
connected_one =
    resumed [] (subscribing 4) [] 4 resolved
      (record subscribing_one { bare = []; listened = 4 ∷ [] })

abbrev handling : System
handling = record connected_one { fields = on_message (some 9) connected_one.fields }

Reach-handling : Reach handling
unfolding init connect resume connected on_message
Reach-handling =
    next (next Reach-subscribing_one (finished [] [] (subscribing 4) 4 [] [] refl refl refl refl))
      (delivered 4 (some 9) (inl refl) (tt, tt))

-- The shutdown waits for the handler, which ends.
abbrev waiting : System
waiting = after_cancelled 4 (some 4) (shut_down handling)

abbrev ended : System
ended = record waiting { fields = on_task_end 9 waiting.fields }

abbrev closing_down : System
closing_down = shut_on (draining (9 ∷ []) (some 4) (some 4)) ended

Steps-closing_down : Steps waiting closing_down
unfolding init connect resume connected on_message on_task_end before_application_shutdown
    resume_shutdown after_cancel
Steps-closing_down =
    step_on (settled 9 (inl refl))
      (step_on (all_settled (9 ∷ []) (some 4) (some 4) refl (tt, tt)) here)

shutdown_drains_example : IsDraining closing_down
unfolding init connect resume connected on_message before_application_shutdown
shutdown_drains_example =
    shutdown_drains 4 (some 4) Reach-handling refl refl here refl Steps-closing_down
