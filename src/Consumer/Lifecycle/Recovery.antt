-- ===== src/Consumer/Lifecycle/Recovery.antt =====
-- That the consumer can subscribe again from every state, once the broker accepts it.
use flash_sale_lab.Base.{
  ℕ, ◌+◌, ◌≡◌, inl, inr, refl, sym, subst, true, false, Option, none, some, is_some, List, [], ◌∷◌,
  ◌++◌, arith, Bool-cases, Option-cases, to_list, above, above_fresh, one_of_length,
  empty_of_length, without,
}
use flash_sale_lab.Platform.Broker.{
  order_notification, order_notification_dlq, order_notification_retry,
  order_notification_processing_retry,
}
use flash_sale_lab.Consumer.Lifecycle.{
  Fields, Await, opening, creating, asserting, prefetching, subscribing, rejected, connect,
  on_timer, schedule_reconnect, connected, failed, resume, on_connection_close, Closing,
}
use flash_sale_lab.Consumer.Lifecycle.System.{
  System, forget, held_by, unsubscribes, resumed, Step, timer, opened, went_on, finished, refused,
  connection_lost, Reach, IsUnforced, Recovers, done, by_itself,
}
use flash_sale_lab.Consumer.Lifecycle.Steady.{IsConsistent, Reach-IsConsistent}

-- A state to come in which the consumer has a channel and a subscription and is not shut down.
abbrev pub Subscribes : System → Type 0
Subscribes y =
    (z : System) × Recovers y z
    × (is_some z.fields.channel ≡ true)
    × (is_some z.fields.consumer_tag ≡ true)
    × (z.fields.shutting_down ≡ false)

before_it : {y z : System} (step : Step y z) → IsUnforced step → Subscribes z → Subscribes y
before_it step fine (x, steps, has, tagged, on) = (x, by_itself step fine steps, has, tagged, on)

-- An attempt that begins, with every wait resolved.
from_opening :
    (s : Fields) (bare subscribed : List ℕ) (closing : Option Closing) (asked : Option ℕ)
    → s.shutting_down ≡ false
    → Subscribes (record {
      fields = s;
      attempts = opening ∷ [];
      closing = closing;
      listened = [];
      bare = bare;
      subscribed = subscribed;
      asked = asked;
    })
unfolding resume connected
from_opening s bare subscribed closing asked on =
    let c = above bare + above subscribed in
    (
      record {
        fields = record s {
          connection = some c;
          channel = some c;
          consumer_tag = some c;
          connecting = false;
        };
        attempts = [];
        closing = closing;
        listened = c ∷ [];
        bare = bare;
        subscribed = c ∷ subscribed;
        asked = asked;
      },
      by_itself
          (opened [] [] c refl
            (above_fresh c bare (omega arith), tt, above_fresh c subscribed (omega arith)))
          tt
          (by_itself
            (went_on [] [] (creating c) (asserting c order_notification) c refl refl (inl refl)
              refl)
            tt
            (by_itself
              (went_on [] [] (asserting c order_notification) (asserting c order_notification_dlq) c
                refl refl (inl refl) refl)
              tt
              (by_itself
                (went_on [] [] (asserting c order_notification_dlq)
                  (asserting c order_notification_retry) c refl refl (inl refl) refl)
                tt
                (by_itself
                  (went_on [] [] (asserting c order_notification_retry)
                    (asserting c order_notification_processing_retry) c refl refl (inl refl) refl)
                  tt
                  (by_itself
                    (went_on [] [] (asserting c order_notification_processing_retry) (prefetching c)
                      c refl refl (inl refl) refl)
                    tt
                    (by_itself
                      (went_on [] [] (prefetching c) (subscribing c) c refl refl (inl refl) refl) tt
                      (by_itself (finished [] [] (subscribing c) c [] bare refl refl refl refl) tt
                        done))))))),
      refl,
      refl,
      on,
    )

-- The timer is set, and nothing else goes on.
abbrev Waits : System → Type 0
Waits y =
    (y.fields.shutting_down ≡ false)
    × (y.fields.reconnect_timer ≡ true)
    × (y.fields.connecting ≡ false)
    × (y.fields.channel ≡ none)
    × (y.attempts ≡ [])
    × (y.listened ≡ [])

from_timer : (y : System) → Waits y → Subscribes y
unfolding on_timer connect
from_timer y (on, fires, idle, free, quiet, unheard) =
    let s = record y.fields { reconnect_timer = false; connecting = true } in
    let e : record y {
      fields = (on_timer y.fields).0;
      attempts = y.attempts ++ to_list (on_timer y.fields).1;
    }
        ≡ record y { fields = s; attempts = opening ∷ []; listened = [] } =
      ground arith in
    before_it (timer fires) tt
      (subst Subscribes (sym e) (from_opening s y.bare y.subscribed y.closing y.asked on))

-- An attempt that waits is rejected first.
from_attempt :
    (y : System) (a : Await)
    → y.fields.shutting_down ≡ false
    → y.fields.channel ≡ none
    → y.attempts ≡ a ∷ []
    → y.listened ≡ []
    → Subscribes y
unfolding resume failed schedule_reconnect
from_attempt y a on free one unheard = before_it (refused [] [] a one) tt (
    from_timer
      (resumed [] a [] 0 rejected (record y { subscribed = unsubscribes (held_by a) y.subscribed }))
      (ground arith))

-- A connection without its channel was asked to close, and is closed first.
from_connection :
    (y : System) (c : ℕ)
    → y.fields.shutting_down ≡ false
    → y.fields.connection ≡ some c
    → y.fields.connecting ≡ false
    → y.attempts ≡ []
    → y.listened ≡ c ∷ []
    → y.asked ≡ some c
    → Subscribes y
unfolding on_connection_close schedule_reconnect
from_connection y c on has idle quiet heard asks = before_it (connection_lost [] [] c heard) asks (
    from_timer
      (record y {
        listened = [];
        fields = on_connection_close c y.fields;
        subscribed = without c y.subscribed;
        asked = forget c y.asked;
      })
      (ground arith))

IsConsistent-Subscribes :
    (y : System) → IsConsistent y → y.fields.shutting_down ≡ false → Subscribes y
IsConsistent-Subscribes y v on = elim (Option-cases y.fields.connection) [
  | inr (c, has) ↦ elim (Option-cases y.fields.channel) [
    | inr (d, open_one) ↦ (y, done, rw open_one, ground (arith, v.together), on)
    | inl free ↦
        from_connection y c on has (ground (arith, v.one_of_three))
          (ground (arith, v.one_of_three, v.one_attempt, empty_of_length y.attempts))
          (ground (arith, v.heard)) (ground (arith, v.asks))
  ]
  | inl unconnected ↦ elim (Bool-cases y.fields.connecting) [
    | inl tries ↦
        let (a, one) = one_of_length y.attempts (ground (arith, v.one_attempt)) in
        from_attempt y a on (ground (arith, v.together)) one (ground (arith, v.heard))
    | inr idle ↦ from_timer y (
        ground
          (arith, v.together, v.heard, v.one_of_three, v.one_attempt, empty_of_length y.attempts))
  ]
]

-- From every state that the consumer can come to before it shuts down, whatever attempts have failed
-- and whatever channels and connections were lost, there is a way to a state in which it has a channel
-- and a subscription and is not shut down, and on that way no channel and no connection is lost but one
-- that the consumer has asked to close. (An attempt that waits may fail on it.)
pub Reach-Subscribes : {y : System} → Reach y → y.fields.shutting_down ≡ false → Subscribes y
Reach-Subscribes {y} reached on = IsConsistent-Subscribes y (Reach-IsConsistent reached) on
