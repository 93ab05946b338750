-- ===== src/RabbitMq/Recovery.antt =====
-- That the service can connect again from every state, once the broker accepts it.
use flash_sale_lab.Base.{
  to_list, above, above_fresh, one_of_length, empty_of_length, ℕ, ◌≡◌, inl, inr, refl, sym, subst,
  true, false, none, some, List, [], ◌∷◌, ◌++◌, arith, Bool-cases, Option-cases,
}
use flash_sale_lab.RabbitMq.Service
use flash_sale_lab.RabbitMq.Service.{
  Fields, Await, opening, creating, asserting, rejected, resolved, resume, is_available, connect,
  on_timer, connected, failed, schedule_reconnect,
}
use flash_sale_lab.Platform.Broker.{
  order_notification, order_notification_dlq, order_notification_retry,
}
use flash_sale_lab.RabbitMq.System.{
  System, resumed, Step, timer, opened, went_on, finished, refused, Reach, Steps, here, step_on,
}
use flash_sale_lab.RabbitMq.Steady.{IsSteady, Reach-IsSteady}

-- A state to come in which the service is connected and not shut down.
abbrev pub Connects : System → Type 0
Connects y =
    (z : System) × Steps y z × (is_available z.fields ≡ true) × (z.fields.shutting_down ≡ false)

-- An attempt that begins, with every wait resolved.
from_opening :
    (s : Fields) (bare : List ℕ) (closings : List Service.Closing)
    → s.shutting_down ≡ false
    → Connects (record {
      fields = s;
      attempts = opening ∷ [];
      closings = closings;
      listened = [];
      bare = bare;
    })
unfolding resume connected is_available
from_opening s bare closings on =
    let c = above bare in
    let created_state : System = record {
      fields = s;
      attempts = [];
      closings = closings;
      listened = c ∷ [];
      bare = bare;
    } in
    (
      record created_state {
        fields = record s { connection = some c; channel = some c; connecting = false };
      },
      step_on (opened [] [] c refl (above_fresh c bare (omega arith), tt)) (
          step_on
            (went_on [] [] (creating c) (asserting c order_notification) c refl refl (inl refl)
              refl)
            (step_on
              (went_on [] [] (asserting c order_notification) (asserting c order_notification_dlq) c
                refl refl (inl refl) refl)
              (step_on
                (went_on [] [] (asserting c order_notification_dlq)
                  (asserting c order_notification_retry) c refl refl (inl refl) refl)
                (step_on
                  (finished [] [] (asserting c order_notification_retry) c [] bare refl refl refl
                    refl)
                  here)))),
      refl,
      on,
    )

before_it : {y z : System} → Step y z → Connects z → Connects y
before_it step (x, steps, available, on) = (x, step_on step steps, available, on)

-- The timer is set, and nothing else goes on.
abbrev Waits : System → Type 0
Waits y =
    (y.fields.shutting_down ≡ false)
    × (y.fields.reconnect_timer ≡ true)
    × (y.fields.connecting ≡ false)
    × (y.fields.channel ≡ none)
    × (y.attempts ≡ [])
    × (y.listened ≡ [])

from_timer : (y : System) → Waits y → Connects y
unfolding on_timer connect
from_timer y (on, fires, idle, without, quiet, unheard) =
    let s = record y.fields { reconnect_timer = false; connecting = true } in
    let e : record y {
      fields = (on_timer y.fields).0;
      attempts = y.attempts ++ to_list (on_timer y.fields).1;
    }
        ≡ record y { fields = s; attempts = opening ∷ []; listened = [] } =
      ground arith in
    before_it (timer fires) (subst Connects (sym e) (from_opening s y.bare y.closings on))

-- An attempt that waits is rejected first.
from_attempt :
    (y : System) (a : Await)
    → y.fields.shutting_down ≡ false
    → y.fields.channel ≡ none
    → y.attempts ≡ a ∷ []
    → y.listened ≡ []
    → Connects y
unfolding resume failed schedule_reconnect
from_attempt y a on without one unheard =
    before_it (refused [] [] a one) (from_timer (resumed [] a [] 0 rejected y) (ground arith))

IsSteady-Connects : (y : System) → IsSteady y → y.fields.shutting_down ≡ false → Connects y
unfolding is_available
IsSteady-Connects y v on = elim (Option-cases y.fields.channel) [
  | inr (c, has) ↦ (y, here, ground (arith, v.together), on)
  | inl without ↦ elim (Bool-cases y.fields.connecting) [
    | inl tries ↦
        let (a, one) = one_of_length y.attempts (ground (arith, v.one_attempt)) in
        from_attempt y a on without one (ground (arith, v.heard))
    | inr idle ↦
        from_timer y
          (ground (arith, v.heard, v.one_of_three, v.one_attempt, empty_of_length y.attempts))
  ]
]

-- From every state that the service can come to before it shuts down, whatever attempts have failed
-- and whatever connections were lost, there is a way to a state in which it is available and not shut
-- down: it is never stuck without a connection, an attempt or a timer.
pub Reach-Connects : {y : System} → Reach y → y.fields.shutting_down ≡ false → Connects y
Reach-Connects {y} reached on = IsSteady-Connects y (Reach-IsSteady reached) on
