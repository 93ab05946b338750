-- ===== src/Consumer/Lifecycle/Late.antt =====
-- What an attempt to connect that is under way does to a shutdown.
use flash_sale_lab.Base.{
  ℕ, ◌≡◌, refl, subst, true, false, none, some, [], ◌∷◌, arith, ap, Any, length,
}
use flash_sale_lab.Consumer.Lifecycle.{
  subscribing, resolved, on_message, connected, resume, drained, after_cancel,
  before_application_shutdown,
}
use flash_sale_lab.Consumer.Lifecycle.System.{
  System, resumed, shut_down, Step, finished, delivered, shutdown, Reach, Steps, here, step_on,
}
use flash_sale_lab.Consumer.Lifecycle.Steady.{IsConsistent, Reach-IsConsistent}

-- An attempt at its last wait, in a consumer that is not shut down and handles nothing.
abbrev pub AtLastWait : System → ℕ → Type 0
AtLastWait y c =
    (y.attempts ≡ subscribing c ∷ [])
    × (y.bare ≡ c ∷ [])
    × (y.fields.shutting_down ≡ false)
    × (y.fields.in_flight ≡ [])
    × (y.closing ≡ none)

-- The shutdown of such a consumer has nothing to wait for.
shut_down_at_once :
    (y : System) (c : ℕ)
    → IsConsistent y
    → AtLastWait y c
    → shut_down y ≡ record y {
      fields = record y.fields {
        shutting_down = true;
        reconnect_timer = false;
        consumer_tag = none;
        channel = none;
        connection = none;
      };
      closing = none;
    }
unfolding before_application_shutdown after_cancel drained
shut_down_at_once y c v (one, bare_one, on, idle, unclosed) =
    let tries : y.fields.connecting ≡ true = ground (arith, v.one_attempt, ap length one) in
    let free : y.fields.connection ≡ none = ground (arith, v.apart) in ground (arith, v.together)

-- If an attempt is at its last wait, on the only open connection without handlers, when the shutdown
-- of a consumer that handles nothing begins, then the shutdown can end at once and the attempt still
-- subscribe: the consumer is then shut down, with a channel and a subscription, and a message that is
-- delivered on it is taken into handling.
pub shutdown_subscribes :
    (y : System) (c task : ℕ)
    → Reach y
    → AtLastWait y c
    → Any (λ d. d ≡ c) y.subscribed
    → (z : System) × Steps y z
      × (z.fields.shutting_down ≡ true)
      × (z.closing ≡ none)
      × (z.fields.channel ≡ some c)
      × (z.fields.consumer_tag ≡ some c)
      × (z.fields.in_flight ≡ task ∷ [])
unfolding resume connected on_message
shutdown_subscribes y c task reached waits live =
    let (one, bare_one, on, idle, unclosed) = waits in
    let y1 : System = record y {
      fields = record y.fields {
        shutting_down = true;
        reconnect_timer = false;
        consumer_tag = none;
        channel = none;
        connection = none;
      };
      closing = none;
    } in
    let first : Step y y1 =
      subst (Step y) (shut_down_at_once y c (Reach-IsConsistent reached) waits) (shutdown on) in
    let y2 =
      resumed [] (subscribing c) [] c resolved
        (record y1 { bare = []; listened = c ∷ y1.listened }) in
    (
      record y2 { fields = on_message (some task) y2.fields },
      step_on first (
          step_on (finished [] [] (subscribing c) c [] [] one refl bare_one refl)
            (step_on (delivered c (some task) live (rw idle tt, tt)) here)),
      refl,
      refl,
      refl,
      refl,
      rw idle,
    )
