-- ===== src/RabbitMq/Shutdown.antt =====
-- What comes after the shutdown, and what attempts to connect leave behind.
use flash_sale_lab.Base.{
  to_list, none_among, empty_of_length, ℕ, zero, suc, ◌≡◌, ◌≢◌, inl, refl, true, false, none, List,
  [], ◌∷◌, ◌++◌, length, arith, All, Any, ap, ◌∙◌, ◌≤◌, append-nil,
}
use flash_sale_lab.Platform.Broker.{order_notification_retry}
use flash_sale_lab.RabbitMq.Service.{
  opening, creating, asserting, resolved, resume, is_available, connect, on_timer, on_close,
  connected, failed, schedule_reconnect, on_application_shutdown,
}
use flash_sale_lab.RabbitMq.System.{
  System, init, resumed, Step, timer, opened, went_on, finished, refused, lost, closed, shutdown,
  channel_closed, connection_closed, Reach, start, next, Steps, here, step_on,
}
use flash_sale_lab.RabbitMq.Steady.{IsSteady, Reach-IsSteady}

-- Shut down, with nothing set and nothing under way.
pub record IsQuiet (y : System) : Type 0 where
  pub down : y.fields.shutting_down ≡ true
  pub no_timer : y.fields.reconnect_timer ≡ false
  pub no_connection : y.fields.connection ≡ none
  pub no_channel : y.fields.channel ≡ none
  pub no_attempt : y.attempts ≡ []

Step-IsQuiet : {y z : System} → Step y z → IsQuiet y → IsQuiet z
unfolding on_close
Step-IsQuiet (timer fires) v = ground arith
Step-IsQuiet (opened before after c e new) v = ground (arith, none_among before after opening)
Step-IsQuiet (went_on before after a b c e held live goes) v =
    ground (arith, none_among before after a)
Step-IsQuiet (finished before after a c bb ba e held live ends) v =
    ground (arith, none_among before after a)
Step-IsQuiet (refused before after a e) v = ground (arith, none_among before after a)
Step-IsQuiet (lost before after c e) v = ground arith
Step-IsQuiet (closed before after c e) v = ground arith
Step-IsQuiet (shutdown once) v = ground arith
Step-IsQuiet (channel_closed before after connection e) v = ground arith
Step-IsQuiet (connection_closed before after c e gone) v = ground arith

Steps-IsQuiet : {y z : System} → Steps y z → IsQuiet y → IsQuiet z
Steps-IsQuiet here v = v
Steps-IsQuiet (step_on step steps) v = Steps-IsQuiet steps (Step-IsQuiet step v)

shutdown_idle-IsQuiet :
    (y : System)
    → IsSteady y
    → y.fields.connecting ≡ false
    → IsQuiet (record y {
      fields = (on_application_shutdown y.fields).0;
      closings = y.closings ++ to_list (on_application_shutdown y.fields).1;
    })
unfolding on_application_shutdown
shutdown_idle-IsQuiet y v idle = ground (arith, empty_of_length y.attempts, v.one_attempt)

-- If no attempt to connect is under way when the shutdown begins, then from its first step on, whatever
-- follows, the service has no connection, no channel and no timer, and makes no attempt.
pub shutdown-IsQuiet :
    {y z : System}
    → Reach y
    → y.fields.connecting ≡ false
    → Steps
        (record y {
          fields = (on_application_shutdown y.fields).0;
          closings = y.closings ++ to_list (on_application_shutdown y.fields).1;
        })
        z
    → IsQuiet z
shutdown-IsQuiet {y} reached idle steps =
    Steps-IsQuiet steps (shutdown_idle-IsQuiet y (Reach-IsSteady reached) idle)

-- An attempt at its last wait, in a service that is not shut down.
abbrev pub AtLastWait : System → ℕ → Type 0
AtLastWait y c =
    (y.attempts ≡ asserting c order_notification_retry ∷ [])
    × (y.bare ≡ c ∷ [])
    × (y.fields.shutting_down ≡ false)

-- If an attempt is at its last wait, on the only open connection without a handler, when the shutdown
-- begins, then the shutdown can end at once and the attempt still connect: the service is then shut down and available, it waits to close nothing,
-- and its connection is open.
pub shutdown_connects :
    (y : System) (c : ℕ)
    → Reach y
    → AtLastWait y c
    → (z : System) × Steps y z
      × (z.fields.shutting_down ≡ true)
      × (is_available z.fields ≡ true)
      × (z.closings ≡ y.closings)
      × Any (λ d. d ≡ c) z.listened
unfolding on_application_shutdown resume connected is_available
shutdown_connects y c reached (one, bare_one, on) =
    let v = Reach-IsSteady reached in
    let (fields, closing) = on_application_shutdown y.fields in
    let y1 : System = record y { fields = fields; closings = y.closings ++ to_list closing } in
    let a = asserting c order_notification_retry in
    let free : y.fields.channel ≡ none =
      ground (arith, v.one_of_three, v.one_attempt, ap length one) in
    let free' : y.fields.connection ≡ none = v.together ∙ free in
    (
      resumed [] a [] c resolved (record y1 { bare = []; listened = c ∷ y1.listened }),
      step_on (shutdown on) (step_on (finished [] [] a c [] [] one refl bare_one refl) here),
      refl,
      refl,
      rw (free, free', append-nil y.closings),
      inl refl,
    )

-- A state after some failed attempts.
down_to : ℕ → List ℕ
down_to zero = []
down_to (suc n) = n ∷ down_to n

leaky : ℕ → System
unfolding down_to
leaky n = record {
  fields = record {
    connection = none;
    channel = none;
    reconnect_timer = true;
    connecting = false;
    shutting_down = false;
  };
  attempts = [];
  closings = [];
  listened = [];
  bare = down_to n;
}

down_to_fresh : (m n : ℕ) → n ≤ m → All (λ d. d ≢ m) (down_to n)
unfolding down_to
down_to_fresh m zero h = tt
down_to_fresh m (suc n) h = (omega arith, down_to_fresh m n (omega arith))

length-down_to : (n : ℕ) → length (down_to n) ≡ n
unfolding down_to
length-down_to zero = refl
length-down_to (suc n) = omega (arith, length-down_to n)

Reach-leaky : (n : ℕ) → Reach (leaky n)
unfolding leaky init connect on_timer resume failed schedule_reconnect
Reach-leaky zero = next start (refused [] [] opening refl)
Reach-leaky (suc n) =
    next
      (next (next (Reach-leaky n) (timer refl))
        (opened [] [] n refl (down_to_fresh n n (omega arith), tt)))
      (refused [] [] (creating n) refl)

-- There is no bound on the connections that failed attempts leave open: for every number, the service
-- can come to a state with that many open connections that no field and no attempt holds, and it has
-- a timer for the next attempt.
pub failed_attempts_leak :
    (n : ℕ)
    → (y : System) × Reach y
      × (length y.bare ≡ n)
      × (y.attempts ≡ [])
      × (y.fields.connection ≡ none)
      × (y.fields.reconnect_timer ≡ true)
unfolding leaky
failed_attempts_leak n = (leaky n, Reach-leaky n, length-down_to n, refl, refl, refl)
