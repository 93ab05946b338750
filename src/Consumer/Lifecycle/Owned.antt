-- ===== src/Consumer/Lifecycle/Owned.antt =====
-- Whose subscriptions bring messages: until the shutdown, none but that of the consumer's channel, or
-- of the attempt that asks for one.
use flash_sale_lab.Base.{
  ℕ, ◌≡◌, ◌⊎◌, inl, inr, true, false, none, some, List, [], ◌∷◌, ◌++◌, length, arith, ap,
  Bool-cases, All, All-map, All-without, without, length_with,
}
use flash_sale_lab.Consumer.Lifecycle.{
  Fields, Await, opening, creating, asserting, prefetching, subscribing, connect,
  schedule_reconnect, on_timer, on_message, on_task_end, on_channel_close, on_connection_close,
  connected, failed, resume, before_application_shutdown, after_cancel, drained, resume_shutdown,
}
use flash_sale_lab.Consumer.Lifecycle.System.{
  System, init, Step, timer, opened, went_on, finished, refused, lost, channel_lost,
  connection_lost, delivered, settled, shutdown, cancelled, cancel_failed, all_settled,
  channel_closed, connection_closed, Reach, start, next,
}
use flash_sale_lab.Consumer.Lifecycle.Steady.{IsConsistent, Reach-IsConsistent}

abbrev pub OwnedBy : Fields → List Await → ℕ → Type 0
OwnedBy s attempts d = (s.channel ≡ some d) ⊎ (attempts ≡ subscribing d ∷ [])

abbrev pub IsOwned : System → Type 0
IsOwned y = All (OwnedBy y.fields y.attempts) y.subscribed

-- The only attempt, where one is taken among others.
the_attempt :
    (y : System) (before after : List Await) (a : Await)
    → IsConsistent y
    → y.attempts ≡ before ++ (a ∷ after)
    → (before ≡ []) × (after ≡ []) × (y.attempts ≡ a ∷ []) × (y.fields.connecting ≡ true)
the_attempt y [] [] a v e = ground (arith, ap length e, v.one_attempt)
the_attempt y [] (x ∷ after) a v e = absurd (ground (arith, ap length e, v.one_attempt))
the_attempt y (x ∷ before) after a v e =
    absurd (ground (arith, ap length e, v.one_attempt, length_with before after a))

Step-IsOwned :
    {y z : System}
    → Step y z
    → IsConsistent y
    → z.fields.shutting_down ≡ false
    → IsOwned y
    → IsOwned z
unfolding on_timer connect on_message on_task_end on_channel_close on_connection_close
    schedule_reconnect resume connected failed before_application_shutdown after_cancel drained
    resume_shutdown
Step-IsOwned {y} (timer fires) v on h =
    All-map (λ d q. ground (arith, v.one_of_three, v.one_attempt)) y.subscribed h
Step-IsOwned {y} (opened before after c e new) v on h =
    All-map (λ d q. ground (arith, the_attempt y before after opening v e)) y.subscribed h
Step-IsOwned {y} (went_on before after a opening c e held live goes) v on h =
    All-map (λ d q. ground (arith, the_attempt y before after a v e)) y.subscribed h
Step-IsOwned {y} (went_on before after a (creating m) c e held live goes) v on h =
    All-map (λ d q. ground (arith, the_attempt y before after a v e)) y.subscribed h
Step-IsOwned {y} (went_on before after a (asserting m q) c e held live goes) v on h =
    All-map (λ d q. ground (arith, the_attempt y before after a v e)) y.subscribed h
Step-IsOwned {y} (went_on before after a (prefetching m) c e held live goes) v on h =
    All-map (λ d q. ground (arith, the_attempt y before after a v e)) y.subscribed h
Step-IsOwned {y} (went_on before after a (subscribing m) c e held live goes) v on h = (
  inr (ground (arith, the_attempt y before after a v e)),
  All-map (λ d q. ground (arith, the_attempt y before after a v e)) y.subscribed h,
)
Step-IsOwned {y} (finished before after a c bb ba e held live ends) v on h =
    All-map (λ d q. ground (arith, the_attempt y before after a v e, v.together, v.apart))
      y.subscribed h
Step-IsOwned {y} (refused before after opening e) v on h =
    All-map (λ d q. ground (arith, the_attempt y before after opening v e)) y.subscribed h
Step-IsOwned {y} (refused before after (creating m) e) v on h =
    All-map (λ d q. ground (arith, the_attempt y before after (creating m) v e))
      (without m y.subscribed) (All-without (OwnedBy y.fields y.attempts) m y.subscribed h)
Step-IsOwned {y} (refused before after (asserting m x) e) v on h =
    All-map (λ d q. ground (arith, the_attempt y before after (asserting m x) v e))
      (without m y.subscribed) (All-without (OwnedBy y.fields y.attempts) m y.subscribed h)
Step-IsOwned {y} (refused before after (prefetching m) e) v on h =
    All-map (λ d q. ground (arith, the_attempt y before after (prefetching m) v e))
      (without m y.subscribed) (All-without (OwnedBy y.fields y.attempts) m y.subscribed h)
Step-IsOwned {y} (refused before after (subscribing m) e) v on h =
    All-map (λ d q. ground (arith, the_attempt y before after (subscribing m) v e))
      (without m y.subscribed) (All-without (OwnedBy y.fields y.attempts) m y.subscribed h)
Step-IsOwned {y} (lost before after c e) v on h =
    All-map (λ d q. q.0) (without c y.subscribed)
      (All-without (OwnedBy y.fields y.attempts) c y.subscribed h)
Step-IsOwned {y} (channel_lost c live) v on h =
    All-map (λ d q. ground arith) (without c y.subscribed)
      (All-without (OwnedBy y.fields y.attempts) c y.subscribed h)
Step-IsOwned {y} (connection_lost before after c e) v on h =
    All-map (λ d q. ground (arith, v.together)) (without c y.subscribed)
      (All-without (OwnedBy y.fields y.attempts) c y.subscribed h)
Step-IsOwned (delivered c none live new) v on h = h
Step-IsOwned (delivered c (some task) live new) v on h = h
Step-IsOwned (settled task runs) v on h = h
Step-IsOwned {y} (shutdown once) v on h = absurd (ground arith)
Step-IsOwned (cancelled c connection e) v on h = absurd (ground (arith, v.closes))
Step-IsOwned (cancel_failed c connection e) v on h = absurd (ground (arith, v.closes))
Step-IsOwned (all_settled tasks channel connection e done) v on h =
    absurd (ground (arith, v.closes))
Step-IsOwned (channel_closed connection e) v on h = absurd (ground (arith, v.closes))
Step-IsOwned (connection_closed c e gone) v on h = absurd (ground (arith, v.closes))

-- A consumer that is shut down stays so.
pub Step_down :
    {y z : System} → Step y z → y.fields.shutting_down ≡ true → z.fields.shutting_down ≡ true
unfolding on_timer connect on_message on_task_end on_channel_close on_connection_close
    schedule_reconnect resume connected failed before_application_shutdown after_cancel drained
    resume_shutdown
Step_down (timer fires) h = ground arith
Step_down (opened before after c e new) h = h
Step_down (went_on before after a b c e held live goes) h = ground arith
Step_down (finished before after a c bb ba e held live ends) h = ground arith
Step_down (refused before after a e) h = ground arith
Step_down (lost before after c e) h = h
Step_down (channel_lost c live) h = ground arith
Step_down (connection_lost before after c e) h = ground arith
Step_down (delivered c none live new) h = h
Step_down (delivered c (some task) live new) h = h
Step_down (settled task runs) h = h
Step_down (shutdown once) h = cc
Step_down (cancelled c connection e) h = ground arith
Step_down (cancel_failed c connection e) h = ground arith
Step_down (all_settled tasks channel connection e done) h = h
Step_down (channel_closed connection e) h = h
Step_down (connection_closed c e gone) h = h

pub Reach-IsOwned : {y : System} → Reach y → y.fields.shutting_down ≡ false → IsOwned y
unfolding init connect
Reach-IsOwned start on = tt
Reach-IsOwned (next {y} reached step) on = elim (Bool-cases y.fields.shutting_down) [
  | inl down ↦ cc (Step_down step down, on)
  | inr up ↦ Step-IsOwned step (Reach-IsConsistent reached) on (Reach-IsOwned reached up)
]
