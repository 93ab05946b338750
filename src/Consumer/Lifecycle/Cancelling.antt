-- ===== src/Consumer/Lifecycle/Cancelling.antt =====
-- The shutdown up to the end of its wait for the cancellation of the subscription.
use flash_sale_lab.Base.{
  ℕ, ◌≡◌, ◌⊎◌, inl, inr, refl, Bool, true, false, Option, none, some, List, [], ◌∷◌, arith, All,
  All-map, All-without, without, none_among, empty_of_length,
}
use flash_sale_lab.Consumer.Lifecycle.{
  opening, Closing, cancelling, on_message, on_task_end, on_channel_close, on_connection_close,
  drained, after_cancel, before_application_shutdown, resume_shutdown,
}
use flash_sale_lab.Consumer.Lifecycle.System.{
  System, shut_down, Step, timer, opened, went_on, finished, refused, lost, channel_lost,
  connection_lost, delivered, settled, shutdown, cancelled, cancel_failed, all_settled,
  channel_closed, connection_closed, Reach, Steps, here, step_on,
}
use flash_sale_lab.Consumer.Lifecycle.Steady.{Reach-IsConsistent}
use flash_sale_lab.Consumer.Lifecycle.Owned.{Reach-IsOwned, Step_down}

abbrev pub is_cancelling : Option Closing → Bool
is_cancelling (some (cancelling c connection)) = true
is_cancelling _ = false

-- The shutdown waits for the subscription's cancellation, and nothing else goes on.
pub record IsCancelling (c : ℕ) (connection : Option ℕ) (y : System) : Type 0 where
  pub at : y.closing ≡ some (cancelling c connection)
  pub down : y.fields.shutting_down ≡ true
  pub no_timer : y.fields.reconnect_timer ≡ false
  pub no_attempt : y.attempts ≡ []
  pub own : All (λ d. d ≡ c) y.subscribed

abbrev pub IsPast : System → Type 0
IsPast y = (y.fields.shutting_down ≡ true) × (is_cancelling y.closing ≡ false)

abbrev pub Phase : ℕ → Option ℕ → System → Type 0
Phase c connection y = (IsCancelling c connection y) ⊎ (IsPast y)

-- The shutdown of a consumer that has a channel and is not connecting.
pub shut_down-IsCancelling :
    (y : System) (c : ℕ)
    → Reach y
    → y.fields.shutting_down ≡ false
    → y.fields.channel ≡ some c
    → IsCancelling c (some c) (shut_down y)
unfolding before_application_shutdown
shut_down-IsCancelling y c reached on has =
    let v = Reach-IsConsistent reached in
    let quiet : y.attempts ≡ [] =
      empty_of_length y.attempts (ground (arith, v.together, v.one_of_three, v.one_attempt)) in
    record {
      at = ground (arith, v.together);
      down = ground (arith, v.together);
      no_timer = ground (arith, v.together);
      no_attempt = quiet;
      own = All-map (λ d q. ground arith) y.subscribed (Reach-IsOwned reached on);
    }

without_own : (c d : ℕ) (xs : List ℕ) → All (λ e. e ≡ d) xs → All (λ e. e ≡ d) (without c xs)
without_own c d xs h = All-map (λ e q. q.0) (without c xs) (All-without (λ e. e ≡ d) c xs h)

pub without-All : (c : ℕ) (xs : List ℕ) → All (λ e. e ≡ c) xs → without c xs ≡ []
without-All c [] h = refl
without-All c (x ∷ xs) h = ground (arith, without-All c xs h.1)

Step-IsCancelling :
    {y z : System} (c : ℕ) (connection : Option ℕ)
    → Step y z
    → IsCancelling c connection y
    → Phase c connection z
unfolding on_message on_task_end on_channel_close on_connection_close after_cancel drained
    resume_shutdown
Step-IsCancelling k n (timer fires) v = absurd (ground (arith, v.no_timer))
Step-IsCancelling k n (opened before after c e new) v =
    absurd (ground (arith, none_among before after opening, v.no_attempt))
Step-IsCancelling k n (went_on before after a b c e held live goes) v =
    absurd (ground (arith, none_among before after a, v.no_attempt))
Step-IsCancelling k n (finished before after a c bb ba e held live ends) v =
    absurd (ground (arith, none_among before after a, v.no_attempt))
Step-IsCancelling k n (refused before after a e) v =
    absurd (ground (arith, none_among before after a, v.no_attempt))
Step-IsCancelling {y} k n (lost before after c e) v =
    inl (ground (arith, without_own c k y.subscribed v.own))
Step-IsCancelling {y} k n (channel_lost c live) v =
    inl (ground (arith, without_own c k y.subscribed v.own))
Step-IsCancelling {y} k n (connection_lost before after c e) v =
    inl (ground (arith, without_own c k y.subscribed v.own))
Step-IsCancelling k n (delivered c none live new) v = inl v
Step-IsCancelling k n (delivered c (some task) live new) v = inl (record {
  at = v.at;
  down = v.down;
  no_timer = v.no_timer;
  no_attempt = v.no_attempt;
  own = v.own;
})
Step-IsCancelling k n (settled task runs) v = inl (record {
  at = v.at;
  down = v.down;
  no_timer = v.no_timer;
  no_attempt = v.no_attempt;
  own = v.own;
})
Step-IsCancelling k n (shutdown once) v = absurd (ground (arith, v.down))
Step-IsCancelling k n (cancelled c connection e) v = inr (ground (arith, v.down))
Step-IsCancelling k n (cancel_failed c connection e) v = inr (ground (arith, v.down))
Step-IsCancelling k n (all_settled tasks channel connection e done) v =
    absurd (ground (arith, v.at))
Step-IsCancelling k n (channel_closed connection e) v = absurd (ground (arith, v.at))
Step-IsCancelling k n (connection_closed c e gone) v = absurd (ground (arith, v.at))

past-Step :
    {y z : System}
    → Step y z
    → y.fields.shutting_down ≡ true
    → is_cancelling y.closing ≡ false
    → is_cancelling z.closing ≡ false
unfolding after_cancel drained resume_shutdown
past-Step (timer fires) down past = past
past-Step (opened before after c e new) down past = past
past-Step (went_on before after a b c e held live goes) down past = past
past-Step (finished before after a c bb ba e held live ends) down past = past
past-Step (refused before after a e) down past = past
past-Step (lost before after c e) down past = past
past-Step (channel_lost c live) down past = past
past-Step (connection_lost before after c e) down past = past
past-Step (delivered c message live new) down past = past
past-Step (settled task runs) down past = past
past-Step (shutdown once) down past = cc
past-Step (cancelled c connection e) down past = ground arith
past-Step (cancel_failed c connection e) down past = ground arith
past-Step (all_settled tasks channel connection e done) down past = ground arith
past-Step (channel_closed connection e) down past = ground arith
past-Step (connection_closed c e gone) down past = refl

pub Steps-Phase :
    {y z : System} (c : ℕ) (connection : Option ℕ)
    → Steps y z
    → Phase c connection y
    → Phase c connection z
Steps-Phase c n here h = h
Steps-Phase c n (step_on step steps) (inl v) = Steps-Phase c n steps (Step-IsCancelling c n step v)
Steps-Phase c n (step_on step steps) (inr (down, past)) =
    Steps-Phase c n steps (inr (Step_down step down, past-Step step down past))
