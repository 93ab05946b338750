-- ===== src/Consumer/Lifecycle/Drain.antt =====
-- That a shutdown lets the handlers in flight end before it closes the channel that they use.
use flash_sale_lab.Base.{
  ℕ, ◌≡◌, ◌≢◌, inl, inr, refl, sym, subst, true, false, Option, none, some, List, [], ◌∷◌, arith,
  All, Any, All-map, All-without, without, none_among,
}
use flash_sale_lab.Consumer.Lifecycle.{
  Fields, opening, Closing, cancelling, draining, closing_channel, closing_connection,
  schedule_reconnect, on_message, on_task_end, on_channel_close, on_connection_close, drained,
  after_cancel, resume_shutdown, close_connection, close_both, wait_for,
}
use flash_sale_lab.Consumer.Lifecycle.System.{
  System, shut_on, shut_down, Step, timer, opened, went_on, finished, refused, lost, channel_lost,
  connection_lost, delivered, settled, shutdown, cancelled, cancel_failed, all_settled,
  channel_closed, connection_closed, Reach, Steps, here, step_on,
}
use flash_sale_lab.Consumer.Lifecycle.Cancelling.{
  IsCancelling, shut_down-IsCancelling, Steps-Phase, without-All,
}

-- What the handlers in flight are while the shutdown waits for them, and from then on.
abbrev pub Rest : Option Closing → List ℕ → Type 0
Rest (some (cancelling c connection)) in_flight = ⊥
Rest (some (draining tasks channel connection)) in_flight =
    All (λ task. Any (λ d. d ≡ task) tasks) in_flight
Rest _ in_flight = in_flight ≡ []

-- After the cancellation: no message comes, and the shutdown leaves its wait for handlers only when
-- none is in flight.
pub record IsDraining (y : System) : Type 0 where
  pub down : y.fields.shutting_down ≡ true
  pub no_timer : y.fields.reconnect_timer ≡ false
  pub no_attempt : y.attempts ≡ []
  pub unsubscribed : y.subscribed ≡ []
  pub rest : Rest y.closing y.fields.in_flight

Any-self :
    (x : ℕ) (xs ys : List ℕ)
    → All (λ task. Any (λ d. d ≡ task) ys) xs
    → All (λ task. Any (λ d. d ≡ task) (x ∷ ys)) xs
Any-self x xs ys h = All-map (λ task q. inr q) xs h

All-self : (xs : List ℕ) → All (λ task. Any (λ d. d ≡ task) xs) xs
All-self [] = tt
All-self (x ∷ xs) = (inl refl, Any-self x xs xs (All-self xs))

-- Handlers that are all among those that have ended are none.
All-ended :
    (tasks xs : List ℕ)
    → All (λ task. Any (λ d. d ≡ task) tasks) xs
    → All (λ task. All (λ d. d ≢ task) xs) tasks
    → xs ≡ []
All-ended tasks [] h q = refl
All-ended tasks (x ∷ xs) (mine, h) q = absurd (ended tasks mine q)
  where
    ended : (ts : List ℕ) → Any (λ d. d ≡ x) ts → All (λ task. All (λ d. d ≢ task) (x ∷ xs)) ts → ⊥
    ended [] m r = m
    ended (t ∷ ts) (inl e) r = r.0.0 (sym e)
    ended (t ∷ ts) (inr m) r = ended ts m r.1

Rest-close_connection :
    (connection : Option ℕ) (xs : List ℕ) → xs ≡ [] → Rest (close_connection connection) xs
Rest-close_connection none xs e = e
Rest-close_connection (some c) xs e = e

Rest-close_both :
    (channel connection : Option ℕ) (xs : List ℕ)
    → xs ≡ []
    → Rest (close_both channel connection) xs
Rest-close_both none connection xs e = Rest-close_connection connection xs e
Rest-close_both (some c) connection xs e = e

Rest-without : (task : ℕ) (o : Option Closing) (xs : List ℕ) → Rest o xs → Rest o (without task xs)
Rest-without task none xs h = rw h
Rest-without task (some (cancelling c connection)) xs h = h
Rest-without task (some (draining tasks channel connection)) xs h =
    All-map (λ t q. q.0) (without task xs) (All-without (λ t. Any (λ d. d ≡ t) tasks) task xs h)
Rest-without task (some (closing_channel connection)) xs h = rw h
Rest-without task (some (closing_connection c)) xs h = rw h

not_delivered : (c : ℕ) (xs : List ℕ) → xs ≡ [] → Any (λ d. d ≡ c) xs → ⊥
not_delivered c [] e h = h
not_delivered c (x ∷ xs) e h = cc

Step-IsDraining : {y z : System} → Step y z → IsDraining y → IsDraining z
unfolding on_message on_task_end on_channel_close on_connection_close schedule_reconnect drained
    resume_shutdown
Step-IsDraining (timer fires) v = absurd (ground (arith, v.no_timer))
Step-IsDraining (opened before after c e new) v =
    absurd (ground (arith, none_among before after opening, v.no_attempt))
Step-IsDraining (went_on before after a b c e held live goes) v =
    absurd (ground (arith, none_among before after a, v.no_attempt))
Step-IsDraining (finished before after a c bb ba e held live ends) v =
    absurd (ground (arith, none_among before after a, v.no_attempt))
Step-IsDraining (refused before after a e) v =
    absurd (ground (arith, none_among before after a, v.no_attempt))
Step-IsDraining (lost before after c e) v = record {
  down = v.down;
  no_timer = v.no_timer;
  no_attempt = v.no_attempt;
  unsubscribed = rw v.unsubscribed;
  rest = v.rest;
}
Step-IsDraining {y} (channel_lost c live) v = record {
  down = ground (arith, v.down);
  no_timer = ground (arith, v.no_timer, v.down);
  no_attempt = v.no_attempt;
  unsubscribed = rw v.unsubscribed;
  rest =
      subst (Rest y.closing)
        (let e : y.fields.in_flight ≡ (on_channel_close c y.fields).0.in_flight =
            ground (arith, v.down) in
          e)
        v.rest;
}
Step-IsDraining {y} (connection_lost before after c e) v = record {
  down = ground (arith, v.down);
  no_timer = ground (arith, v.no_timer, v.down);
  no_attempt = v.no_attempt;
  unsubscribed = rw v.unsubscribed;
  rest =
      subst (Rest y.closing)
        (let e : y.fields.in_flight ≡ (on_connection_close c y.fields).in_flight =
            ground (arith, v.down) in
          e)
        v.rest;
}
Step-IsDraining {y} (delivered c message live new) v =
    absurd (not_delivered c y.subscribed v.unsubscribed live)
Step-IsDraining {y} (settled task runs) v = record {
  down = v.down;
  no_timer = v.no_timer;
  no_attempt = v.no_attempt;
  unsubscribed = v.unsubscribed;
  rest = Rest-without task y.closing y.fields.in_flight v.rest;
}
Step-IsDraining (shutdown once) v = absurd (ground (arith, v.down))
Step-IsDraining {y} (cancelled c connection e) v =
    absurd (subst (λ o. Rest o y.fields.in_flight) e v.rest)
Step-IsDraining {y} (cancel_failed c connection e) v =
    absurd (subst (λ o. Rest o y.fields.in_flight) e v.rest)
Step-IsDraining {y} (all_settled tasks channel connection e done) v = record {
  down = v.down;
  no_timer = v.no_timer;
  no_attempt = v.no_attempt;
  unsubscribed = v.unsubscribed;
  rest =
      Rest-close_both channel connection y.fields.in_flight
        (All-ended tasks y.fields.in_flight (subst (λ o. Rest o y.fields.in_flight) e v.rest) done);
}
Step-IsDraining {y} (channel_closed connection e) v = record {
  down = v.down;
  no_timer = v.no_timer;
  no_attempt = v.no_attempt;
  unsubscribed = v.unsubscribed;
  rest =
      Rest-close_connection connection y.fields.in_flight
        (subst (λ o. Rest o y.fields.in_flight) e v.rest);
}
Step-IsDraining {y} (connection_closed c e gone) v = record {
  down = v.down;
  no_timer = v.no_timer;
  no_attempt = v.no_attempt;
  unsubscribed = v.unsubscribed;
  rest = subst (λ o. Rest o y.fields.in_flight) e v.rest;
}

Steps-IsDraining : {y z : System} → Steps y z → IsDraining y → IsDraining z
Steps-IsDraining here v = v
Steps-IsDraining (step_on step steps) v = Steps-IsDraining steps (Step-IsDraining step v)

-- `channel.cancel` has resolved.
abbrev pub after_cancelled : ℕ → Option ℕ → System → System
after_cancelled c connection y =
    shut_on (cancelling c connection) (record y { subscribed = without c y.subscribed })

waited :
    (in_flight : List ℕ) (c : ℕ) (connection : Option ℕ) (s : Fields)
    → s.in_flight ≡ in_flight
    → let (t, closing) = wait_for in_flight (some c) connection s in Rest closing t.in_flight
unfolding wait_for drained
waited [] c connection s e = e
waited (task ∷ tasks) c connection s e =
    subst (All (λ t. Any (λ d. d ≡ t) (task ∷ tasks))) (sym e) (All-self (task ∷ tasks))

cancelled-IsDraining :
    (c : ℕ) (connection : Option ℕ) (y : System)
    → IsCancelling c connection y
    → IsDraining (after_cancelled c connection y)
unfolding resume_shutdown after_cancel drained
cancelled-IsDraining c connection y v = record {
  down = ground (arith, v.down);
  no_timer = ground (arith, v.no_timer);
  no_attempt = v.no_attempt;
  unsubscribed = without-All c y.subscribed v.own;
  rest = waited y.fields.in_flight c connection y.fields refl;
}

-- A shutdown begins while the consumer has a channel. If the cancellation of its subscription
-- resolves, then from there on, whatever follows, no message is delivered and no attempt is made, and
-- the shutdown waits for the handlers that were in flight: it asks to close the channel and the
-- connection, and ends, only when no handler is in flight any more.
pub shutdown_drains :
    {y z x : System} (c : ℕ) (connection : Option ℕ)
    → Reach y
    → y.fields.shutting_down ≡ false
    → y.fields.channel ≡ some c
    → Steps (shut_down y) z
    → z.closing ≡ some (cancelling c connection)
    → Steps (after_cancelled c connection z) x
    → IsDraining x
shutdown_drains {y} {z} c connection reached on has first at rest =
    elim (Steps-Phase c (some c) first (inl (shut_down-IsCancelling y c reached on has))) [
      | inl v ↦ Steps-IsDraining rest (
          cancelled-IsDraining c connection z (record {
            at = at;
            down = v.down;
            no_timer = v.no_timer;
            no_attempt = v.no_attempt;
            own = v.own;
          }))
      | inr (down, past) ↦ absurd (ground arith)
    ]
