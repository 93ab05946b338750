-- ===== src/Consumer/Lifecycle/Steady.antt =====
-- What holds of the consumer at every moment.
use flash_sale_lab.Base.{
  ℕ, ◌+◌, ◌≡◌, ◌⊎◌, true, false, none, some, is_some, length, arith, ap, to_list, one_if,
  length-resumed, length_with, length-started, only_one,
}
use flash_sale_lab.Consumer.Lifecycle.{
  Fields, opening, resolved, rejected, connect, schedule_reconnect, on_timer, on_message,
  on_task_end, on_channel_close, on_connection_close, connected, failed, resume, drained,
  after_cancel, before_application_shutdown, resume_shutdown,
}
use flash_sale_lab.Consumer.Lifecycle.System.{
  System, init, Step, timer, opened, went_on, finished, refused, lost, channel_lost,
  connection_lost, delivered, settled, shutdown, cancelled, cancel_failed, all_settled,
  channel_closed, connection_closed, Reach, start, next,
}

-- The consumer is in one of three states until it shuts down: it has a connection, it is connecting,
-- or it will when the timer fires. After that it has no timer.
abbrev pub OneOfThree : Fields → Type 0
OneOfThree s =
    ((s.shutting_down ≡ true) × (s.reconnect_timer ≡ false))
    ⊎ ((s.shutting_down ≡ false)
        × (one_if (is_some s.connection) + one_if s.connecting + one_if s.reconnect_timer ≡ 1))

-- A channel is that of the connection, and has its subscription.
abbrev pub Together : Fields → Type 0
Together s =
    ((s.channel ≡ none) × (s.consumer_tag ≡ none))
    ⊎ ((c : ℕ) × (s.connection ≡ some c) × (s.channel ≡ some c) × (s.consumer_tag ≡ some c))

-- A connection is asked to close exactly if it is without its channel.
abbrev pub AsksRightly : System → Type 0
AsksRightly y =
    ((y.asked ≡ none) × (y.fields.channel ≡ y.fields.connection))
    ⊎ ((c : ℕ) × (y.fields.connection ≡ some c) × (y.fields.channel ≡ none) × (y.asked ≡ some c))

pub record IsConsistent (y : System) : Type 0 where
  pub together : Together y.fields
  pub one_of_three : OneOfThree y.fields
  -- at most one attempt waits, and `connecting` says whether
  pub one_attempt : length y.attempts ≡ one_if y.fields.connecting
  -- the connections whose `close` is heard: until the shutdown, that of the field only
  pub heard : (y.fields.shutting_down ≡ true) ⊎ (y.listened ≡ to_list y.fields.connection)
  -- an attempt is under way only without a connection
  pub apart : (y.fields.connection ≡ none) ⊎ (y.fields.connecting ≡ false)
  -- no shutdown is under way before it begins
  pub closes : (y.fields.shutting_down ≡ true) ⊎ (y.closing ≡ none)
  -- a connection that has lost its channel is asked to close, and no other is
  pub asks : (y.fields.shutting_down ≡ true) ⊎ AsksRightly y

init-IsConsistent : IsConsistent init
unfolding init connect
init-IsConsistent = ground arith

-- Every step keeps it.
Step-IsConsistent : {y z : System} → Step y z → IsConsistent y → IsConsistent z
unfolding on_timer connect on_message on_task_end on_channel_close on_connection_close
    schedule_reconnect resume connected failed before_application_shutdown resume_shutdown
    after_cancel drained
Step-IsConsistent {y} (timer fires) v =
    ground (arith, length-started y.attempts (on_timer y.fields).1)
Step-IsConsistent {y} (opened before after c e new) v = ground (
  arith,
  ap length e,
  length_with before after opening,
  length-resumed before after (resume opening c resolved y.fields).1,
)
Step-IsConsistent {y} (went_on before after a b c e held live goes) v = ground (
  arith,
  ap length e,
  length_with before after a,
  length-resumed before after (resume a c resolved y.fields).1,
)
Step-IsConsistent {y} (finished before after a c bb ba e held live ends) v = ground (
  arith,
  ap length e,
  length_with before after a,
  length-resumed before after (resume a c resolved y.fields).1,
)
Step-IsConsistent {y} (refused before after a e) v = ground (
  arith,
  ap length e,
  length_with before after a,
  length-resumed before after (resume a 0 rejected y.fields).1,
)
Step-IsConsistent (lost before after c e) v = ground arith
Step-IsConsistent {y} (channel_lost c live) v = ground arith
Step-IsConsistent {y} (connection_lost before after c e) v =
    ground (arith, only_one before after c y.fields.connection)
Step-IsConsistent (delivered c none live new) v = ground arith
Step-IsConsistent (delivered c (some task) live new) v = ground arith
Step-IsConsistent (settled task runs) v = ground arith
Step-IsConsistent (shutdown once) v = ground arith
Step-IsConsistent (cancelled c connection e) v = ground arith
Step-IsConsistent (cancel_failed c connection e) v = ground arith
Step-IsConsistent (all_settled tasks channel connection e done) v = ground arith
Step-IsConsistent (channel_closed connection e) v = ground arith
Step-IsConsistent (connection_closed c e gone) v = ground arith

-- At every moment of the consumer's life, whatever the broker, the timer, the handlers and the
-- framework do: a channel is that of the connection and has its subscription; until the shutdown,
-- exactly one of three holds, that it has a connection, that it is connecting, or that the timer of a
-- next attempt is set, and afterwards no timer is set; at most one attempt to connect waits, only
-- without a connection, and the field `connecting` says whether; until the shutdown the only open
-- connection whose `close` it hears is that of the field, and it has asked to close exactly that one if
-- it is without its channel, and none otherwise.
pub Reach-IsConsistent : {y : System} → Reach y → IsConsistent y
Reach-IsConsistent start = init-IsConsistent
Reach-IsConsistent (next reached step) = Step-IsConsistent step (Reach-IsConsistent reached)
