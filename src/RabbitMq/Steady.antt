-- ===== src/RabbitMq/Steady.antt =====
-- What holds of the service at every moment.
use flash_sale_lab.Base.{
  to_list, one_if, length-resumed, length_with, length-started, only_one, ◌+◌, ◌≡◌, ◌⊎◌, true,
  false, is_some, length, arith, ap,
}
use flash_sale_lab.RabbitMq.Service.{
  Fields, opening, resolved, rejected, connect, on_timer, on_close, resume, on_application_shutdown,
  schedule_reconnect, connected, failed,
}
use flash_sale_lab.RabbitMq.System.{
  System, init, Step, timer, opened, went_on, finished, refused, lost, closed, shutdown,
  channel_closed, connection_closed, Reach, start, next,
}

-- The service is in one of three states until it shuts down: it is connected, it is trying to, or it
-- will try when the timer fires. After that it has no timer.
abbrev pub OneOfThree : Fields → Type 0
OneOfThree s =
    ((s.shutting_down ≡ true) × (s.reconnect_timer ≡ false))
    ⊎ ((s.shutting_down ≡ false)
        × (one_if (is_some s.channel) + one_if s.connecting + one_if s.reconnect_timer ≡ 1))

pub record IsSteady (y : System) : Type 0 where
  -- connection and channel are set and unset together
  pub together : y.fields.connection ≡ y.fields.channel
  pub one_of_three : OneOfThree y.fields
  -- at most one attempt waits, and `connecting` says whether
  pub one_attempt : length y.attempts ≡ one_if y.fields.connecting
  -- the connections whose `close` is heard: until the shutdown, that of the field only
  pub heard : (y.fields.shutting_down ≡ true) ⊎ (y.listened ≡ to_list y.fields.channel)

init-IsSteady : IsSteady init
unfolding init
init-IsSteady = ground arith

-- Every step keeps it.
Step-IsSteady : {y z : System} → Step y z → IsSteady y → IsSteady z
unfolding on_timer connect on_close schedule_reconnect resume on_application_shutdown connected
    failed
Step-IsSteady {y} (timer fires) v = ground (arith, length-started y.attempts (on_timer y.fields).1)
Step-IsSteady {y} (opened before after c e new) v = ground (
  arith,
  ap length e,
  length_with before after opening,
  length-resumed before after (resume opening c resolved y.fields).1,
)
Step-IsSteady {y} (went_on before after a b c e held live goes) v = ground (
  arith,
  ap length e,
  length_with before after a,
  length-resumed before after (resume a c resolved y.fields).1,
)
Step-IsSteady {y} (finished before after a c bb ba e held live ends) v = ground (
  arith,
  ap length e,
  length_with before after a,
  length-resumed before after (resume a c resolved y.fields).1,
)
Step-IsSteady {y} (refused before after a e) v = ground (
  arith,
  ap length e,
  length_with before after a,
  length-resumed before after (resume a 0 rejected y.fields).1,
)
Step-IsSteady (lost before after c e) v = ground arith
Step-IsSteady {y} (closed before after c e) v =
    ground (arith, only_one before after c y.fields.channel)
Step-IsSteady (shutdown once) v = ground arith
Step-IsSteady (channel_closed before after connection e) v = ground arith
Step-IsSteady (connection_closed before after c e gone) v = ground arith

-- At every moment of the service's life, whatever the broker, the timer and the framework do:
-- connection and channel are set and unset together; until the shutdown, exactly one of three holds,
-- that it has a channel, that it is connecting, or that the timer of a next attempt is set, and
-- afterwards no timer is set; at most one attempt to connect waits, and the field `connecting` says
-- whether; and until the shutdown the only open connection whose `close` it hears is that of the field.
pub Reach-IsSteady : {y : System} → Reach y → IsSteady y
Reach-IsSteady start = init-IsSteady
Reach-IsSteady (next reached step) = Step-IsSteady step (Reach-IsSteady reached)
