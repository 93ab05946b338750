-- ===== src/Consumer/Lifecycle/System.antt =====
-- The consumer with what runs on it: the calls of `connect` and of the shutdown that wait, the
-- connections that are open, and the subscriptions that bring messages. A step is what the event loop
-- does next, in any order that the broker, the timer, the handlers and the framework choose.
use flash_sale_lab.Base.{
  ℕ, ◌≡◌, ◌≢◌, true, false, Option, none, some, List, [], ◌∷◌, ◌++◌, All, Any, to_list, without,
  if◌then◌else◌,
}
use flash_sale_lab.Consumer.Lifecycle.{
  Fields, created, Await, opening, creating, asserting, prefetching, subscribing, Outcome, resolved,
  rejected, Closing, cancelling, draining, closing_channel, closing_connection, connect, on_timer,
  holds, on_message, on_task_end, on_channel_close, on_connection_close, resume,
  before_application_shutdown, resume_shutdown,
}

-- `listened` are the open connections with handlers of `close`, `bare` those without them yet;
-- `subscribed` are the channels on which messages come, and `asked` is the connection that a handler
-- of a channel's `close` has asked to close, until it is closed.
pub record System : Type 0 where
  pub fields : Fields
  pub attempts : List Await
  pub closing : Option Closing
  pub listened : List ℕ
  pub bare : List ℕ
  pub subscribed : List ℕ
  pub asked : Option ℕ

-- `onModuleInit` of the new consumer.
unfoldable pub init : System
unfolding connect
init =
    let (fields, attempt) = connect created in
    record {
      fields = fields;
      attempts = to_list attempt;
      closing = none;
      listened = [];
      bare = [];
      subscribed = [];
      asked = none;
    }

-- The connection that a wait is about.
abbrev pub held_by : Await → Option ℕ
held_by opening = none
held_by (creating c) = some c
held_by (asserting c q) = some c
held_by (prefetching c) = some c
held_by (subscribing c) = some c

-- Messages can come from the call of `consume` on.
abbrev pub subscribes : Await → List ℕ → List ℕ
subscribes (subscribing c) subscribed = c ∷ subscribed
subscribes _ subscribed = subscribed

abbrev pub unsubscribes : Option ℕ → List ℕ → List ℕ
unsubscribes none subscribed = subscribed
unsubscribes (some c) subscribed = without c subscribed

-- What is asked for after a handler of `close`, and after the connection is closed.
abbrev pub asks_for : Option ℕ → Option ℕ → Option ℕ
asks_for none asked = asked
asks_for (some c) asked = some c

abbrev pub forget : ℕ → Option ℕ → Option ℕ
forget c asked = if holds asked c then none else asked

-- The attempt among others goes on.
abbrev pub resumed : List Await → Await → List Await → ℕ → Outcome → System → System
resumed before a after c o y =
    let (fields, attempt) = resume a c o y.fields in
    record y { fields = fields; attempts = before ++ (to_list attempt ++ after) }

abbrev pub shut_on : Closing → System → System
shut_on at y =
    let (fields, closing) = resume_shutdown at y.fields in
    record y { fields = fields; closing = closing }

abbrev pub shut_down : System → System
shut_down y =
    let (fields, closing) = before_application_shutdown y.fields in
    record y { fields = fields; closing = closing }

-- Relied on about amqplib: each connection is a new one, a wait on a connection resolves only while it
-- is open, a channel that is closed or cancelled brings no message, and `connection.close()` ends
-- after the connection has told that it is closed. Relied on about Nest: it calls the shutdown once.
-- Relied on about promises: each handler has a new one, and `Promise.all` waits for all of them.
pub data Step : System → System → Type 0 where
  timer :
      {y : System}
      → y.fields.reconnect_timer ≡ true
      → Step y (record y {
        fields = (on_timer y.fields).0;
        attempts = y.attempts ++ to_list (on_timer y.fields).1;
      })
  opened :
      {y : System} (before after : List Await) (c : ℕ)
      → y.attempts ≡ before ++ (opening ∷ after)
      → All (λ d. d ≢ c) y.bare × All (λ d. d ≢ c) y.listened × All (λ d. d ≢ c) y.subscribed
      → Step y (resumed before opening after c resolved (record y { bare = c ∷ y.bare }))
  went_on :
      {y : System} (before after : List Await) (a b : Await) (c : ℕ)
      → y.attempts ≡ before ++ (a ∷ after)
      → held_by a ≡ some c
      → Any (λ d. d ≡ c) y.bare
      → (resume a c resolved y.fields).1 ≡ some b
      → Step y
          (resumed before a after c resolved (record y { subscribed = subscribes b y.subscribed }))
  finished :
      {y : System} (before after : List Await) (a : Await) (c : ℕ) (bare_before bare_after : List ℕ)
      → y.attempts ≡ before ++ (a ∷ after)
      → held_by a ≡ some c
      → y.bare ≡ bare_before ++ (c ∷ bare_after)
      → (resume a c resolved y.fields).1 ≡ none
      → Step y (
          resumed before a after c resolved
            (record y { bare = bare_before ++ bare_after; listened = c ∷ y.listened }))
  refused :
      {y : System} (before after : List Await) (a : Await)
      → y.attempts ≡ before ++ (a ∷ after)
      → Step y (
          resumed before a after 0 rejected
            (record y { subscribed = unsubscribes (held_by a) y.subscribed }))
  lost :
      {y : System} (before after : List ℕ) (c : ℕ)
      → y.bare ≡ before ++ (c ∷ after)
      → Step y (record y { bare = before ++ after; subscribed = without c y.subscribed })
  channel_lost :
      {y : System} (c : ℕ)
      → Any (λ d. d ≡ c) y.listened
      → Step y (record y {
        fields = (on_channel_close c y.fields).0;
        subscribed = without c y.subscribed;
        asked = asks_for (on_channel_close c y.fields).1 y.asked;
      })
  connection_lost :
      {y : System} (before after : List ℕ) (c : ℕ)
      → y.listened ≡ before ++ (c ∷ after)
      → Step y (record y {
        listened = before ++ after;
        fields = on_connection_close c y.fields;
        subscribed = without c y.subscribed;
        asked = forget c y.asked;
      })
  delivered :
      {y : System} (c : ℕ) (message : Option ℕ)
      → Any (λ d. d ≡ c) y.subscribed
      → All (λ task. All (λ d. d ≢ task) y.fields.in_flight) (to_list message)
      → Step y (record y { fields = on_message message y.fields })
  settled :
      {y : System} (task : ℕ)
      → Any (λ d. d ≡ task) y.fields.in_flight
      → Step y (record y { fields = on_task_end task y.fields })
  shutdown : {y : System} → y.fields.shutting_down ≡ false → Step y (shut_down y)
  cancelled :
      {y : System} (c : ℕ) (connection : Option ℕ)
      → y.closing ≡ some (cancelling c connection)
      → Step y
          (shut_on (cancelling c connection) (record y { subscribed = without c y.subscribed }))
  cancel_failed :
      {y : System} (c : ℕ) (connection : Option ℕ)
      → y.closing ≡ some (cancelling c connection)
      → Step y (shut_on (cancelling c connection) y)
  all_settled :
      {y : System} (tasks : List ℕ) (channel connection : Option ℕ)
      → y.closing ≡ some (draining tasks channel connection)
      → All (λ task. All (λ d. d ≢ task) y.fields.in_flight) tasks
      → Step y (shut_on (draining tasks channel connection) y)
  channel_closed :
      {y : System} (connection : Option ℕ)
      → y.closing ≡ some (closing_channel connection)
      → Step y (shut_on (closing_channel connection) y)
  connection_closed :
      {y : System} (c : ℕ)
      → y.closing ≡ some (closing_connection c)
      → All (λ d. d ≢ c) y.listened
      → Step y (shut_on (closing_connection c) y)

-- What can come of the new consumer.
pub data Reach : System → Type 0 where
  start : Reach init
  next : {y z : System} → Reach y → Step y z → Reach z

-- A step that neither takes a connection or a channel from the consumer nor shuts it down: a connection
-- closes only if the consumer has asked for it.
abbrev pub IsUnforced : {y z : System} → Step y z → Type 0
IsUnforced (lost before after c e) = ⊥
IsUnforced (channel_lost c live) = ⊥
IsUnforced {y} (connection_lost before after c e) = y.asked ≡ some c
IsUnforced (shutdown e) = ⊥
IsUnforced _ = Unit

-- What can come of a state by such steps.
pub data Recovers : System → System → Type 0 where
  done : {y : System} → Recovers y y
  by_itself : {y z x : System} (s : Step y z) → IsUnforced s → Recovers z x → Recovers y x

-- What can come of a state.
pub data Steps : System → System → Type 0 where
  here : {y : System} → Steps y y
  step_on : {y z x : System} → Step y z → Steps z x → Steps y x
