-- ===== src/RabbitMq/System.antt =====
-- The service with what runs on it: the calls of `connect` and of the shutdown that wait, and the
-- connections that are open. A step is what the event loop does next, in any order that the broker,
-- the timer and the framework choose.
use flash_sale_lab.Base.{
  to_list, ℕ, ◌≡◌, true, false, Option, none, some, List, [], ◌∷◌, ◌++◌, All, Any, ◌≢◌,
}
use flash_sale_lab.RabbitMq.Service.{
  Fields, created, Await, opening, creating, asserting, Outcome, resolved, rejected, Closing,
  closing_channel, closing_connection, connect, on_timer, on_close, resume, on_application_shutdown,
  resume_shutdown,
}

-- `listened` are the open connections with a handler of `close`, `bare` those without one yet.
pub record System : Type 0 where
  pub fields : Fields
  pub attempts : List Await
  pub closings : List Closing
  pub listened : List ℕ
  pub bare : List ℕ

-- `onModuleInit` of the new service.
unfoldable pub init : System
unfolding connect
init =
    let (fields, attempt) = connect created in
    record { fields = fields; attempts = to_list attempt; closings = []; listened = []; bare = [] }

-- The connection that a wait is about.
abbrev pub held_by : Await → Option ℕ
held_by opening = none
held_by (creating c) = some c
held_by (asserting c q) = some c

-- The attempt among others goes on.
abbrev pub resumed : List Await → Await → List Await → ℕ → Outcome → System → System
resumed before a after c o y =
    let (fields, attempt) = resume a c o y.fields in
    record y { fields = fields; attempts = before ++ (to_list attempt ++ after) }

abbrev pub shut : List Closing → Option Closing → List Closing → System → System
shut before c after y = record y { closings = before ++ (to_list c ++ after) }

-- A closing connection tells of it by `close`.
abbrev pub closed_in : List ℕ → List ℕ → System → System
closed_in before after y = record y { listened = before ++ after; fields = on_close y.fields }

-- Relied on about amqplib: each connection is a new one, a wait on a connection resolves only while it
-- is open, and `connection.close()` ends after the connection has told that it is closed. Relied on
-- about Nest: it calls the shutdown once.
pub data Step : System → System → Type 0 where
  timer :
      {y : System}
      → y.fields.reconnect_timer ≡ true
      → Step y (record y {
        fields = (on_timer y.fields).0;
        attempts = y.attempts ++ to_list (on_timer y.fields).1;
      })
  opened :
      {y : System} (before after : List Await) (c : ℕ)
      → y.attempts ≡ before ++ (opening ∷ after)
      → All (λ d. d ≢ c) y.bare × All (λ d. d ≢ c) y.listened
      → Step y (resumed before opening after c resolved (record y { bare = c ∷ y.bare }))
  went_on :
      {y : System} (before after : List Await) (a b : Await) (c : ℕ)
      → y.attempts ≡ before ++ (a ∷ after)
      → held_by a ≡ some c
      → Any (λ d. d ≡ c) y.bare
      → (resume a c resolved y.fields).1 ≡ some b
      → Step y (resumed before a after c resolved y)
  finished :
      {y : System} (before after : List Await) (a : Await) (c : ℕ) (bare_before bare_after : List ℕ)
      → y.attempts ≡ before ++ (a ∷ after)
      → held_by a ≡ some c
      → y.bare ≡ bare_before ++ (c ∷ bare_after)
      → (resume a c resolved y.fields).1 ≡ none
      → Step y (
          resumed before a after c resolved
            (record y { bare = bare_before ++ bare_after; listened = c ∷ y.listened }))
  refused :
      {y : System} (before after : List Await) (a : Await)
      → y.attempts ≡ before ++ (a ∷ after)
      → Step y (resumed before a after 0 rejected y)
  lost :
      {y : System} (before after : List ℕ) (c : ℕ)
      → y.bare ≡ before ++ (c ∷ after)
      → Step y (record y { bare = before ++ after })
  closed :
      {y : System} (before after : List ℕ) (c : ℕ)
      → y.listened ≡ before ++ (c ∷ after)
      → Step y (closed_in before after y)
  shutdown :
      {y : System}
      → y.fields.shutting_down ≡ false
      → Step y (record y {
        fields = (on_application_shutdown y.fields).0;
        closings = y.closings ++ to_list (on_application_shutdown y.fields).1;
      })
  channel_closed :
      {y : System} (before after : List Closing) (connection : Option ℕ)
      → y.closings ≡ before ++ (closing_channel connection ∷ after)
      → Step y (shut before (resume_shutdown (closing_channel connection)) after y)
  connection_closed :
      {y : System} (before after : List Closing) (c : ℕ)
      → y.closings ≡ before ++ (closing_connection c ∷ after)
      → All (λ d. d ≢ c) y.listened
      → Step y (shut before (resume_shutdown (closing_connection c)) after y)

-- What can come of the new service.
pub data Reach : System → Type 0 where
  start : Reach init
  next : {y z : System} → Reach y → Step y z → Reach z

-- What can come of a state.
pub data Steps : System → System → Type 0 where
  here : {y : System} → Steps y y
  step_on : {y z x : System} → Step y z → Steps z x → Steps y x
