-- ===== src/Outbox/Reading.antt =====
-- What `findPending` makes of the rows that `create` has written, and of others.
use flash_sale_lab.Base.{ℕ, ◌≡◌, refl, arith, some, none, List, [], ◌∷◌, Any, inl, inr, length}
use flash_sale_lab.Io.{Error, Result, ok, err, ◌>>=◌, ◌>>◌, settle}
use flash_sale_lab.Io.Run.{run}
use flash_sale_lab.Platform.{Call, Reply, Prog, statement, direct, measure, observe_count}
use flash_sale_lab.Platform.Database.{OutboxEvent, pending, find_events}
use flash_sale_lab.Outbox.Repository.{
  CreateOutboxEventInput, PendingOutboxEvent, payload_json, read_event, read_events, cons_ok,
  find_pending,
}
use flash_sale_lab.Outbox.Publisher.{batch_size, publish_batch, publish_events}

-- The row that a database makes of an input, which may have any id, status and times.
abbrev pub Stores : CreateOutboxEventInput → OutboxEvent → Type 0
Stores i row =
    (row.kind ≡ i.kind) × (row.payload ≡ payload_json i.order_id i.request_id i.trace_context)

abbrev pub as_pending : ℕ → CreateOutboxEventInput → PendingOutboxEvent
as_pending id i = record {
  id = id;
  kind = i.kind;
  order_id = i.order_id;
  request_id = i.request_id;
  trace_context = i.trace_context;
}

pub data AllStored : List CreateOutboxEventInput → List OutboxEvent → Type 0 where
  nil : AllStored [] []
  cons :
      {i : CreateOutboxEventInput} {row : OutboxEvent} {is : List CreateOutboxEventInput}
      {rows : List OutboxEvent}
      → Stores i row
      → AllStored is rows
      → AllStored (i ∷ is) (row ∷ rows)

-- The inputs with the ids of their rows.
abbrev pub with_ids : List CreateOutboxEventInput → List OutboxEvent → List PendingOutboxEvent
with_ids (i ∷ is) (row ∷ rows) = as_pending row.id i ∷ with_ids is rows
with_ids _ _ = []

read_event-Stores :
    (i : CreateOutboxEventInput) (row : OutboxEvent)
    → Stores i row
    → read_event row ≡ ok (as_pending row.id i)
unfolding read_event
read_event-Stores i row (kind, payload) = ground arith

-- Reading gives back, in order, the type and the payload of each input that was written, trace
-- context included, with the id of its row, whatever the rows' statuses and times.
pub read_events-AllStored :
    {is : List CreateOutboxEventInput} {rows : List OutboxEvent}
    → AllStored is rows
    → read_events rows ≡ ok (with_ids is rows)
unfolding read_events
read_events-AllStored nil = refl
read_events-AllStored (cons {i} {row} {is} {rows} stored rest) =
    rw (read_event-Stores i row stored, read_events-AllStored rest) refl

-- A row that reading refuses.
abbrev pub IsMalformed : OutboxEvent → Type 0
IsMalformed row = (e : Error) × (read_event row ≡ err e)

cons_ok_err :
    (r : Result PendingOutboxEvent) (e : Error) → (d : Error) × (cons_ok r (err e) ≡ err d)
cons_ok_err (ok p) e = (e, refl)
cons_ok_err (err d) e = (d, refl)

read_events-malformed :
    (rows : List OutboxEvent) → Any IsMalformed rows → (e : Error) × (read_events rows ≡ err e)
unfolding read_events
read_events-malformed [] h = absurd h
read_events-malformed (row ∷ rows) (inl (e, bad)) = (e, rw bad refl)
read_events-malformed (row ∷ rows) (inr later) =
    let (e, bad) = read_events-malformed rows later in
    let (d, same) = cons_ok_err (read_event row) e in (d, rw bad same)

abbrev pub find_first : Call
find_first =
    statement
      (find_events (record { id = none; status = some pending; started_lt = none }) batch_size)

-- What the `try` block does once its search has been answered.
abbrev after_answer : Result (List OutboxEvent) → Prog (Unit {0})
after_answer r = do
  events ← direct (settle r >>= λ rows. settle (read_events rows))
  measure (observe_count "outbox_publisher_events" (length events))
  publish_events events

after_answer-malformed :
    {W : Type 0} (env : (c : Call) → W → Reply c × W) (w : W) (r : Result (List OutboxEvent))
    (rows : List OutboxEvent)
    → r ≡ ok rows
    → Any IsMalformed rows
    → (e : Error) × (run env (after_answer r) w ≡ (err e, w))
after_answer-malformed env w r rows found bad =
    let (e, refused) = read_events-malformed rows bad in (e, rw (found, refused) refl)

-- If one of the rows that are found is malformed, `publishBatch` throws, and does nothing after its
-- search: it claims and sends none of the other events.
pub publish_batch-malformed :
    {W : Type 0} (env : (c : Call) → W → Reply c × W) (w : W) (rows : List OutboxEvent)
    → (env find_first w).0 ≡ ok rows
    → Any IsMalformed rows
    → (e : Error) × (run env publish_batch w ≡ (err e, (env find_first w).1))
unfolding publish_batch find_pending
publish_batch-malformed env w rows found bad =
    after_answer-malformed env (env find_first w).1 (env find_first w).0 rows found bad
