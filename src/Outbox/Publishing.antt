-- ===== src/Outbox/Publishing.antt =====
-- The order of a publishing cycle's steps, whatever the database and the broker answer.
use flash_sale_lab.Base.{
  ℕ, ◌≡◌, refl, subst, sym, inl, inr, List, [], ◌∷◌, All, Any, Bool, true, false, length, ◌+◌, none,
  some, ltb, if◌then◌else◌,
}
use flash_sale_lab.Io.{Result, ok, err, pure, call, ◌>>=◌, ◌>>◌, finally, settle}
use flash_sale_lab.Io.Run.{run, finally_run, run-finally}
use flash_sale_lab.Platform.{
  Call, Reply, Prog, direct, measure, local, store_active, load_active, statement, metric,
  observe_count, inc,
}
use flash_sale_lab.Outbox.Repository.{
  PendingOutboxEvent, read_event, read_events, cons_ok, find_pending,
}
use flash_sale_lab.Platform.Laws.Bodies.{ok-injective}
use flash_sale_lab.Platform.Database.{OutboxEvent, pending, find_events}
use flash_sale_lab.Outbox.Ledger.{Ledger, blank, kept, enter_found}
use flash_sale_lab.Outbox.Publisher.{
  publish_events, publish_batch, leave, batch_size, publish_pending,
}
use flash_sale_lab.Outbox.Sending.{Announces, Follows, Reads, ledger_after, publish_events-Keeps}

-- Every message tells of a row that was found PENDING and claimed before, and every mark is of such a
-- row and comes after the confirm of its notification.
pub record IsOrdered (l : Ledger) : Type 0 where
  pub messages_claimed : All (λ m. Any (Reads (Announces m)) l.found) l.messages
  pub marks_confirmed : All (λ m. Any (Reads (Follows m)) l.found) l.marks

-- Rows that were read hold each event that was read.
module _ (P : PendingOutboxEvent → Type 0) where
  cons_ok-Any :
      (row : OutboxEvent) (r : Result PendingOutboxEvent) (rs : Result (List PendingOutboxEvent))
      (rows : List OutboxEvent) (es : List PendingOutboxEvent)
      → read_event row ≡ r
      → ((ds : List PendingOutboxEvent) → rs ≡ ok ds → Any P ds → Any (Reads P) rows)
      → cons_ok r rs ≡ ok es
      → Any P es
      → Any (Reads P) (row ∷ rows)
  cons_ok-Any row (err x) rs rows es read rest e h = cc
  cons_ok-Any row (ok d) (err x) rows es read rest e h = cc
  cons_ok-Any row (ok d) (ok ds) rows es read rest e h =
      elim (subst (Any P) (sym (ok-injective e)) h) [
        | inl now ↦ inl (d, read, now)
        | inr later ↦ inr (rest ds refl later)
      ]

  read_events-Any :
      (rows : List OutboxEvent) (es : List PendingOutboxEvent)
      → read_events rows ≡ ok es
      → Any P es
      → Any (Reads P) rows
  unfolding read_events
  read_events-Any [] es e h = absurd (subst (Any P) (sym (ok-injective e)) h)
  read_events-Any (row ∷ rows) es e h =
      cons_ok-Any row (read_event row) (read_events rows) rows es refl (read_events-Any rows) e h

module _ {W : Type 0} (env : (c : Call) → W → Reply c × W) where
  -- The rest of the `try` block once the rows are read.
  abbrev after_read : Result (List PendingOutboxEvent) → Prog (Unit {0})
  after_read r = do
    events ← direct (settle r)
    measure (observe_count "outbox_publisher_events" (length events))
    publish_events events

  after_read-IsOrdered :
      (rows : List OutboxEvent) (r : Result (List PendingOutboxEvent)) (w : W)
      → read_events rows ≡ r
      → IsOrdered (ledger_after env (after_read r) w (record blank { found = rows }))
  after_read-IsOrdered rows (err x) w e = record { messages_claimed = tt; marks_confirmed = tt }
  after_read-IsOrdered rows (ok es) w e =
      let v = (env (local (metric (observe_count "outbox_publisher_events" (length es)))) w).1 in
      let l = record blank { found = rows } in
      let (kept_all, same) =
        publish_events-Keeps env (λ m. Any (Reads (Announces m)) rows)
          (λ m. Any (Reads (Follows m)) rows) es (λ m. read_events-Any (Announces m) rows es e)
          (λ m. read_events-Any (Follows m) rows es e) v l (tt, tt) in
      let u = ledger_after env (publish_events es) v l in
      record {
        messages_claimed =
            subst (λ f. All (λ m. Any (Reads (Announces m)) f) u.messages) (sym same) kept_all.0;
        marks_confirmed =
            subst (λ f. All (λ m. Any (Reads (Follows m)) f) u.marks) (sym same) kept_all.1;
      }

  after_found-IsOrdered :
      (r : Result (List OutboxEvent)) (w : W)
      → IsOrdered
          (run
            (kept env)
            (direct (settle r >>= λ rows. settle (read_events rows)) >>= λ events. do
              measure (observe_count "outbox_publisher_events" (length events))
              publish_events events)
            (w, enter_found (some pending) r blank)).1.1
  after_found-IsOrdered (err x) w = record { messages_claimed = tt; marks_confirmed = tt }
  after_found-IsOrdered (ok rows) w = after_read-IsOrdered rows (read_events rows) w refl

  publish_batch-IsOrdered : (w : W) → IsOrdered (ledger_after env publish_batch w blank)
  unfolding publish_batch find_pending
  publish_batch-IsOrdered w =
      let pending_rows =
        find_events (record { id = none; status = some pending; started_lt = none }) in
      let (r, v) = env (statement (pending_rows batch_size)) w in after_found-IsOrdered r v

  leave-IsOrdered :
      (x : Result (Unit {0}) × (W × Ledger))
      → IsOrdered x.1.1
      → IsOrdered (finally_run (kept env) leave x).1.1
  unfolding leave
  leave-IsOrdered (ok u, (w, l)) h = h
  leave-IsOrdered (err e, (w, l)) h = h

  cycle-IsOrdered : (w : W) → IsOrdered (ledger_after env (finally publish_batch leave) w blank)
  cycle-IsOrdered w =
      rw (ledger_after, run-finally (kept env) publish_batch leave (w, blank))
        (leave-IsOrdered (run (kept env) publish_batch (w, blank)) (publish_batch-IsOrdered w))

  entered-IsOrdered :
      (active : ℕ) (skips : Bool) (w : W)
      → IsOrdered (
          ledger_after env
            (if skips then measure (inc "outbox_publisher_skipped_total" "") else do
              call (local (store_active (active + 1))) pure
              measure (inc "outbox_publisher_active_executions" "")
              finally publish_batch leave)
            w
            blank)
  entered-IsOrdered active true w = record { messages_claimed = tt; marks_confirmed = tt }
  entered-IsOrdered active false w =
      let v = (env (local (store_active (active + 1))) w).1 in
      cycle-IsOrdered (env (local (metric (inc "outbox_publisher_active_executions" ""))) v).1

-- Whatever the database and the broker answer in a cycle of `publishPending`: every message that it
-- sends goes to the order notification queue and is the notification of an event that was found
-- PENDING, is of the type ORDER_NOTIFICATION and was claimed by this cycle before; and every event
-- that it asks to mark as SENT was so found, and its notification was confirmed by the broker before.
pub publish_pending-IsOrdered :
    {W : Type 0} (env : (c : Call) → W → Reply c × W) (w : W)
    → IsOrdered (run (kept env) publish_pending (w, blank)).1.1
unfolding publish_pending
publish_pending-IsOrdered env w =
    let (active, v) = env (local load_active) w in entered-IsOrdered env active (ltb 0 active) v
