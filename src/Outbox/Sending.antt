-- ===== src/Outbox/Sending.antt =====
-- What the loop over the events adds to the ledger, whatever the database and the broker answer.
use flash_sale_lab.Base.{
  ◌≡◌, refl, subst, sym, ◌⊎◌, inl, inr, List, [], ◌∷◌, ◌++◌, All, Any, arith, eq_iff, ◌∙◌,
}
use flash_sale_lab.Io.{Result, ok, err}
use flash_sale_lab.Io.Run.{run, then_run, run->>=}
use flash_sale_lab.Platform.{Call, Reply, Prog}
use flash_sale_lab.Platform.Broker.{order_notification, Content, notification}
use flash_sale_lab.Outbox.Repository.{PendingOutboxEvent, read_event}
use flash_sale_lab.Platform.Database.{OutboxEvent}
use flash_sale_lab.Outbox.Ledger.{Message, Mark, Ledger, kept}
use flash_sale_lab.Outbox.Publisher.{publish_event, publish_events, send_event}

abbrev pub notification_of : PendingOutboxEvent → Content
notification_of e = notification e.order_id e.request_id

-- A message is the notification of an event that this cycle had claimed.
abbrev pub Announces : Message → PendingOutboxEvent → Type 0
Announces m e =
    (m.queue ≡ order_notification)
    × (m.content ≡ notification_of e)
    × (e.kind ≡ "ORDER_NOTIFICATION")
    × Any (λ n. n ≡ e.id) m.claims_before

-- A mark follows the confirm of the event's notification.
abbrev pub Follows : Mark → PendingOutboxEvent → Type 0
Follows m e = (m.id ≡ e.id) × Any (λ c. c ≡ notification_of e) m.confirmed_before

-- A row that was read as an event with a predicate.
abbrev pub Reads : (PendingOutboxEvent → Type 0) → OutboxEvent → Type 0
Reads P row = (e : PendingOutboxEvent) × (read_event row ≡ ok e) × P e

-- The message and the mark that one event may add to the ledger.
abbrev message_of : PendingOutboxEvent → Ledger → Message
message_of e l = record {
  queue = order_notification;
  content = notification_of e;
  claims_before = e.id ∷ l.claims;
}

abbrev mark_of : PendingOutboxEvent → Ledger → Mark
mark_of e l = record {
  id = e.id;
  confirmed_before = notification_of e ∷ (l.waiting ++ l.confirmed);
}

abbrev AddsMessage : PendingOutboxEvent → Ledger → Ledger → Type 0
AddsMessage e l u =
    (u.messages ≡ l.messages)
    ⊎ ((e.kind ≡ "ORDER_NOTIFICATION") × (u.messages ≡ message_of e l ∷ l.messages))

abbrev AddsMark : PendingOutboxEvent → Ledger → Ledger → Type 0
AddsMark e l u = (u.marks ≡ l.marks) ⊎ (u.marks ≡ mark_of e l ∷ l.marks)

module _ {W : Type 0} (env : (c : Call) → W → Reply c × W) where
  abbrev pub ledger_after : Prog (Unit {0}) → W → Ledger → Ledger
  ledger_after p w l = (run (kept env) p (w, l)).1.1

  publish_event_adds :
      (e : PendingOutboxEvent) (w : W) (l : Ledger)
      → AddsMessage e l (ledger_after (publish_event e) w l)
        × AddsMark e l (ledger_after (publish_event e) w l)
  unfolding publish_event send_event
  publish_event_adds e w l = ground (arith, eq_iff e.kind "ORDER_NOTIFICATION")

  publish_event-found :
      (e : PendingOutboxEvent) (w : W) (l : Ledger)
      → (ledger_after (publish_event e) w l).found ≡ l.found
  unfolding publish_event send_event
  publish_event-found e w l = ground arith

  module _ (P : Message → Type 0) (Q : Mark → Type 0) where
    -- All entries so far have the predicates.
    abbrev pub Entries : Ledger → Type 0
    Entries l = All P l.messages × All Q l.marks

    message-Entries :
        (e : PendingOutboxEvent) (l u : Ledger)
        → ((m : Message) → Announces m e → P m)
        → AddsMessage e l u
        → All P l.messages
        → All P u.messages
    message-Entries e l u into (inl same) h = subst (All P) (sym same) h
    message-Entries e l u into (inr (kind, more)) h =
        subst (All P) (sym more) (into (message_of e l) (refl, refl, kind, inl refl), h)

    mark-Entries :
        (e : PendingOutboxEvent) (l u : Ledger)
        → ((m : Mark) → Follows m e → Q m)
        → AddsMark e l u
        → All Q l.marks
        → All Q u.marks
    mark-Entries e l u into (inl same) h = subst (All Q) (sym same) h
    mark-Entries e l u into (inr more) h =
        subst (All Q) (sym more) (into (mark_of e l) (refl, inl refl), h)

    publish_event-Entries :
        (e : PendingOutboxEvent) (w : W) (l : Ledger)
        → ((m : Message) → Announces m e → P m)
        → ((m : Mark) → Follows m e → Q m)
        → Entries l
        → Entries (ledger_after (publish_event e) w l)
    publish_event-Entries e w l into_p into_q h =
        let (message, mark) = publish_event_adds e w l in
        let u = ledger_after (publish_event e) w l in
        (message-Entries e l u into_p message h.0, mark-Entries e l u into_q mark h.1)

    -- What a part of the loop keeps.
    abbrev pub Keeps : Prog (Unit {0}) → Type 0
    Keeps p =
        (w : W) (l : Ledger)
        → Entries l
        → Entries (ledger_after p w l) × ((ledger_after p w l).found ≡ l.found)

    rest-Entries :
        (p : Prog (Unit {0}))
        → Keeps p
        → (x : Result (Unit {0}) × (W × Ledger)) → Entries x.1.1
        → let u = (then_run (kept env) (λ _. p) x).1.1 in Entries u × (u.found ≡ x.1.1.found)
    rest-Entries p keeps (ok u, (w, l)) h = keeps w l h
    rest-Entries p keeps (err e, (w, l)) h = (h, refl)

    pub publish_events-Keeps :
        (es : List PendingOutboxEvent)
        → ((m : Message) → Any (Announces m) es → P m)
        → ((m : Mark) → Any (Follows m) es → Q m)
        → Keeps (publish_events es)
    unfolding publish_events
    publish_events-Keeps [] into_p into_q w l h = (h, refl)
    publish_events-Keeps (e ∷ es) into_p into_q w l h =
        rw (ledger_after, run->>= (kept env) (publish_event e) (λ _. publish_events es) (w, l))
          (let head =
              publish_event-Entries e w l (λ m q. into_p m (inl q)) (λ m q. into_q m (inl q)) h in
            let (tail, same) =
              rest-Entries (publish_events es)
                (publish_events-Keeps es (λ m q. into_p m (inr q)) (λ m q. into_q m (inr q)))
                (run (kept env) (publish_event e) (w, l)) head in
            (tail, same ∙ publish_event-found e w l))
