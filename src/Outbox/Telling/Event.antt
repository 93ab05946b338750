-- ===== src/Outbox/Telling/Event.antt =====
-- That the work on the events of a cycle marks each only after the confirm of what its row tells.
use flash_sale_lab.Base.{
  ℕ, ◌≡◌, refl, sym, ◌∙◌, subst, Bool, true, false, not, ◌==◌, str_eq, none, some, List, [], ◌∷◌,
  ◌++◌, All, Any, arith, if◌then◌else◌, inl, inr,
}
use flash_sale_lab.Io.{error, Result, ok, err, pure, throw, call, ◌>>=◌, ◌>>◌, settle}
use flash_sale_lab.Platform.{
  Prog, local, statement, direct, send_to_queue, wait_for_confirms, start_span,
}
use flash_sale_lab.Platform.Broker.{Content, order_notification, no_headers}
use flash_sale_lab.Platform.Database.{
  OutboxEvent, OutboxWhere, OutboxChange, pending, processing, update_events,
}
use flash_sale_lab.Outbox.Repository.{PendingOutboxEvent, claim, mark_as_sent}
use flash_sale_lab.Outbox.Publisher.{
  publish_order_notification, send_event, publish_event, publish_events,
}
use flash_sale_lab.Outbox.Ledger.{Ledger, Message, enter}
use flash_sale_lab.Outbox.Sending.{notification_of}
use flash_sale_lab.Outbox.Told.{told}
use flash_sale_lab.Outbox.Telling.{
  unmarking, other, unmarked, marks, Tells, returns, rejects, asks, Tells->>=, Tells-finally,
}

-- The rows that the cycle has found are still entered.
abbrev pub Found : List OutboxEvent → Ledger → Type 0
Found rows l = l.found ≡ rows

-- The event that was read is one of the rows.
abbrev pub IsRow : PendingOutboxEvent → OutboxEvent → Type 0
IsRow e x = (x.id ≡ e.id) × (told x.payload ≡ some (notification_of e))

row-IsConfirmed :
    (e : PendingOutboxEvent) (rows : List OutboxEvent) (cs : List Content)
    → Any (IsRow e) rows
    → Any (λ x. (x.id ≡ e.id) × Any (λ c. told x.payload ≡ some c) (notification_of e ∷ cs)) rows
row-IsConfirmed e [] cs h = h
row-IsConfirmed e (x ∷ rows) cs (inl (i, t)) = inl (i, inl t)
row-IsConfirmed e (x ∷ rows) cs (inr h) = inr (row-IsConfirmed e rows cs h)

module _ (rows : List OutboxEvent) (e : PendingOutboxEvent) (here : Any (IsRow e) rows) where
  -- Publishing and marking, from the reply to a call on.
  marked-Tells :
      (r : Result OutboxEvent) (l : Ledger)
      → Found rows l
      → Tells (Found rows) l (direct (settle r >>= λ x. pure (tt {0})))
  marked-Tells (ok x) l f = returns f
  marked-Tells (err x) l f = rejects

  confirmed-Tells :
      (r : Result (Unit {0})) (l : Ledger)
      → Found rows l
      → Tells
          (Found rows)
          (enter wait_for_confirms r (record l { waiting = notification_of e ∷ l.waiting }))
          (do settle r; direct (mark_as_sent e.id))
  unfolding mark_as_sent
  confirmed-Tells (err x) l f = rejects
  confirmed-Tells (ok u) l f = asks (unmarked (other refl)) λ t.
      asks
        (marks (
          subst
            (λ xs.
              Any
                (λ x.
                  (x.id ≡ e.id)
                  × Any (λ c. told x.payload ≡ some c)
                      (notification_of e ∷ (l.waiting ++ l.confirmed)))
                xs)
            (sym f) (row-IsConfirmed e rows (l.waiting ++ l.confirmed) here)))
        λ r. marked-Tells r _ f

  sent-Tells :
      (r : Result Bool) (l : Ledger)
      → Found rows l
      → Tells
          (Found rows)
          (enter (send_to_queue order_notification (notification_of e) no_headers) r l)
          ((settle r >>= λ b. call wait_for_confirms settle) >>= λ u. direct (mark_as_sent e.id))
  sent-Tells (err x) l f = rejects
  sent-Tells (ok b) l f =
      let m : Message = record {
        queue = order_notification;
        content = notification_of e;
        claims_before = l.claims;
      } in
      asks (unmarked (other refl)) λ r. confirmed-Tells r (record l { messages = m ∷ l.messages }) f

  checked-Tells :
      (channel : Bool) (l : Ledger)
      → Found rows l
      → Tells (Found rows) l (do
        if not channel then throw (error "RabbitMQ channel is not available") else do
          call (send_to_queue order_notification (notification_of e) no_headers) settle
          call wait_for_confirms settle
        direct (mark_as_sent e.id))
  checked-Tells false l f = rejects
  checked-Tells true l f = asks (unmarked (other refl)) λ r. sent-Tells r l f

  send_event-Tells : (l : Ledger) → Found rows l → Tells (Found rows) l (send_event e)
  unfolding send_event publish_order_notification
  send_event-Tells l f =
      Tells-finally _ _ l (asks (unmarked (other refl)) λ b. checked-Tells b l f)
        (λ u a g. asks (unmarked (other refl)) λ r. returns g)
        (λ u x. asks (unmarked (other refl)) λ r. rejects)

  -- What follows the claim.
  abbrev claimed_or_not : Bool → Bool → Prog (Unit {0})
  claimed_or_not claimed is_notification =
      if not claimed
      then pure tt
      else (if not is_notification
          then pure tt
          else do call (local (start_span "outbox.publish" e.trace_context)) pure; send_event e)

  claimed_or_not-Tells :
      (a b : Bool) (l : Ledger) → Found rows l → Tells (Found rows) l (claimed_or_not a b)
  claimed_or_not-Tells false b l f = returns f
  claimed_or_not-Tells true false l f = returns f
  claimed_or_not-Tells true true l f = asks (unmarked (other refl)) λ r. send_event-Tells l f

  counted-Tells :
      (r : Result ℕ) (l : Ledger)
      → Found rows l
      → Tells (Found rows) l (do
        claimed ← direct (settle r >>= λ count. pure (count == 1))
        claimed_or_not claimed (str_eq e.kind "ORDER_NOTIFICATION"))
  counted-Tells (err x) l f = rejects
  counted-Tells (ok n) l f = claimed_or_not-Tells (n == 1) (str_eq e.kind "ORDER_NOTIFICATION") l f

  claim_found :
      (c : OutboxWhere) (d : OutboxChange) (r : Result ℕ) (l : Ledger)
      → (enter (statement (update_events c d)) r l).found ≡ l.found
  claim_found c d r l = ground arith

  publish_event-Tells : (l : Ledger) → Found rows l → Tells (Found rows) l (publish_event e)
  unfolding publish_event claim
  publish_event-Tells l f = asks (unmarked (other refl)) λ t.
      let c : OutboxWhere = record { id = some e.id; status = some pending; started_lt = none } in
      let d : OutboxChange = record {
        status = processing;
        processing_started_at = some t;
        sent_at = none;
      } in
      asks (unmarked (unmarking refl)) λ r. counted-Tells r _ (claim_found c d r l ∙ f)

pub publish_events-Tells :
    (rows : List OutboxEvent) (es : List PendingOutboxEvent) (l : Ledger)
    → All (λ e. Any (IsRow e) rows) es
    → Found rows l
    → Tells (Found rows) l (publish_events es)
unfolding publish_events
publish_events-Tells rows [] l h f = returns f
publish_events-Tells rows (e ∷ es) l (here, h) f =
    Tells->>= (publish_event e) (λ u. publish_events es) l (publish_event-Tells rows e here l f)
      (λ u a g. publish_events-Tells rows es u h g)
