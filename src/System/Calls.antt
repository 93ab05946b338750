-- ===== src/System/Calls.antt =====
-- Which calls of the database the program makes.
use flash_sale_lab.Base.{
  inl, inr, subst, sym, arith, String, ◌≡◌, refl, Bool, true, false, List, [], ◌∷◌,
}
use flash_sale_lab.Io.{pure, throw, call}
use flash_sale_lab.Io.Tasks.{Calls-map, Calls, ends, throws, calls, Calls->>=, calls_rules}
use flash_sale_lab.Platform.{
  Call, statement, transaction, direct, Client, ClientCall, query, aside, LocalCall,
}
use flash_sale_lab.Platform.Laws.{is_database, status_eq}
use flash_sale_lab.Platform.Database.{
  CreateOrderInput, Statement, update_inventories, create_order as insert_order, create_event, sent,
  update_events, update_event,
}
use flash_sale_lab.Order.Service.{place_order}
use flash_sale_lab.System.{Task, program}
use flash_sale_lab.Outbox.Publisher
use flash_sale_lab.Outbox.Telling.{spares_sent, is_unmarking, Unmarking}
use flash_sale_lab.System.Unmarking.{leave-Unmarking, program-Unmarking}
use flash_sale_lab.Outbox.Repository.{PendingOutboxEvent}

-- Outside a transaction the program only reads inventories and orders, and only changes the status and
-- times of outbox events; an event that is SENT it changes at most to SENT.
abbrev pub is_plain : Statement → Bool
is_plain (update_inventories c d) = false
is_plain (insert_order i) = false
is_plain (create_event k p) = false
is_plain (update_events c d) = spares_sent c.status
is_plain (update_event n d) = status_eq d.status sent
is_plain _ = true

pub data Allowed : Call → Type 0 where
  plain : {s : Statement} → is_plain s ≡ true → Allowed (statement s)
  placing :
      (input : CreateOrderInput) (request_id : String)
      → Allowed (transaction (place_order input request_id))
  other : {c : Call} → is_database c ≡ false → Allowed c

data ClientAllowed : ClientCall → Type 0 where
  asks : {s : Statement} → is_plain s ≡ true → ClientAllowed (query s)
  asides : {l : LocalCall} → ClientAllowed (aside l)

direct-Allowed :
    {A : Type 0} (body : Client A) → Calls ClientAllowed body → Calls Allowed (direct body)
direct-Allowed (pure a) h = ends
direct-Allowed (throw e) h = throws
direct-Allowed (call (query s) k) (calls (asks p) hk) =
    calls (plain p) (λ r. direct-Allowed (k r) (hk r))
direct-Allowed (call (aside l) k) (calls h hk) =
    calls (other refl) (λ r. direct-Allowed (k r) (hk r))

ruleset allowed_rules = (calls_rules, direct-Allowed, plain, placing, other, asks, asides, refl)

plain_of : (s : Statement) → is_unmarking s ≡ true → is_plain s ≡ true
plain_of (update_events c d) h = ground (arith, h)
plain_of (update_inventories c d) h = cc
plain_of (insert_order i) h = cc
plain_of (create_event k p) h = cc
plain_of (update_event n d) h = cc
plain_of _ h = refl

Unmarking-Allowed : (c : Call) → Unmarking c → Allowed c
Unmarking-Allowed (statement s) (Unmarking.unmarking h) = plain (plain_of s h)
Unmarking-Allowed (transaction body) (Unmarking.placing input r) = placing input r
Unmarking-Allowed c (Unmarking.other h) = other h

send_event-Allowed : (event : PendingOutboxEvent) → Calls Allowed (Publisher.send_event event)
unfolding Publisher.send_event
send_event-Allowed event = search allowed_rules depth 12

publish_event-Allowed : (event : PendingOutboxEvent) → Calls Allowed (Publisher.publish_event event)
unfolding Publisher.publish_event
publish_event-Allowed event = search (allowed_rules, send_event-Allowed) depth 12

publish_events-Allowed :
    (events : List PendingOutboxEvent) → Calls Allowed (Publisher.publish_events events)
unfolding Publisher.publish_events
publish_events-Allowed [] = ends
publish_events-Allowed (event ∷ events) =
    Calls->>= _ _ (publish_event-Allowed event) (λ u. publish_events-Allowed events)

publish_batch-Allowed : Calls Allowed Publisher.publish_batch
unfolding Publisher.publish_batch
publish_batch-Allowed = search (allowed_rules, publish_events-Allowed) depth 12

leave-Allowed : Calls Allowed Publisher.leave
leave-Allowed = Calls-map Unmarking-Allowed Publisher.leave leave-Unmarking

publish_pending-Allowed : Calls Allowed Publisher.publish_pending
unfolding Publisher.publish_pending
publish_pending-Allowed = search (allowed_rules, publish_batch-Allowed, leave-Allowed) depth 12

-- Every task makes none but the allowed calls.
pub program-Allowed : (task : Task) → Calls Allowed (program task)
unfolding program
program-Allowed task = elim (program-Unmarking task) [
  | inl e ↦ subst (λ t. Calls Allowed (program t)) (sym e) publish_pending-Allowed
  | inr h ↦ Calls-map Unmarking-Allowed (program task) h
]
