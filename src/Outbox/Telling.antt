-- ===== src/Outbox/Telling.antt =====
-- That code marks an event as SENT only after the confirm of what its row tells, as a property of the
-- program at each of its calls.
pub mod Event
pub mod Cycle
use flash_sale_lab.Base.{
  ℕ, ◌+◌, ◌≡◌, refl, sym, ◌∙◌, ap, subst, String, Bool, Bool-cases, true, false, not, ◌&&◌, ◌||◌,
  ◌==◌, str_eq, Option, none, some, List, [], ◌∷◌, ◌++◌, length, ltb, All, All-map, Any, arith,
  if◌then◌else◌, ◌⊎◌, inl, inr,
}
use flash_sale_lab.Io.{
  Error, error, Result, ok, err, pure, throw, call, ◌>>=◌, ◌>>◌, finally, settle,
}
use flash_sale_lab.Io.Tasks.{Calls, ends, throws, calls, calls_rules}
use flash_sale_lab.Platform.{
  Call, Reply, Prog, local, store_active, load_active, statement, transaction, direct, metric, inc,
  observe_count, measure, send_to_queue, wait_for_confirms, load_channel, start_span,
}
use flash_sale_lab.Platform.Broker.{Content, order_notification, no_headers}
use flash_sale_lab.Platform.Database.{
  CreateOrderInput, OutboxEvent, OutboxWhere, OutboxChange, OutboxStatus, Statement, sent, pending,
  processing, find_inventory, update_inventories, create_order, find_order, create_event,
  find_events, update_events, update_event, count_events, find_product, update_price,
}
use flash_sale_lab.Platform.Laws.Bodies.{ok-injective}
use flash_sale_lab.Platform.Laws.{is_database, status_eq}
use flash_sale_lab.Order.Service.{place_order}
use flash_sale_lab.Outbox.Repository.{
  PendingOutboxEvent, read_event, read_events, cons_ok, find_pending, claim, mark_as_sent,
}
use flash_sale_lab.Outbox.Publisher.{
  publish_order_notification, send_event, publish_event, publish_events, publish_batch, leave,
  publish_pending,
}
use flash_sale_lab.Outbox.Ledger.{Ledger, Message, enter, enter_found}
use flash_sale_lab.Outbox.Sending.{notification_of}
use flash_sale_lab.Outbox.Told.{told}

-- A condition on the status that no SENT event passes.
abbrev pub spares_sent : Option OutboxStatus → Bool
spares_sent (some pending) = true
spares_sent (some processing) = true
spares_sent _ = false

-- A statement that may stand outside a transaction and does not mark an event as SENT.
abbrev pub is_unmarking : Statement → Bool
is_unmarking (update_inventories c d) = false
is_unmarking (create_order i) = false
is_unmarking (create_event k p) = false
is_unmarking (update_event n d) = false
is_unmarking (update_events c d) = spares_sent c.status && not (status_eq d.status sent)
is_unmarking _ = true

-- The calls of the other code.
pub data Unmarking : Call → Type 0 where
  unmarking : {s : Statement} → is_unmarking s ≡ true → Unmarking (statement s)
  placing :
      (input : CreateOrderInput) (request_id : String)
      → Unmarking (transaction (place_order input request_id))
  other : {c : Call} → is_database c ≡ false → Unmarking c

-- The notification of the row that was found with this id has been confirmed.
abbrev pub IsConfirmed : ℕ → Ledger → Type 0
IsConfirmed n l = Any (λ x. (x.id ≡ n) × Any (λ c. told x.payload ≡ some c) l.confirmed) l.found

-- A call that the program may make when its own ledger is this one.
pub data Fine (l : Ledger) : Call → Type 0 where
  unmarked : {c : Call} → Unmarking c → Fine l c
  marks : {n : ℕ} {d : OutboxChange} → IsConfirmed n l → Fine l (statement (update_event n d))

-- Every call of the program is, with the ledger of the calls before it; and where it ends with a value,
-- the ledger has the predicate.
pub data Tells {A : Type 0} (Q : Ledger → Type 0) : Ledger → Prog A → Type 0 where
  returns : {l : Ledger} {a : A} → Q l → Tells Q l (pure a)
  rejects : {l : Ledger} {e : Error} → Tells Q l (throw e)
  asks :
      {l : Ledger} {c : Call} {k : Reply c → Prog A}
      → Fine l c
      → ((r : Reply c) → Tells Q (enter c r l) (k r))
      → Tells Q l (call c k)

abbrev pub Anything : Ledger → Type 0
Anything l = Unit

module _ {A B : Type 0} {Q R : Ledger → Type 0} where
  pub Tells->>= :
      (m : Prog A) (f : A → Prog B) (l : Ledger)
      → Tells Q l m
      → ((u : Ledger) (a : A) → Q u → Tells R u (f a))
      → Tells R l (m >>= f)
  Tells->>= (pure a) f l (returns q) h = h l a q
  Tells->>= (throw e) f l rejects h = rejects
  Tells->>= (call c k) f l (asks g gs) h = asks g (λ r. Tells->>= (k r) f (enter c r l) (gs r) h)

-- Other code, from any ledger.
pub Unmarking-Tells :
    {A : Type 0} (m : Prog A) (l : Ledger) → Calls Unmarking m → Tells Anything l m
Unmarking-Tells (pure a) l h = returns tt
Unmarking-Tells (throw e) l h = rejects
Unmarking-Tells (call c k) l (calls h hk) =
    asks (unmarked h) (λ r. Unmarking-Tells (k r) (enter c r l) (hk r))

module _ {A : Type 0} {Q R : Ledger → Type 0} where
  pub Tells-finally :
      (m : Prog A) (last : Prog (Unit {0})) (l : Ledger)
      → Tells Q l m
      → ((u : Ledger) (a : A) → Q u → Tells R u (last >>= λ _. pure a))
      → ((u : Ledger) (e : Error) → Tells {A = A} R u (last >>= λ _. throw e))
      → Tells R l (finally m last)
  Tells-finally (pure a) last l (returns q) h g = h l a q
  Tells-finally (throw e) last l rejects h g = g l e
  Tells-finally (call c k) last l (asks f fs) h g =
      asks f (λ r. Tells-finally (k r) last (enter c r l) (fs r) h g)
