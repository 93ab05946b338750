-- ===== src/Outbox/Ledger.antt =====
-- What a publishing cycle has done so far, as the database and the broker see it: the events found
-- PENDING, the claims that succeeded, the messages sent and confirmed, and the events that it asked to mark as SENT. A message
-- is entered with the claims that came before it, a mark with the confirmed messages before it.
use flash_sale_lab.Base.{ℕ, Bool, Option, none, some, List, [], ◌∷◌, ◌++◌, ◌==◌, if◌then◌else◌}
use flash_sale_lab.Io.{Result, ok, err}
use flash_sale_lab.Platform.{Call, Reply, statement, send_to_queue, wait_for_confirms}
use flash_sale_lab.Platform.Broker.{Queue, Content}
use flash_sale_lab.Platform.Database.{
  OutboxStatus, pending, processing, sent, OutboxEvent, OutboxWhere, OutboxChange, find_events,
  update_events, update_event,
}

pub record Message : Type 0 where
  pub queue : Queue
  pub content : Content
  pub claims_before : List ℕ

pub record Mark : Type 0 where
  pub id : ℕ
  pub confirmed_before : List Content

pub record Ledger : Type 0 where
  pub found : List OutboxEvent
  pub claims : List ℕ
  pub messages : List Message
  pub waiting : List Content
  pub confirmed : List Content
  pub marks : List Mark

abbrev pub blank : Ledger
blank = record { found = []; claims = []; messages = []; waiting = []; confirmed = []; marks = [] }

-- Exactly one event went from PENDING to PROCESSING, and it is that of an id.
abbrev claimed_id : Option ℕ → Option OutboxStatus → OutboxStatus → ℕ → Option ℕ
claimed_id (some n) (some pending) processing count = if count == 1 then some n else none
claimed_id _ _ _ count = none

abbrev with_claim : Option ℕ → Ledger → Ledger
with_claim none l = l
with_claim (some n) l = record l { claims = n ∷ l.claims }

abbrev enter_claim : OutboxWhere → OutboxChange → Result ℕ → Ledger → Ledger
enter_claim c d (ok count) l = with_claim (claimed_id c.id c.status d.status count) l
enter_claim c d (err e) l = l

abbrev enter_message : Queue → Content → Result Bool → Ledger → Ledger
enter_message q c (ok b) l = record l {
  messages = record { queue = q; content = c; claims_before = l.claims } ∷ l.messages;
  waiting = c ∷ l.waiting;
}
enter_message q c (err e) l = l

abbrev enter_confirms : Result (Unit {0}) → Ledger → Ledger
enter_confirms (ok u) l = record l { waiting = []; confirmed = l.waiting ++ l.confirmed }
enter_confirms (err e) l = l

-- A mark is entered whether or not its statement succeeds.
abbrev enter_mark : ℕ → OutboxStatus → Ledger → Ledger
enter_mark n sent l = record l {
  marks = record { id = n; confirmed_before = l.confirmed } ∷ l.marks;
}
enter_mark n _ l = l

-- Only what a search for PENDING events answers is entered.
abbrev pub enter_found : Option OutboxStatus → Result (List OutboxEvent) → Ledger → Ledger
enter_found (some pending) (ok es) l = record l { found = es }
enter_found _ r l = l

abbrev pub enter : (c : Call) → Reply c → Ledger → Ledger
enter (statement (find_events c n)) r l = enter_found c.status r l
enter (statement (update_events c d)) r l = enter_claim c d r l
enter (statement (update_event n d)) r l = enter_mark n d.status l
enter (send_to_queue q c h) r l = enter_message q c r l
enter wait_for_confirms r l = enter_confirms r l
enter _ r l = l

-- An environment that keeps the ledger beside its world.
abbrev pub kept :
    {W : Type 0} → ((c : Call) → W → Reply c × W) → (c : Call) → W × Ledger → Reply c × (W × Ledger)
kept env c (w, l) = let (r, w') = env c w in (r, (w', enter c r l))
