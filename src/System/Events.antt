-- ===== src/System/Events.antt =====
-- What becomes of outbox events however the tasks of all instances interleave.
use flash_sale_lab.Base.{
  ℕ, ◌≡◌, refl, subst, sym, Bool, true, false, List, [], ◌∷◌, update_where, if◌then◌else◌, arith,
  inl, inr,
}
use flash_sale_lab.Io.{Result-cases}
use flash_sale_lab.Io.Tasks.{interleave, interleave_inv}
use flash_sale_lab.Platform.{Call, Reply, statement, transaction}
use flash_sale_lab.Platform.Database.{
  sent, OutboxEvent, OutboxWhere, OutboxChange, Statement, Answer, find_inventory,
  update_inventories, create_order, find_order, create_event, find_events, update_events,
  update_event, count_events, find_product, update_price,
}
use flash_sale_lab.Platform.Laws.{
  Tables, event_matches, change_event, status_eq, Effect, IsDatabase,
}
use flash_sale_lab.Order.Service.{place_order}
use flash_sale_lab.Order.Service.Atomic.{place_order-Placed}
use flash_sale_lab.System.{Task}
use flash_sale_lab.Outbox.Telling.{spares_sent}
use flash_sale_lab.System.Calls.{is_plain, Allowed, plain, placing, other}
use flash_sale_lab.System.Invariants.{programs, programs-Allowed}

-- The same event later: SENT is final, and all but the status and times is fixed.
pub record BecomesEvent (d e : OutboxEvent) : Type 0 where
  pub same_id : e.id ≡ d.id
  pub same_kind : e.kind ≡ d.kind
  pub same_payload : e.payload ≡ d.payload
  pub sent_stays : d.status ≡ sent → e.status ≡ sent

-- The same table later: every event is still there, and there may be more.
pub data Becomes : List OutboxEvent → List OutboxEvent → Type 0 where
  nil : Becomes [] []
  old :
      {d e : OutboxEvent} {ds es : List OutboxEvent}
      → BecomesEvent d e
      → Becomes ds es
      → Becomes (d ∷ ds) (e ∷ es)
  new : {e : OutboxEvent} {ds es : List OutboxEvent} → Becomes ds es → Becomes ds (e ∷ es)

Becomes-same : (es : List OutboxEvent) → Becomes es es
Becomes-same [] = nil
Becomes-same (e ∷ es) =
    old (record { same_id = refl; same_kind = refl; same_payload = refl; sent_stays = λ s. s })
      (Becomes-same es)

-- A change that no SENT event loses its status by.
abbrev Spares : (OutboxEvent → Bool) → OutboxChange → Type 0
Spares p d = (e : OutboxEvent) → p e ≡ true → e.status ≡ sent → d.status ≡ sent

changed_event-Becomes :
    (p : OutboxEvent → Bool) (c : OutboxChange)
    → Spares p c
    → (d e : OutboxEvent) → BecomesEvent d e
    → (b : Bool) → p e ≡ b
    → BecomesEvent d (if b then change_event c e else e)
changed_event-Becomes p c spares d e h true matched = record {
  same_id = h.same_id;
  same_kind = h.same_kind;
  same_payload = h.same_payload;
  sent_stays = λ s. spares e matched (h.sent_stays s);
}
changed_event-Becomes p c spares d e h false matched = h

changed-Becomes :
    (p : OutboxEvent → Bool) (c : OutboxChange)
    → Spares p c
    → (ds es : List OutboxEvent) → Becomes ds es
    → Becomes ds (update_where p (change_event c) es)
changed-Becomes p c spares _ _ nil = nil
changed-Becomes p c spares _ _ (old h hs) =
    old (changed_event-Becomes p c spares _ _ h _ refl) (changed-Becomes p c spares _ _ hs)
changed-Becomes p c spares _ _ (new hs) = new (changed-Becomes p c spares _ _ hs)

matching-Spares :
    (c : OutboxWhere) (d : OutboxChange) → spares_sent c.status ≡ true → Spares (event_matches c) d
matching-Spares c d h e matched s = ground arith

sent-Spares :
    (p : OutboxEvent → Bool) (d : OutboxChange) → status_eq d.status sent ≡ true → Spares p d
sent-Spares p d h e matched s = ground arith

-- A statement that the program sends on its own.
plain-Becomes :
    (start : List OutboxEvent) (s : Statement) (t : Tables) (a : Answer s) (u : Tables)
    → is_plain s ≡ true
    → Effect s t a u
    → Becomes start t.events
    → Becomes start u.events
plain-Becomes start (find_inventory p) t a u e (_, same) v =
    subst (λ x. Becomes start x.events) (sym same) v
plain-Becomes start (find_order n) t a u e (_, same) v =
    subst (λ x. Becomes start x.events) (sym same) v
plain-Becomes start (find_events c n) t a u e (_, same) v =
    subst (λ x. Becomes start x.events) (sym same) v
plain-Becomes start (count_events c) t a u e (_, same) v =
    subst (λ x. Becomes start x.events) (sym same) v
plain-Becomes start (find_product n) t a u e (_, same) v =
    subst (λ x. Becomes start x.events) (sym same) v
plain-Becomes start (update_events c d) t a u e (_, same) v =
    subst (λ x. Becomes start x.events) (sym same)
      (changed-Becomes _ d (matching-Spares c d e) _ _ v)
plain-Becomes start (update_event n d) t a u e (_, same) v =
    subst (λ x. Becomes start x.events) (sym same) (changed-Becomes _ d (sent-Spares _ d e) _ _ v)
plain-Becomes start (update_price n p) t a u e (_, same) v =
    subst (λ x. Becomes start x.events) (sym same) v
plain-Becomes start (update_inventories c d) t a u e f v = cc
plain-Becomes start (create_order i) t a u e f v = cc
plain-Becomes start (create_event k p) t a u e f v = cc

module _ {W : Type 0} (env : (c : Call) → W → Reply c × W) (tables : W → Tables)
    (db : IsDatabase env tables) (start : List OutboxEvent) where
  call-Becomes :
      (c : Call) (w : W)
      → Allowed c
      → Becomes start (tables w).events
      → Becomes start (tables (env c w).1).events
  call-Becomes (statement s) w (plain p) v = elim (Result-cases (env (statement s) w).0) [
    | inl (a, e) ↦ plain-Becomes start s _ a _ p (db.statement_ok s w a e) v
    | inr (x, e) ↦ subst (λ t. Becomes start t.events) (sym (db.statement_err s w x e)) v
  ]
  call-Becomes (transaction body) w (placing input r) v =
      elim (Result-cases (env (transaction (place_order input r)) w).0) [
        | inl (o, e) ↦
            let placed =
              place_order-Placed input r _ o _ (db.transaction_ok (place_order input r) w o e) in
            subst (λ t. Becomes start t.events) (sym placed.written) (new v)
        | inr (x, e) ↦
            subst (λ t. Becomes start t.events)
              (sym (db.transaction_err (place_order input r) w x e)) v
      ]
  call-Becomes c w (other h) v = subst (λ t. Becomes start t.events) (sym (db.others_keep c w h)) v

-- Whatever tasks run, on however many instances, and however their calls interleave and fail: no
-- outbox event is lost, none changes its id, type or payload, and one that is SENT stays SENT.
pub interleave-Becomes :
    {W : Type 0} (env : (c : Call) → W → Reply c × W) (tables : W → Tables)
    (db : IsDatabase env tables) (tasks : List Task) (schedule : List ℕ) (w : W)
    → Becomes (tables w).events (tables (interleave env schedule (programs tasks) w).1).events
interleave-Becomes env tables db tasks schedule w =
    interleave_inv env Allowed (λ u. Becomes (tables w).events (tables u).events)
      (call-Becomes env tables db (tables w).events) schedule (programs tasks) w
      (programs-Allowed tasks) (Becomes-same _)
