-- ===== src/System/Delivered/Keeping.antt =====
-- What a call of a task keeps of the outbox table and of what the task's ledger knows of it.
use flash_sale_lab.Base.{
  Option, none, each, ℕ, ◌≡◌, ◌≢◌, refl, sym, ◌∙◌, subst, Bool, Bool-cases, true, ◌==◌, some, List,
  [], ◌∷◌, allb, update_where, All, Any, All-map, arith, inl, inr,
}
use flash_sale_lab.Base.Json.{Json}
use flash_sale_lab.Io.{Error, Result, Result-cases, ok, err}
use flash_sale_lab.Platform.{Call, Reply, statement, transaction}
use flash_sale_lab.Platform.Broker.{Content}
use flash_sale_lab.Platform.Database.{
  OutboxStatus, processing, OutboxEvent, OutboxWhere, OutboxChange, pending, sent, Statement,
  Answer, find_inventory, update_inventories, create_order, find_order, create_event, find_events,
  update_events, update_event, count_events, find_product, update_price,
}
use flash_sale_lab.Platform.Laws.{Tables, change_event, event_matches, Effect, IsDatabase}
use flash_sale_lab.Order.Service.{place_order}
use flash_sale_lab.Order.Service.Atomic.{place_order-Placed}
use flash_sale_lab.Outbox.Ledger.{Ledger, enter, enter_found}
use flash_sale_lab.Outbox.Told.{told, is_known, Unique, allb-Perm, allb-filterb, allb-take}
use flash_sale_lab.Outbox.Known.{
  SentAre, known_own, new_known, changed_known, changed-Unique, changed-SentAre, agreeing, pick,
}
use flash_sale_lab.Outbox.Telling.{
  is_unmarking, unmarking, placing, other, IsConfirmed, Fine, unmarked, marks,
}
use flash_sale_lab.System.Delivered.Entered.{ToldBy, is_search, found_same}

-- What a call keeps of the table: the ids stay unique, what is known stays known, and an event that is
-- SENT has a payload with the predicate.
pub record Kept (P : Json → Type 0) (es fs : List OutboxEvent) : Type 0 where
  pub unique : Unique fs
  pub known : (xs : List OutboxEvent) → allb (is_known es) xs ≡ true → allb (is_known fs) xs ≡ true
  pub sent_are : SentAre P fs

Kept-same : (P : Json → Type 0) (es : List OutboxEvent) → Unique es → SentAre P es → Kept P es es
Kept-same P es u s = record { unique = u; known = λ xs h. h; sent_are = s }

changed-Kept :
    (P : Json → Type 0) (p : OutboxEvent → Bool) (d : OutboxChange) (es : List OutboxEvent)
    → Unique es
    → SentAre P es
    → All (λ e. d.status ≡ sent → p e ≡ true → P e.payload) es
    → Kept P es (update_where p (change_event d) es)
changed-Kept P p d es u s h = record {
  unique = changed-Unique p d es u;
  known = λ xs k. changed_known p d es xs k;
  sent_are = changed-SentAre P p d es s h;
}

new-Kept :
    (P : Json → Type 0) (e : OutboxEvent) (es : List OutboxEvent)
    → All (λ d. d.id ≢ e.id) es
    → e.status ≡ pending
    → Unique es
    → SentAre P es
    → Kept P es (e ∷ es)
new-Kept P e es f q u s = record {
  unique = (f, u);
  known = λ xs h. new_known e es xs f h;
  sent_are = (λ t. cc (q, t), s);
}

unmarking-Kept :
    (P : Json → Type 0) (s : Statement) (t : Tables) (a : Answer s) (u : Tables)
    → is_unmarking s ≡ true
    → Effect s t a u
    → Unique t.events
    → SentAre P t.events
    → Kept P t.events u.events
unmarking-Kept P (find_inventory p) t a u h (_, same) q s =
    subst (λ x. Kept P t.events x.events) (sym same) (Kept-same P t.events q s)
unmarking-Kept P (find_order n) t a u h (_, same) q s =
    subst (λ x. Kept P t.events x.events) (sym same) (Kept-same P t.events q s)
unmarking-Kept P (find_events c n) t a u h (_, same) q s =
    subst (λ x. Kept P t.events x.events) (sym same) (Kept-same P t.events q s)
unmarking-Kept P (count_events c) t a u h (_, same) q s =
    subst (λ x. Kept P t.events x.events) (sym same) (Kept-same P t.events q s)
unmarking-Kept P (find_product n) t a u h (_, same) q s =
    subst (λ x. Kept P t.events x.events) (sym same) (Kept-same P t.events q s)
unmarking-Kept P (update_price n p) t a u h (_, same) q s =
    subst (λ x. Kept P t.events x.events) (sym same) (Kept-same P t.events q s)
unmarking-Kept P (update_inventories c d) t a u h e q s = cc
unmarking-Kept P (create_order i) t a u h e q s = cc
unmarking-Kept P (update_events c d) t a u h (_, same) q s =
    subst (λ x. Kept P t.events x.events) (sym same)
      (changed-Kept P (event_matches c) d t.events q s
        (each (λ e f g. absurd (ground (arith, h, f))) t.events))
unmarking-Kept P (create_event k p) t a u h e q s = cc
unmarking-Kept P (update_event n d) t a u h e q s = cc

Any-told :
    (i j : Json) (cs : List Content)
    → told i ≡ told j
    → Any (λ c. told j ≡ some c) cs
    → Any (λ c. told i ≡ some c) cs
Any-told i j [] e h = h
Any-told i j (c ∷ cs) e (inl h) = inl (e ∙ h)
Any-told i j (c ∷ cs) e (inr h) = inr (Any-told i j cs e h)

-- The mark of an event whose notification is confirmed.
marking-Kept :
    (P : Json → Type 0) (n : ℕ) (d : OutboxChange) (l : Ledger) (es : List OutboxEvent)
    → IsConfirmed n l
    → allb (is_known es) l.found ≡ true
    → ((j : Json) → ToldBy l j → P j)
    → Unique es
    → SentAre P es
    → Kept P es (update_where (λ e. e.id == n) (change_event d) es)
marking-Kept P n d l es c k into q s =
    let (x, (i, confirmed), known) = pick _ (is_known es) l.found c k in
    changed-Kept P (λ e. e.id == n) d es q s
      (All-map
        (λ e same f m. into e.payload (
          Any-told e.payload x.payload l.confirmed
            (same (subst (λ m'. (e.id == m') ≡ true) (sym i) m)) confirmed))
        es (agreeing x es (ground (arith, known))))

rejected_found :
    (s : Option OutboxStatus) (x : Error) (l : Ledger) → (enter_found s (err x) l).found ≡ l.found
rejected_found s x l = ground arith

-- What was found is what is answered, or what it was.
answered_found :
    (s : Option OutboxStatus) (a : List OutboxEvent) (l : Ledger) (p : OutboxEvent → Bool)
    → allb p l.found ≡ true
    → allb p a ≡ true
    → allb p (enter_found s (ok a) l).found ≡ true
answered_found none a l p h g = h
answered_found (some pending) a l p h g = g
answered_found (some processing) a l p h g = h
answered_found (some sent) a l p h g = h

module _ {W : Type 0} (env : (c : Call) → W → Reply c × W) (tables : W → Tables)
    (db : IsDatabase env tables) where
  abbrev pub rows : W → List OutboxEvent
  rows w = (tables w).events

  -- A call of a task with its ledger.
  module _ (P : Json → Type 0) (l : Ledger) (w : W) (into : (j : Json) → ToldBy l j → P j)
      (k : allb (is_known (rows w)) l.found ≡ true) (q : Unique (rows w))
      (s : SentAre P (rows w)) where
    unchanged : (u : W) → tables u ≡ tables w → Kept P (rows w) (rows u)
    unchanged u same = subst (λ t. Kept P (rows w) t.events) (sym same) (Kept-same P (rows w) q s)

    pub call-Kept : (c : Call) → Fine l c → Kept P (rows w) (rows (env c w).1)
    call-Kept (statement (update_event n d)) (marks g) =
        elim (Result-cases (env (statement (update_event n d)) w).0) [
          | inl (a, e) ↦
              subst (λ t. Kept P (rows w) t.events)
                (sym (db.statement_ok (update_event n d) w a e).1)
                (marking-Kept P n d l (rows w) g k into q s)
          | inr (x, e) ↦ unchanged _ (db.statement_err (update_event n d) w x e)
        ]
    call-Kept (statement t) (unmarked (unmarking g)) = elim (Result-cases (env (statement t) w).0) [
      | inl (a, e) ↦ unmarking-Kept P t _ a _ g (db.statement_ok t w a e) q s
      | inr (x, e) ↦ unchanged _ (db.statement_err t w x e)
    ]
    call-Kept (transaction body) (unmarked (placing input r)) =
        elim (Result-cases (env (transaction (place_order input r)) w).0) [
          | inl (o, e) ↦
              let placed =
                place_order-Placed input r _ o _ (db.transaction_ok (place_order input r) w o e) in
              subst (λ t. Kept P (rows w) t.events) (sym placed.written)
                (new-Kept P placed.event (rows w) placed.event_fresh placed.event_status q s)
          | inr (x, e) ↦ unchanged _ (db.transaction_err (place_order input r) w x e)
        ]
    call-Kept c (unmarked (other h)) = unchanged _ (db.others_keep c w h)

    read_known :
        (c : OutboxWhere) (n : ℕ) (r : Result (List OutboxEvent))
        → (env (statement (find_events c n)) w).0 ≡ r
        → Kept P (rows w) (rows (env (statement (find_events c n)) w).1)
        → allb
            (is_known (rows (env (statement (find_events c n)) w).1))
            (enter (statement (find_events c n)) r l).found
          ≡ true
    read_known c n (err x) e v =
        subst (λ xs. allb (is_known (rows (env (statement (find_events c n)) w).1)) xs ≡ true)
          (sym (rejected_found c.status x l)) (v.known l.found k)
    read_known c n (ok a) e v =
        let ((all, perm, sorted, first), same) = db.statement_ok (find_events c n) w a e in
        answered_found c.status a l _ (v.known l.found k) (
          v.known a (
            subst (λ xs. allb (is_known (rows w)) xs ≡ true) (sym first)
              (allb-take (is_known (rows w)) n all (
                allb-Perm (is_known (rows w)) all _ perm (
                  allb-filterb (is_known (rows w)) (event_matches c) (rows w)
                    (known_own (rows w) q))))))

    search_known :
        (c : Call)
        → is_search c ≡ true
        → Kept P (rows w) (rows (env c w).1)
        → allb (is_known (rows (env c w).1)) (enter c (env c w).0 l).found ≡ true
    search_known (statement (find_events c n)) h v = read_known c n _ refl v
    search_known (statement _) h v = cc
    search_known _ h v = cc

    -- The rows that the ledger has afterwards are known.
    pub found_known :
        (c : Call)
        → Kept P (rows w) (rows (env c w).1)
        → allb (is_known (rows (env c w).1)) (enter c (env c w).0 l).found ≡ true
    found_known c v = elim (Bool-cases (is_search c)) [
      | inl h ↦ search_known c h v
      | inr h ↦
          subst (λ xs. allb (is_known (rows (env c w).1)) xs ≡ true)
            (sym (found_same c (env c w).0 l h)) (v.known l.found k)
    ]
