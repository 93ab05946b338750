-- ===== src/Tests/Memory.antt =====
-- An environment in which every service is up: a database in memory that has the effects that
-- Platform/Laws asks for, an empty cache, and a broker that takes everything. A search that finds
-- more than one outbox event is rejected, which the laws allow.
use mathlib.Core.List.{Pairwise, Perm, Pairwise-singleton}
use mathlib.Core.List.Perm
use flash_sale_lab.Base.{
  ℕ, zero, suc, ◌+◌, ◌≤◌, ◌<◌, ◌≡◌, ◌≢◌, refl, sym, subst, inl, inr, true, false, Option, none,
  some, List, [], ◌∷◌, arith, ◌==◌, find?, filterb, countb, update_where, take, All, Any,
}
use flash_sale_lab.Base.Json.{end}
use flash_sale_lab.Io.{Error, error, Result, Result-cases, ok, err, pure, throw, call}
use flash_sale_lab.Io.Run.{run}
use flash_sale_lab.Platform.{
  Call, Reply, statement, transaction, local, redis_get, redis_set, redis_set_nx, redis_del,
  redis_ping, redis_is_open, redis_connect, redis_quit, send_to_queue, wait_for_confirms, ack, nack,
  notify, LocalCall, LocalReply, log_event, metric, inject_trace, start_span, end_span, load_active,
  store_active, load_channel, load_connection, now, random_uuid, active_span, set_header,
  load_status, observe_request, log_request, query_one, Client, ClientCall, ClientReply, query,
  aside,
}
use flash_sale_lab.Platform.Cache.{plain}
use flash_sale_lab.Outbox.Active.{is_store, stores}
use flash_sale_lab.Base.Int.{ℤ}
use flash_sale_lab.Platform.Database.{
  Product, Order, OutboxEvent, OutboxChange, pending, Statement, Answer, find_inventory,
  update_inventories, create_order, find_order, create_event, find_events, update_events,
  update_event, count_events, find_product, update_price,
}
use flash_sale_lab.Platform.Laws.Bodies.{ok-injective}
use flash_sale_lab.Platform.Laws.{
  Tables, has_stock, lower_stock, event_matches, change_event, Effect, Runs, is_database,
  IsDatabase,
}

-- One more than every id.
abbrev next_order_id : List Order → ℕ
next_order_id [] = 1
next_order_id (o ∷ os) = o.id + next_order_id os

abbrev next_event_id : List OutboxEvent → ℕ
next_event_id [] = 1
next_event_id (e ∷ es) = e.id + next_event_id es

next_order_id-pos : (os : List Order) → 0 < next_order_id os
next_order_id-pos [] = omega arith
next_order_id-pos (o ∷ os) = omega (arith, next_order_id-pos os)

order_ids : (n : ℕ) (os : List Order) → next_order_id os ≤ n → All (λ o. o.id ≢ n) os
order_ids n [] h = tt
order_ids n (o ∷ os) h = (omega (arith, next_order_id-pos os), order_ids n os (omega arith))

next_event_id-pos : (es : List OutboxEvent) → 0 < next_event_id es
next_event_id-pos [] = omega arith
next_event_id-pos (e ∷ es) = omega (arith, next_event_id-pos es)

event_ids : (n : ℕ) (es : List OutboxEvent) → next_event_id es ≤ n → All (λ e. e.id ≢ n) es
event_ids n [] h = tt
event_ids n (e ∷ es) h = (omega (arith, next_event_id-pos es), event_ids n es (omega arith))

abbrev rejected : Error
rejected = error "rejected"

-- At most one event.
abbrev few : List OutboxEvent → ℕ → Result (List OutboxEvent)
few [] n = ok []
few (e ∷ []) n = ok (take n (e ∷ []))
few (e ∷ d ∷ es) n = err rejected

-- The change of the event of an id, if there is one.
abbrev change_found : ℕ → OutboxChange → Tables → Option OutboxEvent → Result OutboxEvent × Tables
change_found n d t none = (err rejected, t)
change_found n d t (some e) = (
  ok (change_event d e),
  record t { events = update_where (λ q. q.id == n) (change_event d) t.events },
)

-- The same of a price.
abbrev price_found : ℕ → ℤ → Tables → Option Product → Result Product × Tables
price_found n p t none = (err rejected, t)
price_found n p t (some q) = (
  ok (record q { price = p }),
  record t { products = update_where (λ r. r.id == n) (λ r. record r { price = p }) t.products },
)

abbrev answer : (s : Statement) → Tables → Result (Answer s) × Tables
answer (find_inventory p) t = (ok (find? (λ i. i.product_id == p) t.inventories), t)
answer (update_inventories c d) t = (
  ok (countb (has_stock c) t.inventories),
  record t { inventories = update_where (has_stock c) (lower_stock d) t.inventories },
)
answer (create_order i) t =
    let o : Order = record {
      id = next_order_id t.orders;
      user_id = i.user_id;
      product_id = i.product_id;
      quantity = i.quantity;
    } in
    (ok o, record t { orders = o ∷ t.orders })
answer (find_order n) t = (ok (find? (λ o. o.id == n) t.orders), t)
answer (create_event k p) t =
    let e : OutboxEvent = record {
      id = next_event_id t.events;
      kind = k;
      payload = p;
      status = pending;
      processing_started_at = none;
      sent_at = none;
    } in
    (ok e, record t { events = e ∷ t.events })
answer (find_events c n) t = (few (filterb (event_matches c) t.events) n, t)
answer (update_events c d) t = (
  ok (countb (event_matches c) t.events),
  record t { events = update_where (event_matches c) (change_event d) t.events },
)
answer (update_event n d) t = change_found n d t (find? (λ e. e.id == n) t.events)
answer (count_events c) t = (ok (countb (event_matches c) t.events), t)
answer (find_product n) t = (ok (find? (λ p. p.id == n) t.products), t)
answer (update_price n p) t = price_found n p t (find? (λ q. q.id == n) t.products)

take-nil : (n : ℕ) → take {A = OutboxEvent} n [] ≡ []
take-nil zero = refl
take-nil (suc n) = refl

few-Effect :
    (es all : List OutboxEvent) (n : ℕ)
    → few es n ≡ ok all
    → (xs : List OutboxEvent) × Perm xs es × Pairwise (λ d e. d.id ≤ e.id) xs × (all ≡ take n xs)
few-Effect [] all n h = ([], Perm.refl [], Pairwise.nil, cc (ok-injective h, take-nil n))
few-Effect (e ∷ []) all n h =
    (e ∷ [], Perm.refl (e ∷ []), Pairwise-singleton _ e, sym (ok-injective h))
few-Effect (e ∷ d ∷ es) all n h = cc

find-Any :
    (n : ℕ) (es : List OutboxEvent) (e : OutboxEvent)
    → find? (λ d. d.id == n) es ≡ some e
    → Any (λ d. d.id ≡ n) es
find-Any n [] e h = cc
find-Any n (d ∷ es) e h = ground (arith, find-Any n es e)

change_found-Effect :
    (n : ℕ) (d : OutboxChange) (t : Tables) (o : Option OutboxEvent) (a : OutboxEvent)
    → find? (λ e. e.id == n) t.events ≡ o
    → (change_found n d t o).0 ≡ ok a
    → Effect (update_event n d) t a (change_found n d t o).1
change_found-Effect n d t none a f h = cc
change_found-Effect n d t (some e) a f h = (find-Any n t.events e f, refl)

change_found_err :
    (n : ℕ) (d : OutboxChange) (t : Tables) (o : Option OutboxEvent) (e : Error)
    → (change_found n d t o).0 ≡ err e
    → (change_found n d t o).1 ≡ t
change_found_err n d t none e h = refl
change_found_err n d t (some x) e h = cc

found_priced :
    (n : ℕ) (p : ℤ) (products : List Product) (q : Product)
    → find? (λ r. r.id == n) products ≡ some q
    → Any (λ r. (r.id ≡ n) × (record q { price = p } ≡ record r { price = p })) products
found_priced n p [] q h = cc
found_priced n p (r ∷ products) q h = ground (arith, found_priced n p products q)

price_found-Effect :
    (n : ℕ) (p : ℤ) (t : Tables) (o : Option Product) (a : Product)
    → find? (λ q. q.id == n) t.products ≡ o
    → (price_found n p t o).0 ≡ ok a
    → Effect (update_price n p) t a (price_found n p t o).1
price_found-Effect n p t none a f h = cc
price_found-Effect n p t (some q) a f h = (
  subst (λ b. Any (λ r. (r.id ≡ n) × (b ≡ record r { price = p })) t.products) (ok-injective h)
      (found_priced n p t.products q f),
  refl,
)

price_found_err :
    (n : ℕ) (p : ℤ) (t : Tables) (o : Option Product) (e : Error)
    → (price_found n p t o).0 ≡ err e
    → (price_found n p t o).1 ≡ t
price_found_err n p t none e h = refl
price_found_err n p t (some q) e h = cc

answer-Effect :
    (s : Statement) (t : Tables) (a : Answer s)
    → (answer s t).0 ≡ ok a
    → Effect s t a (answer s t).1
answer-Effect (find_inventory p) t a h = (cc, refl)
answer-Effect (update_inventories c d) t a h = (cc, refl)
answer-Effect (create_order i) t a h =
    subst (λ b. Effect (create_order i) t b (answer (create_order i) t).1) (ok-injective h)
      (refl, refl, refl, order_ids (next_order_id t.orders) t.orders (omega arith), refl)
answer-Effect (find_order n) t a h = (cc, refl)
answer-Effect (create_event k p) t a h =
    subst (λ b. Effect (create_event k p) t b (answer (create_event k p) t).1) (ok-injective h)
      (refl, event_ids (next_event_id t.events) t.events (omega arith), refl)
answer-Effect (find_events c n) t a h = (few-Effect _ a n h, refl)
answer-Effect (update_events c d) t a h = (cc, refl)
answer-Effect (update_event n d) t a h =
    change_found-Effect n d t (find? (λ e. e.id == n) t.events) a refl h
answer-Effect (count_events c) t a h = (cc, refl)
answer-Effect (find_product n) t a h = (cc, refl)
answer-Effect (update_price n p) t a h =
    price_found-Effect n p t (find? (λ q. q.id == n) t.products) a refl h

-- A World is the tables and the field `activeExecutions`.
pub record World : Type 0 where
  pub tables : Tables
  pub active : ℕ

abbrev at_hand : LocalCall → World → World
at_hand (store_active n) w = record w { active = n }
at_hand _ w = w

abbrev aside_reply : (l : LocalCall) → World → LocalReply l
aside_reply (log_event l e) w = tt
aside_reply (metric m) w = tt
aside_reply inject_trace w = end
aside_reply (start_span n tc) w = tt
aside_reply end_span w = tt
aside_reply load_active w = w.active
aside_reply (store_active n) w = tt
aside_reply load_channel w = true
aside_reply load_connection w = true
aside_reply now w = 100000
aside_reply random_uuid w = "6f1c"
aside_reply active_span w = none
aside_reply (set_header n v) w = tt
aside_reply load_status w = 200
aside_reply (observe_request m r s l) w = tt
aside_reply (log_request l e c) w = tt

abbrev client_env : (c : ClientCall) → World → ClientReply c × World
client_env (query s) w = let (r, t) = answer s w.tables in (r, record w { tables = t })
client_env (aside l) w = (aside_reply l w, at_hand l w)

-- A rejected body is rolled back. The field is the process's own, and no body uses it.
abbrev committed : World → Result Order × World → Result Order × World
committed w (ok o, u) = (ok o, record u { active = w.active })
committed w (err e, u) = (err e, w)

abbrev pub memory_env : (c : Call) → World → Reply c × World
memory_env (statement s) w = let (r, t) = answer s w.tables in (r, record w { tables = t })
memory_env (transaction body) w = committed w (run client_env body w)
memory_env (local l) w = (aside_reply l w, at_hand l w)
memory_env query_one w = (ok tt, w)
memory_env (redis_get k) w = (ok none, w)
memory_env (redis_set k v ttl) w = (ok (some (plain "OK")), w)
memory_env (redis_set_nx k v ttl) w = (ok (some (plain "OK")), w)
memory_env (redis_del k) w = (ok 1, w)
memory_env redis_ping w = (ok (plain "PONG"), w)
memory_env redis_is_open w = (true, w)
memory_env redis_connect w = (ok tt, w)
memory_env redis_quit w = (ok tt, w)
memory_env (send_to_queue q c h) w = (ok true, w)
memory_env wait_for_confirms w = (ok tt, w)
memory_env (ack d) w = (ok tt, w)
memory_env (nack d) w = (ok tt, w)
memory_env (notify ms) w = (ok tt, w)

at_hand-tables : (l : LocalCall) (w : World) → (at_hand l w).tables ≡ w.tables
at_hand-tables (store_active n) w = refl
at_hand-tables _ w = refl

answer_err : (s : Statement) (t : Tables) (e : Error) → (answer s t).0 ≡ err e → (answer s t).1 ≡ t
answer_err (find_events c n) t e h = refl
answer_err (update_event n d) t e h = change_found_err n d t _ e h
answer_err (update_price n p) t e h = price_found_err n p t _ e h
answer_err (find_inventory p) t e h = refl
answer_err (find_order p) t e h = refl
answer_err (count_events p) t e h = refl
answer_err (find_product p) t e h = refl
answer_err _ t e h = cc

-- What a body does in memory is one of its runs.
client_env-Runs {ℓ} :
    {A : Type ℓ} (body : Client A) (w : World)
    → Runs body w.tables (run client_env body w).0 (run client_env body w).1.tables
client_env-Runs (pure a) w = (refl, refl)
client_env-Runs (throw e) w = (refl, refl)
client_env-Runs (call (query s) k) w =
    let t = (answer s w.tables).1 in
    let v = run client_env (k (answer s w.tables).0) (record w { tables = t }) in
    let ih = client_env-Runs (k (answer s w.tables).0) (record w { tables = t }) in
    elim (Result-cases (answer s w.tables).0) [
      | inl (a, e) ↦
          inl (a, t, answer-Effect s w.tables a e, subst (λ r. Runs (k r) t v.0 v.1.tables) e ih)
      | inr (x, e) ↦ inr (
        x,
        subst (λ r. Runs (k r) w.tables v.0 v.1.tables) e
            (subst (λ t'. Runs (k (answer s w.tables).0) t' v.0 v.1.tables)
              (answer_err s w.tables x e) ih),
      )
    ]
client_env-Runs (call (aside l) k) w =
    let v = run client_env (k (aside_reply l w)) (at_hand l w) in
    (
      aside_reply l w,
      subst (λ t. Runs (k (aside_reply l w)) t v.0 v.1.tables) (at_hand-tables l w)
          (client_env-Runs (k (aside_reply l w)) (at_hand l w)),
    )

committed-Runs :
    (body : Client Order) (w : World) (x : Result Order × World) (o : Order)
    → Runs body w.tables x.0 x.1.tables
    → (committed w x).0 ≡ ok o
    → Runs body w.tables (ok o) (committed w x).1.tables
committed-Runs body w (ok p, u) o h e = subst (λ r. Runs body w.tables r u.tables) e h
committed-Runs body w (err x, u) o h e = cc

committed_err :
    (w : World) (x : Result Order × World) (e : Error)
    → (committed w x).0 ≡ err e
    → (committed w x).1.tables ≡ w.tables
committed_err w (ok p, u) e h = cc
committed_err w (err x, u) e h = refl

memory_keeps : (c : Call) (w : World) → is_database c ≡ false → (memory_env c w).1.tables ≡ w.tables
memory_keeps (local l) w h = at_hand-tables l w
memory_keeps (statement s) w h = cc
memory_keeps (transaction body) w h = cc
memory_keeps _ w h = refl

pub memory_env-IsDatabase : IsDatabase memory_env (λ w. w.tables)
memory_env-IsDatabase = record {
  statement_ok = λ s w a h. answer-Effect s w.tables a h;
  statement_err = λ s w e h. answer_err s w.tables e h;
  transaction_ok =
      λ body w o h. committed-Runs body w (run client_env body w) o (client_env-Runs body w) h;
  transaction_err = λ body w e h. committed_err w (run client_env body w) e h;
  others_keep = memory_keeps;
}

at_hand_field : (l : LocalCall) (w : World) → is_store l ≡ false → (at_hand l w).active ≡ w.active
at_hand_field (store_active n) w h = cc
at_hand_field _ w h = refl

committed_field : (w : World) (x : Result Order × World) → (committed w x).1.active ≡ w.active
committed_field w (ok o, u) = refl
committed_field w (err e, u) = refl

pub memory_env_field :
    (c : Call) (w : World) → stores c ≡ false → (memory_env c w).1.active ≡ w.active
memory_env_field (local l) w h = at_hand_field l w h
memory_env_field (transaction body) w h = committed_field w (run client_env body w)
memory_env_field (statement s) w h = refl
memory_env_field _ w h = refl
