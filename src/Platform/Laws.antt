-- ===== src/Platform/Laws.antt =====
-- What the program relies on about the database: that a statement does what Prisma documents of it or
-- fails and changes nothing, and that a transaction is isolated and takes effect as a whole or not. The
-- program runs one body, `place_order`; its only statement that reads what others write is the
-- conditional update of the stock, so that Read Committed, PostgreSQL's default, isolates it enough.
pub mod Bodies
pub mod Local
pub mod Cached
use mathlib.Core.List.{Perm, Pairwise}
use flash_sale_lab.Base.{
  ℕ, ◌≤◌, ◌≡◌, ◌≢◌, ◌⊎◌, Bool, true, false, ◌&&◌, Option, none, some, List, ◌∷◌, ◌==◌, ltb, find?,
  filterb, countb, update_where, take, All, Any,
}
use flash_sale_lab.Base.Int.{ℤ, ◌-ℤ◌, leb_ℤ}
use flash_sale_lab.Io.{Error, Result, ok, err, Io, pure, throw, call}
use flash_sale_lab.Platform.{
  Call, Reply, statement, transaction, Client, ClientCall, ClientReply, query, aside, LocalReply,
}
use flash_sale_lab.Platform.Database.{
  Product, Inventory, CreateOrderInput, Order, OutboxStatus, pending, processing, sent, OutboxEvent,
  InventoryWhere, OutboxWhere, OutboxChange, Statement, find_inventory, update_inventories,
  create_order, find_order, create_event, find_events, update_events, update_event, count_events,
  find_product, update_price, Answer,
}

pub record Tables : Type 0 where
  pub products : List Product
  pub inventories : List Inventory
  pub orders : List Order
  pub events : List OutboxEvent

abbrev pub has_stock : InventoryWhere → Inventory → Bool
has_stock c i = i.product_id == c.product_id && leb_ℤ c.stock_gte i.stock

abbrev pub lower_stock : ℤ → Inventory → Inventory
lower_stock d i = record i { stock = i.stock -ℤ d }

abbrev pub status_eq : OutboxStatus → OutboxStatus → Bool
status_eq pending pending = true
status_eq processing processing = true
status_eq sent sent = true
status_eq _ _ = false

abbrev id_test : Option ℕ → ℕ → Bool
id_test none n = true
id_test (some m) n = n == m

abbrev status_test : Option OutboxStatus → OutboxStatus → Bool
status_test none s = true
status_test (some t) s = status_eq s t

-- A null time is not less than any.
abbrev started_test : Option ℕ → Option ℕ → Bool
started_test none s = true
started_test (some t) none = false
started_test (some t) (some s) = ltb s t

abbrev pub event_matches : OutboxWhere → OutboxEvent → Bool
event_matches c e =
    id_test c.id e.id
    && (status_test c.status e.status && started_test c.started_lt e.processing_started_at)

abbrev or_keep : Option ℕ → Option ℕ → Option ℕ
or_keep none old = old
or_keep (some t) old = some t

abbrev pub change_event : OutboxChange → OutboxEvent → OutboxEvent
change_event d e = record e {
  status = d.status;
  processing_started_at = d.processing_started_at;
  sent_at = or_keep d.sent_at e.sent_at;
}

-- `s` may reply `a` and take the tables from `t` to `u`.
abbrev pub Effect : (s : Statement) → Tables → Answer s → Tables → Type 0
Effect (find_inventory p) t a u = (a ≡ find? (λ i. i.product_id == p) t.inventories) × (u ≡ t)
Effect (update_inventories c d) t a u =
    (a ≡ countb (has_stock c) t.inventories)
    × (u ≡ record t { inventories = update_where (has_stock c) (lower_stock d) t.inventories })
Effect (create_order i) t a u =
    (a.user_id ≡ i.user_id)
    × (a.product_id ≡ i.product_id)
    × (a.quantity ≡ i.quantity)
    × All (λ o. o.id ≢ a.id) t.orders
    × (u ≡ record t { orders = a ∷ t.orders })
Effect (find_order n) t a u = (a ≡ find? (λ o. o.id == n) t.orders) × (u ≡ t)
Effect (create_event k p) t a u =
    (a ≡ record {
      id = a.id;
      kind = k;
      payload = p;
      status = pending;
      processing_started_at = none;
      sent_at = none;
    })
    × All (λ e. e.id ≢ a.id) t.events
    × (u ≡ record t { events = a ∷ t.events })
Effect (find_events c n) t a u =
    ((all : List OutboxEvent) × Perm all (filterb (event_matches c) t.events)
      × Pairwise (λ d e. d.id ≤ e.id) all
      × (a ≡ take n all))
    × (u ≡ t)
Effect (update_events c d) t a u =
    (a ≡ countb (event_matches c) t.events)
    × (u ≡ record t { events = update_where (event_matches c) (change_event d) t.events })
Effect (update_event n d) t a u =
    Any (λ e. e.id ≡ n) t.events
    × (u ≡ record t { events = update_where (λ e. e.id == n) (change_event d) t.events })
Effect (count_events c) t a u = (a ≡ countb (event_matches c) t.events) × (u ≡ t)
Effect (find_product n) t a u = (a ≡ find? (λ p. p.id == n) t.products) × (u ≡ t)
Effect (update_price n p) t a u =
    Any (λ q. (q.id ≡ n) × (a ≡ record q { price = p })) t.products
    × (u ≡ record t {
      products = update_where (λ q. q.id == n) (λ q. record q { price = p }) t.products;
    })

-- A transaction's body, run alone from `t`, may end with `r` at `u`. A statement that fails changes
-- nothing, and what the body then does is up to the body.
abbrev pub Runs {ℓ} : {A : Type ℓ} → Client A → Tables → Result A → Tables → Type ℓ
Runs (pure a) t r u = (r ≡ ok a) × (u ≡ t)
Runs (throw e) t r u = (r ≡ err e) × (u ≡ t)
Runs (call (query s) k) t r u =
    ((a : Answer s) × (m : Tables) × Effect s t a m × Runs (k (ok a)) m r u)
    ⊎ ((e : Error) × Runs (k (err e)) t r u)
Runs (call (aside l) k) t r u = (a : LocalReply l) × Runs (k a) t r u

-- The calls that leave the tables alone.
abbrev pub is_database : Call → Bool
is_database (statement s) = true
is_database (transaction body) = true
is_database _ = false

-- `tables w` is what the world `w` has committed.
pub record IsDatabase {W : Type 0} (env : (c : Call) → W → Reply c × W) (tables : W → Tables)
    : Type 0 where
  pub statement_ok :
      (s : Statement) (w : W) (a : Answer s)
      → (env (statement s) w).0 ≡ ok a
      → Effect s (tables w) a (tables (env (statement s) w).1)
  pub statement_err :
      (s : Statement) (w : W) (e : Error)
      → (env (statement s) w).0 ≡ err e
      → tables (env (statement s) w).1 ≡ tables w
  pub transaction_ok :
      (body : Client Order) (w : W) (o : Order)
      → (env (transaction body) w).0 ≡ ok o
      → Runs body (tables w) (ok o) (tables (env (transaction body) w).1)
  pub transaction_err :
      (body : Client Order) (w : W) (e : Error)
      → (env (transaction body) w).0 ≡ err e
      → tables (env (transaction body) w).1 ≡ tables w
  pub others_keep : (c : Call) (w : W) → is_database c ≡ false → tables (env c w).1 ≡ tables w
