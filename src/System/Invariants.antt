-- ===== src/System/Invariants.antt =====
-- What holds of the tables however the tasks of all instances interleave.
use flash_sale_lab.Base.{
  All-map, ℕ, String, ◌≡◌, subst, sym, inl, inr, Bool, true, false, List, [], ◌∷◌, update_where,
  All, Any, if◌then◌else◌,
}
use flash_sale_lab.Base.Int.{ℤ, ◌+ℤ◌, ◌≤ℤ◌, add-zero, le-sum}
use flash_sale_lab.Base.Json.{Fields}
use flash_sale_lab.Io.{Result-cases}
use flash_sale_lab.Io.Tasks.{Calls, interleave, interleave_inv}
use flash_sale_lab.Platform.{Call, Reply, Prog, statement, transaction}
use flash_sale_lab.Platform.Database.{
  CreateOrderInput, Order, OutboxEvent, OutboxChange, Statement, Answer, find_inventory,
  update_inventories, create_order, find_order, create_event, find_events, update_events,
  update_event, count_events, find_product, update_price,
}
use flash_sale_lab.Platform.Laws.{Tables, change_event, Effect, IsDatabase}
use flash_sale_lab.Order.Service.{place_order}
use flash_sale_lab.Order.Service.Atomic.{Placed, place_order-Placed}
use flash_sale_lab.Order.Stock.{
  stock_of, sold_of, Conserves, InStock, Placed-Conserves, Placed-InStock, stock_of-nonneg,
}
use flash_sale_lab.Outbox.Repository.{payload_json}
use flash_sale_lab.System.{Task, program}
use flash_sale_lab.System.Calls.{is_plain, Allowed, plain, placing, other, program-Allowed}

-- An outbox event that tells of an order.
abbrev pub TellsOf : ℕ → OutboxEvent → Type 0
TellsOf n e =
    (e.kind ≡ "ORDER_NOTIFICATION")
    × ((request_id : String) × (tc : Fields) × (e.payload ≡ payload_json n request_id tc))

-- Every order has its outbox event.
abbrev pub IsAnnounced : Tables → Type 0
IsAnnounced t = All (λ o. Any (TellsOf o.id) t.events) t.orders

module _ {A : Type 0} {P : A → Type 0} (p : A → Bool) (f : A → A)
    (keep : (a : A) → P a → P (f a)) where
  Any-update_where : (xs : List A) → Any P xs → Any P (update_where p f xs)
  Any-update_where [] h = h
  Any-update_where (x ∷ xs) (inl h) = inl (kept (p x))
    where
      kept : (b : Bool) → P (if b then f x else x)
      kept true = keep x h
      kept false = h
  Any-update_where (x ∷ xs) (inr h) = inr (Any-update_where xs h)

-- The three together.
pub record IsSound (total : ℕ → ℤ) (t : Tables) : Type 0 where
  pub conserved : Conserves total t
  pub in_stock : InStock t
  pub announced : IsAnnounced t

change-IsAnnounced :
    (p : OutboxEvent → Bool) (d : OutboxChange) (t : Tables)
    → IsAnnounced t
    → IsAnnounced (record t { events = update_where p (change_event d) t.events })
change-IsAnnounced p d t h =
    All-map (λ o. Any-update_where p (change_event d) (λ e tells. tells) t.events) t.orders h

-- A statement that the program sends on its own.
plain-IsSound :
    (total : ℕ → ℤ) (s : Statement) (t : Tables) (a : Answer s) (u : Tables)
    → is_plain s ≡ true
    → Effect s t a u
    → IsSound total t
    → IsSound total u
plain-IsSound total (find_inventory p) t a u e (_, same) v = subst (IsSound total) (sym same) v
plain-IsSound total (find_order n) t a u e (_, same) v = subst (IsSound total) (sym same) v
plain-IsSound total (find_events c n) t a u e (_, same) v = subst (IsSound total) (sym same) v
plain-IsSound total (count_events c) t a u e (_, same) v = subst (IsSound total) (sym same) v
plain-IsSound total (find_product n) t a u e (_, same) v = subst (IsSound total) (sym same) v
plain-IsSound total (update_events c d) t a u e (_, same) v =
    subst (IsSound total) (sym same) (record {
      conserved = v.conserved;
      in_stock = v.in_stock;
      announced = change-IsAnnounced _ d t v.announced;
    })
plain-IsSound total (update_event n d) t a u e (_, same) v =
    subst (IsSound total) (sym same) (record {
      conserved = v.conserved;
      in_stock = v.in_stock;
      announced = change-IsAnnounced _ d t v.announced;
    })
plain-IsSound total (update_price n p) t a u e (_, same) v =
    subst (IsSound total) (sym same)
      (record { conserved = v.conserved; in_stock = v.in_stock; announced = v.announced })
plain-IsSound total (update_inventories c d) t a u e f v = cc
plain-IsSound total (create_order i) t a u e f v = cc
plain-IsSound total (create_event k p) t a u e f v = cc

-- A placed order.
Placed-IsSound :
    (total : ℕ → ℤ) (input : CreateOrderInput) (request_id : String) (t : Tables) (o : Order)
    (u : Tables)
    → Placed input request_id t o u
    → IsSound total t
    → IsSound total u
Placed-IsSound total input request_id t o u placed v = record {
  conserved = Placed-Conserves input request_id t o u placed total v.conserved;
  in_stock = Placed-InStock input request_id t o u placed v.in_stock;
  announced = subst IsAnnounced (sym placed.written) (
    inl (placed.event_kind, (request_id, placed.trace_context, placed.event_payload)),
    All-map (λ q told. inr told) t.orders v.announced,
  );
}

abbrev pub programs : List Task → List (Prog (Unit {0}))
programs [] = []
programs (task ∷ tasks) = program task ∷ programs tasks

pub programs-Allowed : (tasks : List Task) → All (Calls Allowed) (programs tasks)
programs-Allowed [] = tt
programs-Allowed (task ∷ tasks) = (program-Allowed task, programs-Allowed tasks)

module _ {W : Type 0} (env : (c : Call) → W → Reply c × W) (tables : W → Tables)
    (db : IsDatabase env tables) (total : ℕ → ℤ) where
  call-IsSound :
      (c : Call) (w : W) → Allowed c → IsSound total (tables w) → IsSound total (tables (env c w).1)
  call-IsSound (statement s) w (plain p) v = elim (Result-cases (env (statement s) w).0) [
    | inl (a, e) ↦ plain-IsSound total s _ a _ p (db.statement_ok s w a e) v
    | inr (x, e) ↦ subst (IsSound total) (sym (db.statement_err s w x e)) v
  ]
  call-IsSound (transaction body) w (placing input r) v =
      elim (Result-cases (env (transaction (place_order input r)) w).0) [
        | inl (o, e) ↦
            Placed-IsSound total input r _ o _
              (place_order-Placed input r _ o _ (db.transaction_ok (place_order input r) w o e)) v
        | inr (x, e) ↦
            subst (IsSound total) (sym (db.transaction_err (place_order input r) w x e)) v
      ]
  call-IsSound c w (other h) v = subst (IsSound total) (sym (db.others_keep c w h)) v

  -- Whatever tasks run, on however many instances, and however their calls interleave and fail: from
  -- tables that are sound, the tables stay sound. Per product, stock and sold quantities keep their
  -- sum, no stock is below zero, and every order has an outbox event that tells of it.
  pub interleave-IsSound :
      (tasks : List Task) (schedule : List ℕ) (w : W)
      → IsSound total (tables w)
      → IsSound total (tables (interleave env schedule (programs tasks) w).1)
  interleave-IsSound tasks schedule w v =
      interleave_inv env Allowed (λ u. IsSound total (tables u)) call-IsSound schedule
        (programs tasks) w (programs-Allowed tasks) v

-- From tables without orders, whatever runs: the orders of a product never add up to more than its
-- stock at the start, and what is left is the difference.
pub never_oversells :
    {W : Type 0} (env : (c : Call) → W → Reply c × W) (tables : W → Tables)
    (db : IsDatabase env tables) (tasks : List Task) (schedule : List ℕ) (w : W) (p : ℕ)
    → (tables w).orders ≡ []
    → InStock (tables w)
    → let u = tables (interleave env schedule (programs tasks) w).1 in
      (sold_of p u.orders ≤ℤ stock_of p (tables w).inventories)
      × (stock_of p u.inventories +ℤ sold_of p u.orders ≡ stock_of p (tables w).inventories)
never_oversells env tables db tasks schedule w p fresh full =
    let total = λ (q : ℕ). stock_of q (tables w).inventories in
    let sound = interleave-IsSound env tables db total tasks schedule w (record {
      conserved = λ q. rw fresh (add-zero _);
      in_stock = full;
      announced = subst (All (λ o. Any (TellsOf o.id) (tables w).events)) (sym fresh) tt;
    }) in
    (le-sum _ _ _ (stock_of-nonneg p _ sound.in_stock) (sound.conserved p), sound.conserved p)
