-- ===== src/Order/Service/Atomic.antt =====
-- `create` as a whole: what a created order has written, and that a refused one has written nothing.
use flash_sale_lab.Base.{
  ℕ, sym, subst, not, if◌then◌else◌, String, ◌≡◌, ◌≢◌, inl, inr, refl, ◌∷◌, arith, ◌==◌, ==_iff,
  countb, update_where, All, Bool-cases, ◌∙◌,
}
use flash_sale_lab.Base.Json.{Fields}
use flash_sale_lab.Io.{Error, Result-cases, ok, err, pure, throw}
use flash_sale_lab.Io.Run.{run}
use flash_sale_lab.Platform.{Call, Reply, statement, transaction, local, metric}
use flash_sale_lab.Platform.Database.{CreateOrderInput, Order, OutboxEvent, pending, find_inventory}
use flash_sale_lab.Platform.Laws.Bodies.{ok-injective}
use flash_sale_lab.Platform.Laws.{Tables, has_stock, lower_stock, Runs, IsDatabase}
use flash_sale_lab.Outbox.Repository.{payload_json}
use flash_sale_lab.Order.Service.{place_order, create, out_of_stock, order_step}

-- The tables `u` are `t` with the order `o`, one outbox event for it, and the stock taken.
pub record Placed (input : CreateOrderInput) (request_id : String) (t : Tables) (o : Order)
    (u : Tables) : Type 0 where
  pub event : OutboxEvent
  pub trace_context : Fields
  pub o_user : o.user_id ≡ input.user_id
  pub o_product : o.product_id ≡ input.product_id
  pub o_quantity : o.quantity ≡ input.quantity
  pub o_fresh : All (λ p. p.id ≢ o.id) t.orders
  pub event_fresh : All (λ e. e.id ≢ event.id) t.events
  pub event_kind : event.kind ≡ "ORDER_NOTIFICATION"
  pub event_payload : event.payload ≡ payload_json o.id request_id trace_context
  pub event_status : event.status ≡ pending
  pub in_stock :
      countb
        (has_stock (record { product_id = input.product_id; stock_gte = input.quantity }))
        t.inventories
      ≡ 1
  pub written : u ≡ record t {
    inventories =
        update_where
          (has_stock (record { product_id = input.product_id; stock_gte = input.quantity }))
          (lower_stock input.quantity)
          t.inventories;
    orders = o ∷ t.orders;
    events = event ∷ t.events;
  }

-- The end of the work: it commits exactly when one row of the inventory was lowered.
committed :
    (n : ℕ) (order : Order) (t : Tables) (o : Order) (u : Tables)
    → Runs (if not (n == 1) then throw out_of_stock else pure order) t (ok o) u
    → (n ≡ 1) × (o ≡ order) × (u ≡ t)
committed n order t o u h = elim (Bool-cases (n == 1)) [
  | inl one ↦ let h' = rw one at h in ((==_iff n 1).0 one, ok-injective h'.0, h'.1)
  | inr other ↦ let h' = rw other at h in cc (h'.0)
]

pub place_order-Placed :
    (input : CreateOrderInput) (request_id : String) (t : Tables) (o : Order) (u : Tables)
    → Runs (place_order input request_id) t (ok o) u
    → Placed input request_id t o u
unfolding place_order
place_order-Placed input request_id t o u (inr (e, (h, _))) = cc
place_order-Placed input request_id t o u (inl (order, t1, made, (_, (tc, (inr (e, (h, _))))))) = cc
place_order-Placed input request_id t o u
      (inl (order, t1, made, (_, (tc, inl (event, t2, added, (_, inr (e, (h, _)))))))) =
    cc
place_order-Placed input request_id t o u
      (inl
        (order, t1, made, (_, (tc, inl (event, t2, added, (_, inl (n, t3, taken, (_, done)))))))) =
    let (one, same, still) = committed n order t3 o u done in
    record {
      event = event;
      trace_context = tc;
      o_user = ground arith;
      o_product = ground arith;
      o_quantity = ground arith;
      o_fresh = subst (λ p. All (λ q. q.id ≢ p.id) t.orders) (sym same) made.3;
      event_fresh = subst (λ v. All (λ d. d.id ≢ event.id) v.events) made.4 added.1;
      event_kind = ground arith;
      event_payload = ground arith;
      event_status = ground arith;
      in_stock = ground arith;
      written = ground arith;
    }

module _ {W : Type 0} (env : (c : Call) → W → Reply c × W) (tables : W → Tables)
    (db : IsDatabase env tables) (input : CreateOrderInput) (request_id : String) (w : W) where
  abbrev after_precheck : W
  after_precheck =
      (env (local (metric (order_step "inventory_precheck")))
        (env (statement (find_inventory input.product_id)) w).1).1

  abbrev body : Call
  body = transaction (place_order input request_id)

  -- A created order is that of the transaction, and nothing after it touches the tables.
  create-transaction :
      (o : Order)
      → (run env (create input request_id) w).0 ≡ ok o
      → ((env body after_precheck).0 ≡ ok o)
        × (tables (run env (create input request_id) w).1 ≡ tables (env body after_precheck).1)
  unfolding create
  create-transaction o h = ground (
    arith,
    db.others_keep (local (metric (order_step "transaction"))) (env body after_precheck).1,
  )

  metric_keeps :
      tables after_precheck ≡ tables (env (statement (find_inventory input.product_id)) w).1
  metric_keeps = db.others_keep (local (metric (order_step "inventory_precheck"))) _ refl

  after_precheck_lem : tables after_precheck ≡ tables w
  after_precheck_lem = elim (Result-cases (env (statement (find_inventory input.product_id)) w).0) [
    | inl (a, e) ↦ metric_keeps ∙ (db.statement_ok (find_inventory input.product_id) w a e).1
    | inr (x, e) ↦ metric_keeps ∙ db.statement_err (find_inventory input.product_id) w x e
  ]

  -- When `create` returns an order, the tables have that order as a new row with the input's columns,
  -- one new PENDING outbox event with the order's id and the request's, and the stock of one inventory
  -- row that had enough lowered by the quantity; nothing else differs.
  pub create-Placed :
      (o : Order)
      → (run env (create input request_id) w).0 ≡ ok o
      → Placed input request_id (tables w) o (tables (run env (create input request_id) w).1)
  create-Placed o h =
      let (did, same) = create-transaction o h in
      rw (same, ← after_precheck_lem)
        (place_order-Placed input request_id _ o _ (db.transaction_ok _ after_precheck o did))

  -- When `create` throws, whatever it throws and wherever it failed, the tables are as they were.
  pub create_atomic :
      (x : Error)
      → (run env (create input request_id) w).0 ≡ err x
      → tables (run env (create input request_id) w).1 ≡ tables w
  unfolding create
  create_atomic x h = ground (
    arith,
    after_precheck_lem,
    db.others_keep (local (metric (order_step "transaction"))) (env body after_precheck).1,
    db.transaction_err (place_order input request_id) after_precheck x,
    db.statement_err (find_inventory input.product_id) w x,
  )
