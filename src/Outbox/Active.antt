-- ===== src/Outbox/Active.antt =====
-- The guard on concurrent cycles: the field `activeExecutions` of the publisher.
use flash_sale_lab.Base.{
  ℕ, ◌≡◌, refl, sym, ◌∙◌, ap, subst, Bool, true, false, List, [], ◌∷◌, ltb, ◌+◌, ◌-◌, arith,
  if◌then◌else◌,
}
use flash_sale_lab.Io.{Result, ok, err, pure, throw, call, ◌>>◌, finally}
use flash_sale_lab.Io.Run.{run, run-finally, finally_run}
use flash_sale_lab.Io.Tasks.{Calls, ends, throws, calls, Calls->>=, calls_rules}
use flash_sale_lab.Platform.{
  Call, Reply, Prog, local, store_active, load_active, metric, inc, dec, observe, Client,
  ClientCall, query, aside, LocalCall, direct, measure,
}
use flash_sale_lab.Platform.Database.{Statement}
use flash_sale_lab.Outbox.Repository.{PendingOutboxEvent}
use flash_sale_lab.Outbox.Publisher.{
  send_event, publish_event, publish_events, publish_batch, leave, publish_pending,
}

abbrev pub is_store : LocalCall → Bool
is_store (store_active n) = true
is_store _ = false

abbrev pub stores : Call → Bool
stores (local l) = is_store l
stores _ = false

-- `active w` is the field in the world `w`: it is read and written as a field is, and by nothing else.
pub record IsField {W : Type 0} (env : (c : Call) → W → Reply c × W) (active : W → ℕ) : Type 0 where
  pub loads : (w : W) → (env (local load_active) w).0 ≡ active w
  pub stored : (n : ℕ) (w : W) → active (env (local (store_active n)) w).1 ≡ n
  pub others_keep : (c : Call) (w : W) → stores c ≡ false → active (env c w).1 ≡ active w

data NoStore : Call → Type 0 where
  no_store : {c : Call} → stores c ≡ false → NoStore c

data NoStoreAside : ClientCall → Type 0 where
  asks : {s : Statement} → NoStoreAside (query s)
  asides : {l : LocalCall} → is_store l ≡ false → NoStoreAside (aside l)

direct-NoStore :
    {A : Type 0} (body : Client A) → Calls NoStoreAside body → Calls NoStore (direct body)
direct-NoStore (pure a) h = ends
direct-NoStore (throw e) h = throws
direct-NoStore (call (query s) k) (calls asks hk) =
    calls (no_store refl) (λ r. direct-NoStore (k r) (hk r))
direct-NoStore (call (aside l) k) (calls (asides h) hk) =
    calls (no_store h) (λ r. direct-NoStore (k r) (hk r))

ruleset no_store_rules = (calls_rules, direct-NoStore, no_store, asks, asides, refl)

send_event-NoStore : (event : PendingOutboxEvent) → Calls NoStore (send_event event)
unfolding send_event
send_event-NoStore event = search no_store_rules depth 12

publish_event-NoStore : (event : PendingOutboxEvent) → Calls NoStore (publish_event event)
unfolding publish_event
publish_event-NoStore event = search (no_store_rules, send_event-NoStore) depth 12

publish_events-NoStore : (events : List PendingOutboxEvent) → Calls NoStore (publish_events events)
unfolding publish_events
publish_events-NoStore [] = ends
publish_events-NoStore (event ∷ events) =
    Calls->>= _ _ (publish_event-NoStore event) (λ u. publish_events-NoStore events)

publish_batch-NoStore : Calls NoStore publish_batch
unfolding publish_batch
publish_batch-NoStore = search (no_store_rules, publish_events-NoStore) depth 12

module _ {W : Type 0} (env : (c : Call) → W → Reply c × W) (active : W → ℕ)
    (field : IsField env active) where
  run-NoStore :
      {A : Type 0} (p : Prog {0} A) (w : W) → Calls NoStore p → active (run env p w).1 ≡ active w
  run-NoStore (pure a) w h = refl
  run-NoStore (throw e) w h = refl
  run-NoStore (call c k) w (calls (no_store h) hk) =
      run-NoStore (k (env c w).0) (env c w).1 (hk (env c w).0) ∙ field.others_keep c w h

  abbrev observed : Call
  observed = local (metric (observe "outbox_publisher_duration_seconds" ""))

  abbrev lowered : Call
  lowered = local (metric (dec "outbox_publisher_active_executions" ""))

  left_field : (w : W) → active (run env leave w).1 ≡ active w - 1
  unfolding leave
  left_field w =
      let (now, v) = env (local load_active) w in
      let v1 = (env (local (store_active (now - 1))) v).1 in
      field.others_keep observed (env lowered v1).1 refl
      ∙ field.others_keep lowered v1 refl
      ∙ field.stored (now - 1) v
      ∙ ap (λ n. n - 1) (field.loads w)

  -- The `finally` block takes one off, whichever way the `try` block has ended.
  left : (x : Result (Unit {0}) × W) → active (finally_run env leave x).1 ≡ active x.1 - 1
  unfolding leave
  left (ok u, w) = left_field w
  left (err e, w) = left_field w

  cycle_field : (w : W) → active (run env (finally publish_batch leave) w).1 ≡ active w - 1
  cycle_field w = rw (run-finally env publish_batch leave w) (
      left (run env publish_batch w)
      ∙ ap (λ n. n - 1) (run-NoStore publish_batch w publish_batch-NoStore))

  abbrev skipped : Call
  skipped = local (metric (inc "outbox_publisher_skipped_total" ""))

  abbrev raised : Call
  raised = local (metric (inc "outbox_publisher_active_executions" ""))

  -- What follows the test of the field, with the value that was read.
  abbrev after_test : ℕ → Bool → Prog (Unit {0})
  after_test n skips = if skips then measure (inc "outbox_publisher_skipped_total" "") else do
    call (local (store_active (n + 1))) pure
    measure (inc "outbox_publisher_active_executions" "")
    finally publish_batch leave

  after_test_field :
      (skips : Bool) (w : W) → active (run env (after_test (active w) skips) w).1 ≡ active w
  after_test_field true w = field.others_keep skipped w refl
  after_test_field false w =
      let v = (env (local (store_active (active w + 1))) w).1 in
      let before : active (env raised v).1 ≡ active w + 1 =
        field.others_keep raised v refl ∙ field.stored (active w + 1) w in
      omega (arith, cycle_field (env raised v).1, before)

  started_field :
      (n : ℕ) (v : W) → n ≡ active v → active (run env (after_test n (ltb 0 n)) v).1 ≡ active v
  started_field n v e =
      subst (λ m. active (run env (after_test m (ltb 0 m)) v).1 ≡ active v) (sym e)
        (after_test_field (ltb 0 (active v)) v)

  -- Where the field `activeExecutions` is read and written as a field is and by nothing else: whatever
  -- the database and the broker answer, and whether the cycle is skipped, ends or throws, after
  -- `publishPending` the field is what it was before.
  pub publish_pending_restores : (w : W) → active (run env publish_pending w).1 ≡ active w
  unfolding publish_pending
  publish_pending_restores w =
      let (n, v) = env (local load_active) w in
      let kept : active v ≡ active w = field.others_keep (local load_active) w refl in
      started_field n v (field.loads w ∙ sym kept) ∙ kept
