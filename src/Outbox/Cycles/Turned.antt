-- ===== src/Outbox/Cycles/Turned.antt =====
-- What a turn of a task of the publisher's process does to the gauge of the running cycles.
use flash_sale_lab.Base.{
  ℕ, zero, suc, ◌+◌, ◌-◌, ◌≤◌, ◌≡◌, refl, sym, ◌∙◌, subst, Bool, true, false, ltb, arith,
  if◌then◌else◌,
}
use flash_sale_lab.Io.{pure, throw, call, ◌>>◌, finally}
use flash_sale_lab.Io.Tasks.{Calls, ends, throws, calls}
use flash_sale_lab.Platform.{
  Call, Reply, Prog, local, store_active, load_active, metric, inc, dec, observe, measure,
}
use flash_sale_lab.Platform.Turns.{until_await, turn}
use flash_sale_lab.Outbox.Active.{IsField, stores}
use flash_sale_lab.Outbox.Publisher.{publish_batch, leave, publish_pending}
use flash_sale_lab.Outbox.Cycles.{Running, enter, kept, is_mark, IsPlain, publish_batch-Calls}

-- A task of the process: it is outside every cycle, or inside one. Tasks other than `publishPending`
-- neither touch the field nor the gauge.
pub data Phase : Bool → Prog (Unit {0}) → Type 0 where
  outside : {p : Prog (Unit {0})} → Calls IsPlain p → Phase false p
  starting : Phase false publish_pending
  inside : {p : Prog (Unit {0})} → Calls IsPlain p → Phase true (finally p leave)

abbrev pub beside : Bool → ℕ → ℕ
beside true others = 1 + others
beside false others = others

module _ {W : Type 0} (env : (c : Call) → W → Reply c × W) (active : W → ℕ)
    (field : IsField env active) where
  -- So many cycles run, as the field and the gauge tell, and there is at most one.
  pub record Runs (m : ℕ) (x : W × Running) : Type 0 where
    pub told : active x.0 ≡ m
    pub counted : x.1.running ≡ m
    pub few : m ≤ 1
    pub apart : x.1.overlapped ≡ false

  plain_store : (c : Call) → is_mark c ≡ false → stores c ≡ false
  plain_store (local (store_active n)) h = cc
  plain_store (local _) h = refl
  plain_store _ h = refl

  plain_enter : (c : Call) (s : Running) → is_mark c ≡ false → enter c s ≡ s
  plain_enter (local (metric (inc name label))) s h = ground arith
  plain_enter (local (metric (dec name label))) s h = ground arith
  plain_enter (local _) s h = refl
  plain_enter _ s h = refl

  call-Runs : (m : ℕ) (c : Call) (x : W × Running) → IsPlain c → Runs m x → Runs m (kept env c x).1
  call-Runs m c (w, s) h v = rw (plain_enter c s h) (record {
    told = field.others_keep c w (plain_store c h) ∙ v.told;
    counted = v.counted;
    few = v.few;
    apart = v.apart;
  })

  abbrev pub Turned : ℕ → Prog (Unit {0}) × (W × Running) → Type 0
  Turned others (p, x) = (b : Bool) × Phase b p × Runs (beside b others) x

  -- The calls of `leave`, which are one turn.
  abbrev left : W × Running → W × Running
  left x =
      let (n, x1) = kept env (local load_active) x in
      let x2 = (kept env (local (store_active (n - 1))) x1).1 in
      let x3 = (kept env (local (metric (dec "outbox_publisher_active_executions" ""))) x2).1 in
      (kept env (local (metric (observe "outbox_publisher_duration_seconds" ""))) x3).1

  left-Runs : (others : ℕ) (x : W × Running) → Runs (1 + others) x → Runs others (left x)
  left-Runs others (w, s) v =
      let (n, w1) = env (local load_active) w in
      let w2 = (env (local (store_active (n - 1))) w1).1 in
      let lowered = local (metric (dec "outbox_publisher_active_executions" "")) in
      let observed = local (metric (observe "outbox_publisher_duration_seconds" "")) in
      let same =
        field.others_keep observed (env lowered w2).1 refl ∙ field.others_keep lowered w2 refl in
      record {
        told = omega (arith, same, field.stored (n - 1) w1, field.loads w, v.told);
        counted = omega (arith, v.counted);
        few = omega (arith, v.few);
        apart = v.apart;
      }

  -- A cycle from a reply on.
  inside-Turned :
      (p : Prog (Unit {0})) (others : ℕ) (x : W × Running)
      → Calls IsPlain p
      → Runs (1 + others) x
      → Turned others (until_await (kept env) (finally p leave) x)
  unfolding leave
  inside-Turned (pure u) others x h v = (false, outside ends, left-Runs others x v)
  inside-Turned (throw e) others x h v = (false, outside throws, left-Runs others x v)
  inside-Turned (call (local l) k) others x (calls h hk) v =
      let (r, y) = kept env (local l) x in
      inside-Turned (k r) others y (hk r) (call-Runs (1 + others) (local l) x h v)
  inside-Turned (call c k) others x h v = (true, inside h, v)

  outside-Turned :
      (p : Prog (Unit {0})) (others : ℕ) (x : W × Running)
      → Calls IsPlain p
      → Runs others x
      → Turned others (until_await (kept env) p x)
  outside-Turned (pure u) others x h v = (false, outside ends, v)
  outside-Turned (throw e) others x h v = (false, outside throws, v)
  outside-Turned (call (local l) k) others x (calls h hk) v =
      let (r, y) = kept env (local l) x in
      outside-Turned (k r) others y (hk r) (call-Runs others (local l) x h v)
  outside-Turned (call c k) others x h v = (false, outside h, v)

  -- What follows the test of the field, with the number that was read.
  abbrev tested : ℕ → Bool → Prog (Unit {0})
  tested n skips = if skips then measure (inc "outbox_publisher_skipped_total" "") else do
    call (local (store_active (n + 1))) pure
    measure (inc "outbox_publisher_active_executions" "")
    finally publish_batch leave

  raised-Runs :
      (x : W × Running)
      → Runs 0 x
      → let y = (kept env (local (store_active 1)) x).1 in
        Runs 1 (kept env (local (metric (inc "outbox_publisher_active_executions" ""))) y).1
  raised-Runs (w, s) v =
      let y = (env (local (store_active 1)) w).1 in
      record {
        told =
            field.others_keep (local (metric (inc "outbox_publisher_active_executions" ""))) y refl
            ∙ field.stored 1 w;
        counted = omega (arith, v.counted);
        few = omega arith;
        apart = ground (arith, v.counted, v.apart);
      }

  busy : (n : ℕ) → ltb 0 (suc n) ≡ true
  busy n = ground arith

  tested-Turned :
      (n : ℕ) (x : W × Running)
      → Runs n x
      → Turned n (until_await (kept env) (tested n (ltb 0 n)) x)
  tested-Turned zero x v =
      let y = (kept env (local (store_active 1)) x).1 in
      let z = (kept env (local (metric (inc "outbox_publisher_active_executions" ""))) y).1 in
      inside-Turned publish_batch 0 z publish_batch-Calls (raised-Runs x v)
  tested-Turned (suc n) x v =
      subst (λ b. Turned (suc n) (until_await (kept env) (tested (suc n) b) x)) (sym (busy n))
        (outside-Turned (measure (inc "outbox_publisher_skipped_total" "")) (suc n) x
          (calls refl (λ u. ends)) v)

  begun-Turned :
      (others : ℕ) (x : W × Running)
      → Runs others x
      → Turned others (turn (kept env) publish_pending x)
  unfolding publish_pending
  begun-Turned others (w, s) v =
      let (n, w1) = env (local load_active) w in
      subst (λ k. Turned others (until_await (kept env) (tested k (ltb 0 k)) (w1, s)))
        (sym (field.loads w ∙ v.told))
        (tested-Turned others (w1, s) (call-Runs others (local load_active) (w, s) refl v))

  pub turn-Turned :
      (b : Bool) (p : Prog (Unit {0})) (others : ℕ) (x : W × Running)
      → Phase b p
      → Runs (beside b others) x
      → Turned others (turn (kept env) p x)
  unfolding leave
  turn-Turned false p others x starting v = begun-Turned others x v
  turn-Turned false (pure u) others x (outside h) v = outside-Turned (pure u) others x h v
  turn-Turned false (throw e) others x (outside h) v = outside-Turned (throw e) others x h v
  turn-Turned false (call c k) others x (outside (calls h hk)) v =
      let (r, y) = kept env c x in outside-Turned (k r) others y (hk r) (call-Runs others c x h v)
  turn-Turned true p others x (inside h) v = inside_turn _ h
    where
      inside_turn :
          (q : Prog (Unit {0}))
          → Calls IsPlain q
          → Turned others (turn (kept env) (finally q leave) x)
      inside_turn (pure u) g = inside-Turned (pure u) others x g v
      inside_turn (throw e) g = inside-Turned (throw e) others x g v
      inside_turn (call c k) (calls g gk) =
          let (r, y) = kept env c x in
          inside-Turned (k r) others y (gk r) (call-Runs (1 + others) c x g v)
