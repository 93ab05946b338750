-- ===== src/Consumer/Settling.antt =====
-- How a delivery is settled, whatever Redis and the broker answer. There is no assumption about the
-- environment: each call may succeed or fail.
use flash_sale_lab.Base.{
  ℕ, ◌+◌, ◌≤◌, ◌<◌, ◌≡◌, ◌⊎◌, refl, subst, sym, String, true, false, some, [], ◌∷◌, arith, length,
  All, eq_iff,
}
use flash_sale_lab.Io.{Error, Result, ok, err, pure, ◌>>◌, catch}
use flash_sale_lab.Io.Run.{run, then_run, run->>=, catch_run, run-catch}
use flash_sale_lab.Platform.{Call, Reply, Prog}
use flash_sale_lab.Platform.Broker.{
  order_notification, order_notification_dlq, order_notification_retry,
  order_notification_processing_retry, notification, Delivery, spread,
}
use flash_sale_lab.Platform.Cache.{Key}
use flash_sale_lab.Consumer.Ledger.{Copy, Ledger, blank, kept}
use flash_sale_lab.Consumer.Handler.{
  retry_count_of, processing_retry_count_of, max_processing_retries, processed_key, move_to,
  on_check_failed, on_locked, on_processing_failed, Check, returned, acquired, check_duplicate,
  after_check, process, handle_order, handle_content, handle_message,
}

-- Where a copy of a message may go, with what headers: to the dead letters once a count has reached a
-- limit, or to a queue that brings it back, with one count raised by one that was below its limit.
abbrev pub Forwards : Delivery → Copy → Type 0
Forwards m c =
    ((c.queue ≡ order_notification_dlq)
      × ((1 ≤ retry_count_of m) ⊎ (max_processing_retries ≤ processing_retry_count_of m)))
    ⊎ ((c.queue ≡ order_notification_retry)
        × (retry_count_of m < 3)
        × (c.headers ≡ record (spread m.headers) { retry_count = some (retry_count_of m + 1) }))
    ⊎ ((c.queue ≡ order_notification)
        × (retry_count_of m < 1)
        × (c.headers ≡ record (spread m.headers) { retry_count = some (retry_count_of m + 1) }))
    ⊎ ((c.queue ≡ order_notification_processing_retry)
        × (processing_retry_count_of m < max_processing_retries)
        × (c.headers ≡ record (spread m.headers) {
          processing_retry_count = some (processing_retry_count_of m + 1);
        }))

-- Nothing is settled or copied yet.
abbrev Fresh : Ledger → Type 0
Fresh l = (l.sent ≡ []) × (l.confirmed ≡ []) × (l.acks ≡ []) × (l.nacks ≡ 0)

-- The ledger of a delivery that the handler is done with.
pub record IsSettled (m : Delivery) (l : Ledger) : Type 0 where
  -- at most one acknowledgement, which was safe when it was made
  pub safe : (l.acks ≡ []) ⊎ (l.acks ≡ true ∷ [])
  -- acknowledged or returned, not both
  pub once : length l.acks + l.nacks ≤ 1
  -- at most one copy, of the same content
  pub one_copy : length l.confirmed ≤ 1
  pub copies : All (λ c. (c.content ≡ m.content) × Forwards m c) l.confirmed

-- What an interrupted part of the handler leaves: it is settled if it ended, and else untouched.
abbrev Processed : Delivery → Result (Unit {0}) → Ledger → Type 0
Processed m (ok u) l = IsSettled m l
Processed m (err e) l = Fresh l

abbrev Checked : Delivery → Result Check → Ledger → Type 0
Checked m (ok returned) l = IsSettled m l
Checked m (ok (acquired b)) l = Fresh l
Checked m (err e) l = Fresh l

abbrev Done : Delivery → Result (Unit {0}) → Ledger → Type 0
Done m r l = (r ≡ ok tt) × IsSettled m l

module _ {W : Type 0} (env : (c : Call) → W → Reply c × W) (key : Key) (m : Delivery) where
  abbrev run_on : {A : Type 0} → Prog A → W → Ledger → Result A × (W × Ledger)
  run_on p w l = run (kept key env) p (w, l)

  abbrev DoneBy : Prog (Unit {0}) → W → Ledger → Type 0
  DoneBy p w l = Done m (run_on p w l).0 (run_on p w l).1.1

  on_check_failed-DoneBy : (w : W) (l : Ledger) → Fresh l → DoneBy (on_check_failed m) w l
  unfolding on_check_failed move_to
  on_check_failed-DoneBy w l e = ground arith

  on_locked-DoneBy : (w : W) (l : Ledger) → Fresh l → DoneBy (on_locked m) w l
  unfolding on_locked move_to
  on_locked-DoneBy w l e = ground arith

  on_processing_failed-DoneBy :
      (order_id : ℕ) (w : W) (l : Ledger) → Fresh l → DoneBy (on_processing_failed m order_id) w l
  unfolding on_processing_failed move_to
  on_processing_failed-DoneBy order_id w l e = ground arith

  process-Processed :
      (order_id : ℕ) (w : W) (l : Ledger)
      → Fresh l
      → Processed m (run_on (process m order_id) w l).0 (run_on (process m order_id) w l).1.1
  unfolding process
  process-Processed order_id w l e = ground arith

  check_duplicate-Checked :
      (order_id : ℕ) (w : W) (l : Ledger)
      → key ≡ processed_key order_id
      → Fresh l
      → Checked m
          (run_on (check_duplicate m order_id) w l).0
          (run_on (check_duplicate m order_id) w l).1.1
  unfolding check_duplicate
  check_duplicate-Checked order_id w l e f =
      ground (arith, eq_iff key.template (processed_key order_id).template)

  -- After the first `try` and its `catch`, which returns.
  caught-Checked :
      (x : Result Check × (W × Ledger))
      → Checked m x.0 x.1.1
      → let y = catch_run (kept key env) (λ e. do on_check_failed m; pure returned) x in
        (Checked m y.0 y.1.1) × (¬ ((e : Error) × (y.0 ≡ err e)))
  caught-Checked (ok c, s) h = (h, λ e. cc (e.1))
  caught-Checked (err e, (w, l)) h =
      rw (run->>= (kept key env) (on_check_failed m) (λ _. pure returned) (w, l))
        (ground (arith, on_check_failed-DoneBy w l h))

  processed :
      (order_id : ℕ) (x : Result (Unit {0}) × (W × Ledger))
      → Processed m x.0 x.1.1
      → let y = catch_run (kept key env) (λ e. on_processing_failed m order_id) x in
        Done m y.0 y.1.1
  processed order_id (ok u, s) h = (refl, h)
  processed order_id (err e, (w, l)) h = on_processing_failed-DoneBy order_id w l h

  after_check-DoneBy :
      (order_id : ℕ) (x : Result Check × (W × Ledger))
      → Checked m x.0 x.1.1
      → ¬ ((e : Error) × (x.0 ≡ err e))
      → let y = then_run (kept key env) (after_check m order_id) x in Done m y.0 y.1.1
  after_check-DoneBy order_id (err e, s) h n = absurd (n (e, refl))
  after_check-DoneBy order_id (ok returned, s) h n = (refl, h)
  after_check-DoneBy order_id (ok (acquired false), (w, l)) h n = on_locked-DoneBy w l h
  after_check-DoneBy order_id (ok (acquired true), (w, l)) h n =
      rw
        (run-catch (kept key env) (process m order_id) (λ e. on_processing_failed m order_id)
          (w, l))
        (processed order_id (run_on (process m order_id) w l) (process-Processed order_id w l h))

  abbrev guarded : ℕ → Prog Check
  guarded order_id = catch (check_duplicate m order_id) λ e. do on_check_failed m; pure returned

  guarded-Checked :
      (order_id : ℕ) (w : W)
      → key ≡ processed_key order_id
      → let y = run_on (guarded order_id) w blank in
        (Checked m y.0 y.1.1) × (¬ ((e : Error) × (y.0 ≡ err e)))
  guarded-Checked order_id w e =
      rw
        (run-catch (kept key env) (check_duplicate m order_id)
          (λ e. do on_check_failed m; pure returned) (w, blank))
        (caught-Checked (run_on (check_duplicate m order_id) w blank)
          (check_duplicate-Checked order_id w blank e (refl, refl, refl, refl)))

  handle_order-DoneBy :
      (order_id : ℕ) (w : W)
      → key ≡ processed_key order_id
      → DoneBy (handle_order m order_id) w blank
  unfolding handle_order
  handle_order-DoneBy order_id w e =
      rw (run->>= (kept key env) (guarded order_id) (after_check m order_id) (w, blank)) (
        after_check-DoneBy order_id (run_on (guarded order_id) w blank)
          (guarded-Checked order_id w e).0 (guarded-Checked order_id w e).1)

-- Whatever Redis, the broker and the notification answer, `handleMessage` returns normally on a
-- message that parses. It has acknowledged the delivery at most once, and then only after the order
-- was seen to be processed, or its notification was sent, or a copy was confirmed by the broker; it
-- has not both acknowledged and returned the delivery to its queue; and it has at most one confirmed
-- copy, which has the same content and goes where `Forwards` says.
pub handle_message-IsSettled :
    {W : Type 0} (env : (c : Call) → W → Reply c × W) (m : Delivery) (order_id : ℕ)
    (request_id : String) (w : W)
    → m.content ≡ notification order_id request_id
    → ((run (kept (processed_key order_id) env) (handle_message m) (w, blank)).0 ≡ ok tt)
      × IsSettled m (run (kept (processed_key order_id) env) (handle_message m) (w, blank)).1.1
unfolding handle_message
handle_message-IsSettled env m order_id request_id w e =
    subst (λ c. DoneBy env (processed_key order_id) m (handle_content m c) w blank) (sym e)
      (handle_order-DoneBy env (processed_key order_id) m order_id w refl)
