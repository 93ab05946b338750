-- ===== src/Consumer/Locking/Handled.antt =====
-- That `handleMessage` keeps to the rules of the lock.
use flash_sale_lab.Base.{
  ℕ, String, ◌≡◌, refl, Bool, true, false, subst, sym, Option, ◌+◌, leb, some, if◌then◌else◌,
}
use flash_sale_lab.Io.{Error, Result, ok, err, pure, call, ◌>>=◌, ◌>>◌, catch, settle}
use flash_sale_lab.Io.Tasks.{Calls, calls_rules}
use flash_sale_lab.Platform.{Prog, Level, report, measure, ack}
use flash_sale_lab.Platform.Broker.{
  Queue, Headers, Delivery, notification, spread, order_notification, order_notification_dlq,
}
use flash_sale_lab.Platform.Cache.{CacheText, is_truthy, is_ok_text}
use flash_sale_lab.Redis
use flash_sale_lab.Consumer.Handler.{
  move_to, on_check_failed, on_locked, on_processing_failed, Check, returned, acquired,
  check_duplicate, process, after_check, handle_order, handle_content, handle_message,
  processing_key, processed_key, retry_count_of, true_text, consumer_step,
}
use flash_sale_lab.Consumer.Locking.{
  got, Keeps, returns, rejects, takes, gives, notifies, acks, passes, Keeps->>=, Keeps-catch,
  IsNeutral, neutral-Keeps,
}

module _ (n : ℕ) (m : Delivery) where
  move_to-Calls :
      (q : Queue) (h : Headers) (l : Level) (done failed : String)
      → Calls (IsNeutral n) (move_to m q h l done failed)
  unfolding move_to
  move_to-Calls q h l done failed = search calls_rules depth 12

  on_check_failed-Calls : Calls (IsNeutral n) (on_check_failed m)
  unfolding on_check_failed
  on_check_failed-Calls = search (calls_rules, move_to-Calls) depth 12

  on_locked-Calls : Calls (IsNeutral n) (on_locked m)
  unfolding on_locked
  on_locked-Calls = search (calls_rules, move_to-Calls) depth 12

  -- With the lock before, without it after.
  abbrev pub Frees : Prog (Unit {0}) → Type 0
  Frees p = Keeps n (λ b u. b ≡ false) (λ b. b ≡ false) true p

  -- Without it before and after.
  abbrev pub Goes : Prog (Unit {0}) → Type 0
  Goes p = Keeps n (λ b u. b ≡ false) (λ b. b ≡ false) false p

  -- The forgiving deletion gives the lock back and does not throw.
  del-Keeps : {E : Bool → Type 0} → Keeps n (λ b u. b ≡ false) E true (Redis.del (processing_key n))
  unfolding Redis.del
  del-Keeps {E} = gives after
    where
      after :
          (r : Result ℕ)
          → Keeps n
              (λ b u. b ≡ false)
              E
              false
              (catch (do settle r; pure (tt {0})) λ e. report Level.error "redis_operation_failed")
      after (ok k) = returns refl
      after (err e) = passes refl (λ u. returns refl)

  from_false :
      (p : Prog (Unit {0})) (b : Bool)
      → b ≡ false
      → Goes p
      → Keeps n (λ d u. d ≡ false) (λ d. d ≡ false) b p
  from_false p b e h = subst (λ d. Keeps n (λ c u. c ≡ false) (λ c. c ≡ false) d p) (sym e) h

  -- What follows the deletion in the `catch` block of the processing.
  abbrev resent : Prog (Unit {0})
  resent =
      let headers = spread m.headers in
      let retry_count = retry_count_of m in
      if leb 1 retry_count
      then (move_to m order_notification_dlq (record headers { retry_count = some retry_count })
          Level.warn "order_notification_moved_to_dlq" "order_notification_dlq_publish_failed")
      else (move_to m order_notification (record headers { retry_count = some (retry_count + 1) })
          Level.log "order_notification_reprocess_scheduled"
          "order_notification_reprocess_publish_failed")

  resent-Calls : Calls (IsNeutral n) resent
  resent-Calls = search (calls_rules, move_to-Calls) depth 12

  on_processing_failed-Frees : Frees (on_processing_failed m n)
  unfolding on_processing_failed
  on_processing_failed-Frees = passes refl λ u.
      Keeps->>= true (Redis.del (processing_key n)) (λ v. resent) del-Keeps
        (λ b v e. from_false resent b e (neutral-Keeps false resent resent-Calls))

  -- What follows the notification.
  abbrev finished : Prog (Unit {0})
  finished = do
    measure (consumer_step "notification")
    Redis.set (processed_key n) true_text 86400
    measure (consumer_step "mark_processed")
    Redis.del (processing_key n)
    measure (consumer_step "release_processing_lock")
    call (ack m) settle
    measure (consumer_step "total")

  abbrev Processes : Bool → Prog (Unit {0}) → Type 0
  Processes b p = Keeps n (λ d u. d ≡ false) (λ d. d ≡ true) b p

  set-Calls : Calls (IsNeutral n) (Redis.set (processed_key n) true_text 86400)
  unfolding Redis.set
  set-Calls = search calls_rules depth 12

  released-Processes :
      (b : Bool)
      → b ≡ false
      → Processes b (do
        measure (consumer_step "release_processing_lock")
        call (ack m) settle
        measure (consumer_step "total"))
  released-Processes false e = passes refl λ u. acks (passes refl λ v. returns refl)
  released-Processes true e = cc

  stored-Processes :
      (b : Bool)
      → b ≡ true
      → Processes b (do
        measure (consumer_step "mark_processed")
        Redis.del (processing_key n)
        measure (consumer_step "release_processing_lock")
        call (ack m) settle
        measure (consumer_step "total"))
  stored-Processes true e = passes refl λ u.
      Keeps->>= true (Redis.del (processing_key n)) _ del-Keeps (λ b v f. released-Processes b f)
  stored-Processes false e = cc

  finished-Processes : Processes true finished
  finished-Processes = passes refl λ u.
      Keeps->>= true (Redis.set (processed_key n) true_text 86400) _
        (neutral-Keeps true (Redis.set (processed_key n) true_text 86400) set-Calls)
        (λ b v e. stored-Processes b e)

  notified-Processes : (r : Result (Unit {0})) → Processes true (do settle r; finished)
  notified-Processes (ok u) = finished-Processes
  notified-Processes (err e) = rejects refl

  process-Processes : Processes true (process m n)
  unfolding process
  process-Processes = notifies notified-Processes

  -- With the lock exactly if the check says that it was acquired.
  abbrev Checked : Bool → Check → Type 0
  Checked b returned = b ≡ false
  Checked b (acquired a) = b ≡ a

  acquired-Keeps :
      (r : Result (Option CacheText))
      → Keeps n Checked
          (λ b. b ≡ false)
          (got r)
          (do
            taken ← (do result ← settle r; pure (is_ok_text result))
            measure (consumer_step "processing_lock")
            pure (acquired taken))
  acquired-Keeps (ok v) = passes refl λ u. returns refl
  acquired-Keeps (err e) = rejects refl

  -- What follows the look for the mark of an order that has been processed.
  abbrev after_look : Bool → Prog Check
  unfolding Redis.set_if_absent_strict
  after_look is_processed =
      if is_processed
      then (do
        report Level.log "order_notification_duplicate_skipped"
        call (ack m) settle
        pure returned)
      else do
        got ← Redis.set_if_absent_strict (processing_key n) true_text 30
        measure (consumer_step "processing_lock")
        pure (acquired got)

  after_look-Keeps : (t : Bool) → Keeps n Checked (λ b. b ≡ false) false (after_look t)
  unfolding Redis.set_if_absent_strict
  after_look-Keeps true = passes refl λ x. acks (returns refl)
  after_look-Keeps false = takes acquired-Keeps

  looked-Keeps :
      (r : Result (Option CacheText))
      → Keeps n Checked
          (λ b. b ≡ false)
          false
          (do
            already_processed ← settle r
            measure (consumer_step "processed_check")
            after_look (is_truthy already_processed))
  looked-Keeps (err e) = rejects refl
  looked-Keeps (ok v) = passes refl λ u. after_look-Keeps (is_truthy v)

  check_duplicate-Keeps : Keeps n Checked (λ b. b ≡ false) false (check_duplicate m n)
  unfolding check_duplicate Redis.get_strict
  check_duplicate-Keeps = passes refl looked-Keeps

  after_check-Keeps :
      (b : Bool) (c : Check)
      → Checked b c
      → Keeps n (λ d u. d ≡ false) (λ d. d ≡ false) b (after_check m n c)
  after_check-Keeps b returned e = returns e
  after_check-Keeps false (acquired false) e = neutral-Keeps false (on_locked m) on_locked-Calls
  after_check-Keeps true (acquired true) e =
      Keeps-catch true (process m n) _ process-Processes (λ b x f. failed b x f)
    where
      failed :
          (b : Bool) (x : Error)
          → b ≡ true
          → Keeps n (λ d u. d ≡ false) (λ d. d ≡ false) b (on_processing_failed m n)
      failed true x f = on_processing_failed-Frees
      failed false x f = cc
  after_check-Keeps true (acquired false) e = cc
  after_check-Keeps false (acquired true) e = cc

  handle_order-Goes : Goes (handle_order m n)
  unfolding handle_order
  handle_order-Goes =
      Keeps->>= false (catch (check_duplicate m n) λ e. do on_check_failed m; pure returned)
        (after_check m n)
        (Keeps-catch false (check_duplicate m n) _ check_duplicate-Keeps (λ b e f. failed b f))
        after_check-Keeps
    where
      failed :
          (b : Bool)
          → b ≡ false
          → Keeps n Checked (λ d. d ≡ false) b (do on_check_failed m; pure returned)
      failed false f =
          Keeps->>= false (on_check_failed m) _
            (neutral-Keeps false (on_check_failed m) on_check_failed-Calls) (λ b u e. returns e)
      failed true f = cc

  -- The handler of a message about the order.
  pub handle_message-Goes :
      (request_id : String) → m.content ≡ notification n request_id → Goes (handle_message m)
  unfolding handle_message
  handle_message-Goes request_id e =
      subst (λ c. Goes (handle_content m c)) (sym e) handle_order-Goes
