-- ===== src/Outbox/Telling/Cycle.antt =====
-- That a publishing cycle marks an event as SENT only after the confirm of what its row tells.
use flash_sale_lab.Base.{
  some, ℕ, ◌+◌, ◌≡◌, refl, subst, Bool, true, false, List, [], ◌∷◌, length, ltb, All, All-map, Any,
  arith, if◌then◌else◌, inl, inr,
}
use flash_sale_lab.Platform.Database.{pending}
use flash_sale_lab.Io.{Result, ok, err, pure, throw, call, ◌>>=◌, ◌>>◌, finally, settle}
use flash_sale_lab.Io.Tasks.{Calls, ends, throws, calls_rules}
use flash_sale_lab.Platform.{Prog, local, store_active, direct, inc, observe_count, measure}
use flash_sale_lab.Platform.Database.{OutboxEvent}
use flash_sale_lab.Platform.Laws.Bodies.{ok-injective}
use flash_sale_lab.Outbox.Repository.{
  PendingOutboxEvent, read_event, read_events, cons_ok, find_pending,
}
use flash_sale_lab.Outbox.Publisher.{publish_events, publish_batch, leave, publish_pending}
use flash_sale_lab.Outbox.Ledger.{Ledger, enter, enter_found}
use flash_sale_lab.Outbox.Telling.{
  Unmarking, unmarking, other, unmarked, Tells, returns, rejects, asks, Anything, Tells-finally,
  Unmarking-Tells,
}
use flash_sale_lab.Outbox.Telling.Event.{Found, IsRow, publish_events-Tells}

-- What was read of a row is what it tells.
read-told : (x : OutboxEvent) (e : PendingOutboxEvent) → read_event x ≡ ok e → IsRow e x
unfolding read_event
read-told x e h = ground (arith, h)

cons_ok-rows :
    (x : OutboxEvent) (rows : List OutboxEvent) (r : Result PendingOutboxEvent)
    (rs : Result (List PendingOutboxEvent)) (es : List PendingOutboxEvent)
    → read_event x ≡ r
    → ((ds : List PendingOutboxEvent) → rs ≡ ok ds → All (λ e. Any (IsRow e) rows) ds)
    → cons_ok r rs ≡ ok es
    → All (λ e. Any (IsRow e) (x ∷ rows)) es
cons_ok-rows x rows (err y) rs es read rest h = cc
cons_ok-rows x rows (ok d) (err y) es read rest h = cc
cons_ok-rows x rows (ok d) (ok ds) es read rest h =
    subst (All (λ e. Any (IsRow e) (x ∷ rows))) (ok-injective h)
      (inl (read-told x d read), All-map (λ e here. inr here) ds (rest ds refl))

read_events-rows :
    (rows : List OutboxEvent) (es : List PendingOutboxEvent)
    → read_events rows ≡ ok es
    → All (λ e. Any (IsRow e) rows) es
unfolding read_events
read_events-rows [] es h = subst (All (λ e. Any (IsRow e) [])) (ok-injective h) tt
read_events-rows (x ∷ rows) es h =
    cons_ok-rows x rows (read_event x) (read_events rows) es refl (read_events-rows rows) h

-- The batch, from the reading of the rows on.
read-Tells :
    (rows : List OutboxEvent) (r : Result (List PendingOutboxEvent)) (l : Ledger)
    → read_events rows ≡ r
    → Found rows l
    → Tells (Found rows) l (do
      events ← direct (settle r)
      measure (observe_count "outbox_publisher_events" (length events))
      publish_events events)
read-Tells rows (err x) l e f = rejects
read-Tells rows (ok es) l e f =
    asks (unmarked (other refl)) λ u. publish_events-Tells rows es l (read_events-rows rows es e) f

weaken :
    {A : Type 0} {Q : Ledger → Type 0} (p : Prog A) (l : Ledger) → Tells Q l p → Tells Anything l p
weaken (pure a) l (returns q) = returns tt
weaken (throw e) l rejects = rejects
weaken (call c k) l (asks g gs) = asks g (λ r. weaken (k r) (enter c r l) (gs r))

found-Tells :
    (r : Result (List OutboxEvent)) (l : Ledger)
    → Tells Anything (enter_found (some pending) r l) (do
      events ← direct (settle r >>= λ rows. settle (read_events rows))
      measure (observe_count "outbox_publisher_events" (length events))
      publish_events events)
found-Tells (err x) l = rejects
found-Tells (ok rows) l = weaken _ _ (read-Tells rows (read_events rows) _ refl refl)

publish_batch-Tells : (l : Ledger) → Tells Anything l publish_batch
unfolding publish_batch find_pending
publish_batch-Tells l = asks (unmarked (unmarking refl)) λ r. found-Tells r l

leave-Calls :
    {A : Type 0} (last : Prog A) → Calls Unmarking last → Calls Unmarking (leave >>= λ _. last)
unfolding leave
leave-Calls last h = search (calls_rules, other, h) depth 12

cycle-Tells : (l : Ledger) → Tells Anything l (finally publish_batch leave)
cycle-Tells l =
    Tells-finally publish_batch leave l (publish_batch-Tells l)
      (λ u a g. Unmarking-Tells (leave >>= λ _. pure a) u (leave-Calls (pure a) ends))
      (λ u e. Unmarking-Tells (leave >>= λ _. throw e) u (leave-Calls (throw e) throws))

entered-Tells :
    (n : ℕ) (skips : Bool) (l : Ledger)
    → Tells Anything l (
        if skips then measure (inc "outbox_publisher_skipped_total" "") else do
          call (local (store_active (n + 1))) pure
          measure (inc "outbox_publisher_active_executions" "")
          finally publish_batch leave)
entered-Tells n true l = asks (unmarked (other refl)) λ r. returns tt
entered-Tells n false l =
    asks (unmarked (other refl)) λ r. asks (unmarked (other refl)) λ u. cycle-Tells l

pub publish_pending-Tells : (l : Ledger) → Tells Anything l publish_pending
unfolding publish_pending
publish_pending-Tells l = asks (unmarked (other refl)) λ n. entered-Tells n (ltb 0 n) l
