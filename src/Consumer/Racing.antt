-- ===== src/Consumer/Racing.antt =====
-- What the lock of an order does not keep from happening: the handler looks for the mark of a processed
-- order before it takes the lock, and not again with the lock.
use flash_sale_lab.Base.{
  ℕ, ◌+◌, ◌≡◌, refl, Bool, true, false, Option, none, some, is_some, List, [], ◌∷◌, if◌then◌else◌,
  String, str_eq, ◌==◌, ◌&&◌, subst, sym, arith,
}
use flash_sale_lab.Base.Json.{end}
use flash_sale_lab.Io.{error, ok, err, pure}
use flash_sale_lab.Io.Tasks.{interleave}
use flash_sale_lab.Platform.{
  Call, Reply, LocalCall, LocalReply, log_event, metric, inject_trace, start_span, end_span,
  load_active, store_active, load_channel, load_connection, now, random_uuid, active_span,
  set_header, load_status, observe_request, log_request, local, statement, transaction, query_one,
  redis_get, redis_set, redis_set_nx, redis_del, redis_ping, redis_is_open, redis_connect,
  redis_quit, send_to_queue, wait_for_confirms, ack, nack, notify,
}
use flash_sale_lab.Platform.Cache.{Key, CacheText, plain}
use flash_sale_lab.Platform.Broker.{Delivery, notification}
use flash_sale_lab.Redis
use flash_sale_lab.Consumer.Handler.{
  processed_key, processing_key, handle_content, handle_order, check_duplicate, process,
  handle_message,
}
use flash_sale_lab.Consumer.Exclusion.{frees, IsLock, IsAbout, handlers}

-- The two keys of one order, and how often its notification was sent.
pub record Keys : Type 0 where
  pub processed : Option CacheText
  pub processing : Option CacheText
  pub notified : ℕ

abbrev pub unset : Keys
unset = record { processed = none; processing = none; notified = 0 }

abbrev is_key : (ℕ → Bool) → Key → Key → Bool
is_key p key k = str_eq k.template key.template && p k.id

-- What is at a key of the order that the test tells; there is nothing at others.
abbrev value_at : (ℕ → Bool) → Key → Keys → Option CacheText
value_at p k s =
    if is_key p (processed_key 0) k
    then s.processed
    else (if is_key p (processing_key 0) k then s.processing else none)

abbrev with_value : (ℕ → Bool) → Key → Option CacheText → Keys → Keys
with_value p k v s =
    if is_key p (processed_key 0) k
    then record s { processed = v }
    else (if is_key p (processing_key 0) k then record s { processing = v } else s)

abbrev pub quiet : (l : LocalCall) → LocalReply l
quiet (log_event l e) = tt
quiet (metric m) = tt
quiet inject_trace = end
quiet (start_span n tc) = tt
quiet end_span = tt
quiet load_active = 0
quiet (store_active n) = tt
quiet load_channel = true
quiet load_connection = true
quiet now = 0
quiet random_uuid = ""
quiet active_span = none
quiet (set_header n v) = tt
quiet load_status = 200
quiet (observe_request m r s l) = tt
quiet (log_request l e c) = tt

-- A Redis that keeps the keys of the order that the test tells as it documents, and lets none expire, and a broker that takes everything. The
-- database is not asked.
abbrev pub order_env : (ℕ → Bool) → (c : Call) → Keys → Reply c × Keys
order_env p (redis_get k) s = (ok (value_at p k s), s)
order_env p (redis_set k v ttl) s = (ok (some (plain "OK")), with_value p k (some v) s)
order_env p (redis_set_nx k v ttl) s =
    if is_some (value_at p k s)
    then (ok none, s)
    else (ok (some (plain "OK")), with_value p k (some v) s)
order_env p (redis_del k) s = (ok 1, with_value p k none s)
order_env p redis_ping s = (ok (plain "PONG"), s)
order_env p redis_is_open s = (true, s)
order_env p redis_connect s = (ok tt, s)
order_env p redis_quit s = (ok tt, s)
order_env p (local l) s = (quiet l, s)
order_env p (statement q) s = (err (error "not asked"), s)
order_env p (transaction body) s = (err (error "not asked"), s)
order_env p query_one s = (err (error "not asked"), s)
order_env p (send_to_queue q c h) s = (ok true, s)
order_env p wait_for_confirms s = (ok tt, s)
order_env p (ack d) s = (ok tt, s)
order_env p (nack d) s = (ok tt, s)
order_env p (notify ms) s = (ok tt, record s { notified = s.notified + 1 })

abbrev pub is_locked : Keys → Bool
is_locked s = is_some s.processing

pub order_env-IsLock : (n : ℕ) → IsLock (order_env (λ j. j == n)) is_locked n
order_env-IsLock n = record {
  taken = λ v ttl s h. ground arith;
  lasts = λ c s f h. lasting c s f h;
  acked = λ d s. refl;
}
  where
    lasting :
        (c : Call) (s : Keys)
        → frees n c ≡ false
        → is_locked s ≡ true
        → is_locked (order_env (λ j. j == n) c s).1 ≡ true
    lasting (redis_set k v ttl) s f h = ground arith
    lasting (redis_set_nx k v ttl) s f h = ground arith
    lasting (redis_del k) s f h = ground arith
    lasting _ s f h = h

-- The second handler looks for the mark, the first does all its work, and the second goes on.
abbrev pub overtaking : List ℕ
overtaking =
    1 ∷ 1 ∷ 0 ∷ 0 ∷ 0 ∷ 0 ∷ 0 ∷ 0 ∷ 0 ∷ 0 ∷ 0 ∷ 0 ∷ 0 ∷ 0 ∷ 1 ∷ 1 ∷ 1 ∷ 1 ∷ 1 ∷ 1 ∷ 1 ∷ 1 ∷ 1 ∷ 1
    ∷ []

overtaken :
    (a b : Delivery) (n : ℕ) (r q : String)
    → let x =
        interleave
          (order_env (λ j. true))
          overtaking
          (handle_content a (notification n r) ∷ handle_content b (notification n q) ∷ [])
          unset in
      (x.0 ≡ pure tt ∷ pure tt ∷ []) × (x.1.notified ≡ 2)
unfolding handle_order check_duplicate process Redis.get_strict Redis.set_if_absent_strict Redis.set
    Redis.del
overtaken a b n r q = (refl, refl)

-- Two handlers of deliveries about the same order, with a Redis and a broker that serve every call and
-- let no key expire: there is an order of their calls in which both end normally and both have sent the
-- notification.
pub notifies_twice :
    (a b : Delivery) (n : ℕ)
    → IsAbout n a
    → IsAbout n b
    → (schedule : List ℕ) × (let x =
          interleave (order_env (λ j. true)) schedule (handlers (a ∷ b ∷ [])) unset in
        (x.0 ≡ pure tt ∷ pure tt ∷ []) × (x.1.notified ≡ 2))
unfolding handle_message
notifies_twice a b n (r, e) (q, f) = (
  overtaking,
  subst
      (λ c.
        let x =
          interleave (order_env (λ j. true)) overtaking
            (handle_content a c ∷ handle_content b b.content ∷ []) unset in
        (x.0 ≡ pure tt ∷ pure tt ∷ []) × (x.1.notified ≡ 2))
      (sym e)
      (subst
        (λ c.
          let x =
            interleave (order_env (λ j. true)) overtaking
              (handle_content a (notification n r) ∷ handle_content b c ∷ []) unset in
          (x.0 ≡ pure tt ∷ pure tt ∷ []) × (x.1.notified ≡ 2))
        (sym f) (overtaken a b n r q)),
)
