-- ===== src/Consumer/Redelivery.antt =====
-- A message cannot go round for ever: the copies that the handler makes of it come back a bounded
-- number of times.
use flash_sale_lab.Base.{
  ℕ, zero, suc, Option, ◌+◌, ◌≤◌, ◌≡◌, ◌≢◌, String, some, [], ◌∷◌, arith, subst, All,
}
use flash_sale_lab.Io.Run.{run}
use flash_sale_lab.Platform.{Call, Reply}
use flash_sale_lab.Platform.Broker.{
  order_notification_dlq, notification, Delivery, Headers, no_headers, spread,
}
use flash_sale_lab.Consumer.Ledger.{Copy, Ledger, blank, kept}
use flash_sale_lab.Consumer.Handler.{
  retry_count_of, processing_retry_count_of, processed_key, handle_message,
}
use flash_sale_lab.Consumer.Settling.{Forwards, handle_message-IsSettled}

-- The ledger that the handler leaves of a delivery of the order's message.
abbrev pub left_by : {W : Type 0} → ((c : Call) → W → Reply c × W) → Delivery → ℕ → W → Ledger
left_by env m order_id w =
    (run (kept (processed_key order_id) env) (handle_message m) (w, blank)).1.1

-- The headers that the handler counts in; the others may differ, such as `x-death`, which RabbitMQ adds
-- where a queue's time to live puts a message back.
abbrev pub SameCounts : Headers → Headers → Type 0
SameCounts h g =
    (h.retry_count ≡ g.retry_count) × (h.processing_retry_count ≡ g.processing_retry_count)

-- A message of an order on its way: the n-th time that it comes back, each time as a confirmed copy
-- that was not put among the dead letters, with the counts that the copy has. In between, the
-- environment may change at will.
pub data Comes (order_id : ℕ) (request_id : String) : ℕ → Delivery → Type 1 where
  first :
      (tag : ℕ) (headers : Option Headers)
      → SameCounts (spread headers) no_headers
      → Comes order_id request_id zero
          (record { tag = tag; content = notification order_id request_id; headers = headers })
  again :
      {n : ℕ} {m : Delivery}
      → Comes order_id request_id n m
      → {W : Type 0} (env : (c : Call) → W → Reply c × W) (w : W) (c : Copy) (tag : ℕ)
      → (left_by env m order_id w).confirmed ≡ c ∷ []
      → c.queue ≢ order_notification_dlq
      → (headers : Headers) → SameCounts headers c.headers
      → Comes order_id request_id
          (suc n)
          (record { tag = tag; content = c.content; headers = some headers })

-- What n returns have cost.
record Counts (order_id : ℕ) (request_id : String) (n : ℕ) (m : Delivery) : Type 0 where
  content : m.content ≡ notification order_id request_id
  counted : retry_count_of m + processing_retry_count_of m ≡ n
  retries : retry_count_of m ≤ 3
  processing_retries : processing_retry_count_of m ≤ 3

-- One more return raises one of the two counts, which was below its limit.
forward-Counts :
    (order_id : ℕ) (request_id : String) (n : ℕ) (m : Delivery) (c : Copy) (tag : ℕ)
    → Counts order_id request_id n m
    → (c.content ≡ m.content) × Forwards m c
    → c.queue ≢ order_notification_dlq
    → (headers : Headers) → SameCounts headers c.headers
    → Counts order_id request_id
        (suc n)
        (record { tag = tag; content = c.content; headers = some headers })
forward-Counts order_id request_id n m c tag counts (same, forwards) alive headers counted =
    ground arith

Comes-Counts :
    {order_id : ℕ} {request_id : String} {n : ℕ} {m : Delivery}
    → Comes order_id request_id n m
    → Counts order_id request_id n m
Comes-Counts (first tag headers e) = ground arith
Comes-Counts {order_id} {request_id}
      (again {n = k} {m = m} before env w c tag made alive headers e) =
    let counts = Comes-Counts before in
    let settled = (handle_message-IsSettled env m order_id request_id w counts.content).1 in
    let copies = subst (All (λ d. (d.content ≡ m.content) × Forwards m d)) made settled.copies in
    forward-Counts order_id request_id k m c tag counts copies.0 alive headers e

-- A message without retry counts in its headers, whatever else they hold, comes back to the consumer at
-- most six times, whatever fails and whatever else the broker changes in the headers of its copies:
-- after that each copy goes to the dead letters. (Returns by the broker, after a nack or a lost connection,
-- are the same delivery again and are not counted.)
pub returns_bounded :
    {order_id : ℕ} {request_id : String} {n : ℕ} {m : Delivery}
    → Comes order_id request_id n m
    → n ≤ 6
returns_bounded comes = omega (arith, Comes-Counts comes)
