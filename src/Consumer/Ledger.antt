-- ===== src/Consumer/Ledger.antt =====
-- What a broker and a user see of the handler's work on one delivery: the copies that were published
-- and confirmed, the acknowledgements and returns, the notifications. Each acknowledgement is entered
-- with whether it was safe when it was made: the order was seen to be processed, or its notification
-- was sent, or a copy of the message was confirmed on a queue.
use flash_sale_lab.Base.{
  ℕ, ◌+◌, Bool, true, false, ◌||◌, Option, List, [], ◌∷◌, ◌++◌, ltb, if◌then◌else◌,
}
use flash_sale_lab.Io.{Result, ok, err}
use flash_sale_lab.Platform.{
  Call, Reply, redis_get, send_to_queue, wait_for_confirms, ack, nack, notify,
}
use flash_sale_lab.Platform.Broker.{Queue, Content, Headers}
use flash_sale_lab.Platform.Cache.{Key, key_eq, is_truthy, CacheText}

pub record Copy : Type 0 where
  pub queue : Queue
  pub content : Content
  pub headers : Headers

pub record Ledger : Type 0 where
  pub sent : List Copy
  pub confirmed : List Copy
  pub acks : List Bool
  pub nacks : ℕ
  pub notified : ℕ
  pub seen : Bool

abbrev pub blank : Ledger
blank = record { sent = []; confirmed = []; acks = []; nacks = 0; notified = 0; seen = false }

abbrev pub is_nonempty : List Copy → Bool
is_nonempty [] = false
is_nonempty (c ∷ cs) = true

abbrev pub is_safe : Ledger → Bool
is_safe l = l.seen || (ltb 0 l.notified || is_nonempty l.confirmed)

abbrev on_ok : {A : Type 0} → Result A → Ledger → Ledger → Ledger
on_ok (ok a) new old = new
on_ok (err e) new old = old

-- `key` is the key under which the delivery's order is marked as processed.
abbrev see : Key → Key → Result (Option CacheText) → Ledger → Ledger
see key k (ok v) l = if key_eq key k then record l { seen = l.seen || is_truthy v } else l
see key k (err e) l = l

abbrev pub enter : Key → (c : Call) → Reply c → Ledger → Ledger
enter key (send_to_queue q c h) r l =
    on_ok r (record l { sent = record { queue = q; content = c; headers = h } ∷ l.sent }) l
enter key wait_for_confirms r l =
    on_ok r (record l { sent = []; confirmed = l.sent ++ l.confirmed }) l
enter key (ack d) r l = on_ok r (record l { acks = is_safe l ∷ l.acks }) l
enter key (nack d) r l = on_ok r (record l { nacks = l.nacks + 1 }) l
enter key (notify ms) r l = on_ok r (record l { notified = l.notified + 1 }) l
enter key (redis_get k) r l = see key k r l
enter key _ r l = l

-- An environment that keeps the ledger beside its world.
abbrev pub kept :
    {W : Type 0}
    → Key
    → ((c : Call) → W → Reply c × W)
    → (c : Call) → W × Ledger
    → Reply c × (W × Ledger)
kept key env c (w, l) = let (r, w') = env c w in (r, (w', enter key c r l))
