-- ===== src/Consumer/Locking.antt =====
-- The lock of an order in Redis, which a handler takes before it notifies and gives back after it.
pub mod Handled
use flash_sale_lab.Base.{ℕ, ◌≡◌, refl, Bool, true, false, not, ap, subst, sym, arith, Option}
use flash_sale_lab.Io.{Error, Result, ok, err, Io, pure, throw, call, ◌>>=◌, catch}
use flash_sale_lab.Io.Tasks.{Calls, ends, throws, calls}
use flash_sale_lab.Platform.{Call, Reply, Prog, redis_set, redis_set_nx, redis_del, ack, notify}
use flash_sale_lab.Platform.Cache.{Key, key_eq, CacheText, is_ok_text}
use flash_sale_lab.Platform.Broker.{Delivery}
use flash_sale_lab.Consumer.Handler.{processing_key}

-- `set … NX` has written the key.
abbrev pub got : Result (Option CacheText) → Bool
got (ok v) = is_ok_text v
got (err e) = false

-- The calls that neither touch the lock of an order nor notify.
abbrev pub is_neutral : ℕ → Call → Bool
is_neutral n (redis_set k v ttl) = not (key_eq k (processing_key n))
is_neutral n (redis_set_nx k v ttl) = not (key_eq k (processing_key n))
is_neutral n (redis_del k) = not (key_eq k (processing_key n))
is_neutral n (notify ms) = false
is_neutral n _ = true

-- A program that has the lock, or has not, as the truth value says: it takes the lock only without it,
-- and gives it back and notifies only with it. The predicates are on how it ends; an acknowledgement
-- is taken not to throw.
pub data Keeps {A : Type 0} (n : ℕ) (Q : Bool → A → Type 0) (E : Bool → Type 0)
    : Bool → Prog A → Type 0 where
  returns : {b : Bool} {a : A} → Q b a → Keeps n Q E b (pure a)
  rejects : {b : Bool} {e : Error} → E b → Keeps n Q E b (throw e)
  takes :
      {v : CacheText} {ttl : ℕ} {k : Result (Option CacheText) → Prog A}
      → ((r : Result (Option CacheText)) → Keeps n Q E (got r) (k r))
      → Keeps n Q E false (call (redis_set_nx (processing_key n) v ttl) k)
  gives :
      {k : Result ℕ → Prog A}
      → ((r : Result ℕ) → Keeps n Q E false (k r))
      → Keeps n Q E true (call (redis_del (processing_key n)) k)
  notifies :
      {ms : ℕ} {k : Result (Unit {0}) → Prog A}
      → ((r : Result (Unit {0})) → Keeps n Q E true (k r))
      → Keeps n Q E true (call (notify ms) k)
  acks :
      {b : Bool} {d : Delivery} {k : Result (Unit {0}) → Prog A}
      → Keeps n Q E b (k (ok tt))
      → Keeps n Q E b (call (ack d) k)
  passes :
      {b : Bool} {c : Call} {k : Reply c → Prog A}
      → is_neutral n c ≡ true
      → ((r : Reply c) → Keeps n Q E b (k r))
      → Keeps n Q E b (call c k)

module _ {A B : Type 0} {n : ℕ} {Q : Bool → A → Type 0} {R : Bool → B → Type 0}
    {E : Bool → Type 0} where
  pub Keeps->>= :
      (b : Bool) (m : Prog A) (f : A → Prog B)
      → Keeps n Q E b m
      → ((d : Bool) (a : A) → Q d a → Keeps n R E d (f a))
      → Keeps n R E b (m >>= f)
  Keeps->>= b (pure a) f (returns q) h = h b a q
  Keeps->>= b (throw e) f (rejects q) h = rejects q
  Keeps->>= false (call (redis_set_nx _ v ttl) k) f (takes g) h =
      takes (λ r. Keeps->>= (got r) (k r) f (g r) h)
  Keeps->>= true (call (redis_del _) k) f (gives g) h = gives (λ r. Keeps->>= false (k r) f (g r) h)
  Keeps->>= true (call (notify ms) k) f (notifies g) h =
      notifies (λ r. Keeps->>= true (k r) f (g r) h)
  Keeps->>= b (call (ack d) k) f (acks g) h = acks (Keeps->>= b (k (ok tt)) f g h)
  Keeps->>= b (call c k) f (passes i g) h = passes i (λ r. Keeps->>= b (k r) f (g r) h)

module _ {A : Type 0} {n : ℕ} {Q : Bool → A → Type 0} {E F : Bool → Type 0} where
  pub Keeps-catch :
      (b : Bool) (m : Prog A) (h : Error → Prog A)
      → Keeps n Q E b m
      → ((d : Bool) (e : Error) → E d → Keeps n Q F d (h e))
      → Keeps n Q F b (catch m h)
  Keeps-catch b (pure a) h (returns q) g = returns q
  Keeps-catch b (throw e) h (rejects q) g = g b e q
  Keeps-catch false (call (redis_set_nx _ v ttl) k) h (takes f) g =
      takes (λ r. Keeps-catch (got r) (k r) h (f r) g)
  Keeps-catch true (call (redis_del _) k) h (gives f) g =
      gives (λ r. Keeps-catch false (k r) h (f r) g)
  Keeps-catch true (call (notify ms) k) h (notifies f) g =
      notifies (λ r. Keeps-catch true (k r) h (f r) g)
  Keeps-catch b (call (ack d) k) h (acks f) g = acks (Keeps-catch b (k (ok tt)) h f g)
  Keeps-catch b (call c k) h (passes i f) g = passes i (λ r. Keeps-catch b (k r) h (f r) g)

abbrev pub IsNeutral : ℕ → Call → Type 0
IsNeutral n c = is_neutral n c ≡ true

-- A program of neutral calls ends as it began.
pub neutral-Keeps :
    {A : Type 0} {n : ℕ} (b : Bool) (m : Prog A)
    → Calls (IsNeutral n) m
    → Keeps n (λ d a. d ≡ b) (λ d. d ≡ b) b m
neutral-Keeps b (pure a) h = returns refl
neutral-Keeps b (throw e) h = rejects refl
neutral-Keeps b (call c k) (calls i h) = passes i (λ r. neutral-Keeps b (k r) (h r))
