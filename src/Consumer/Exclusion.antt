-- ===== src/Consumer/Exclusion.antt =====
-- That the handlers of one order notify one at a time.
use flash_sale_lab.Base.{
  ℕ, zero, suc, ◌+◌, ◌≤◌, ◌≡◌, refl, Bool, true, false, List, [], ◌∷◌, All, countb, one_if, arith,
  subst, sym, String,
}
use flash_sale_lab.Io.{ok, pure, throw, call}
use flash_sale_lab.Io.Tasks.{advance, step, interleave}
use flash_sale_lab.Platform.{Call, Reply, Prog, redis_set_nx, redis_del, ack, notify}
use flash_sale_lab.Platform.Cache.{CacheText, key_eq}
use flash_sale_lab.Platform.Broker.{Delivery, notification}
use flash_sale_lab.Consumer.Handler.{processing_key, handle_message}
use flash_sale_lab.Consumer.Locking.{
  got, is_neutral, Keeps, returns, rejects, takes, gives, notifies, acks, passes,
}
use flash_sale_lab.Consumer.Locking.Handled.{handle_message-Goes}

-- The deletion of the lock of an order.
abbrev pub frees : ℕ → Call → Bool
frees n (redis_del k) = key_eq k (processing_key n)
frees n _ = false

-- What is relied on about the lock of an order, whose key is there in a world or not: Redis sets it for
-- a caller only if it is not there; it stays until it is deleted, so it does not expire; and an
-- acknowledgement does not throw.
pub record IsLock {W : Type 0} (env : (c : Call) → W → Reply c × W) (held : W → Bool) (n : ℕ)
    : Type 0 where
  pub taken :
      (v : CacheText) (ttl : ℕ) (w : W)
      → got (env (redis_set_nx (processing_key n) v ttl) w).0 ≡ true
      → (held w ≡ false) × (held (env (redis_set_nx (processing_key n) v ttl) w).1 ≡ true)
  pub lasts : (c : Call) (w : W) → frees n c ≡ false → held w ≡ true → held (env c w).1 ≡ true
  pub acked : (d : Delivery) (w : W) → (env (ack d) w).0 ≡ ok tt

-- The next call of a task is the notification.
abbrev pub is_notifying : Prog (Unit {0}) → Bool
is_notifying (call (notify ms) k) = true
is_notifying _ = false

-- Tasks that keep to the rules, with the number of those that have the lock.
data Sections (n : ℕ) : ℕ → List (Prog (Unit {0})) → Type 0 where
  none_left : Sections n 0 []
  one_more :
      {b : Bool} {p : Prog (Unit {0})} {m : ℕ} {ps : List (Prog (Unit {0}))}
      → Keeps n (λ d u. d ≡ false) (λ d. d ≡ false) b p
      → Sections n m ps
      → Sections n (one_if b + m) (p ∷ ps)

notifying-within :
    (n : ℕ) (b : Bool) (p : Prog (Unit {0}))
    → Keeps n (λ d u. d ≡ false) (λ d. d ≡ false) b p
    → one_if (is_notifying p) ≤ one_if b
notifying-within n b (pure u) (returns q) = omega arith
notifying-within n b (throw e) (rejects q) = omega arith
notifying-within n false (call (redis_set_nx k v ttl) f) (takes g) = omega arith
notifying-within n true (call (redis_del k) f) (gives g) = omega arith
notifying-within n true (call (notify ms) f) (notifies g) = omega arith
notifying-within n b (call (ack d) f) (acks g) = omega arith
notifying-within n b (call (notify ms) f) (passes i g) = cc
notifying-within n b (call _ f) (passes i g) = omega arith

notifying-Sections :
    (n m : ℕ) (ps : List (Prog (Unit {0}))) → Sections n m ps → countb is_notifying ps ≤ m
notifying-Sections n m [] none_left = omega arith
notifying-Sections n m (p ∷ ps) (one_more {b} {m = k} g h) =
    ground (arith, notifying-within n b p g, notifying-Sections n k ps h)

module _ {W : Type 0} (env : (c : Call) → W → Reply c × W) (held : W → Bool) (n : ℕ)
    (lock : IsLock env held n) where
  -- One task that has advanced, beside others of which so many have the lock.
  abbrev Advanced : ℕ → Prog (Unit {0}) × W → Type 0
  Advanced others (p, w) =
      (b : Bool) × Keeps n (λ d u. d ≡ false) (λ d. d ≡ false) b p
      × (one_if b + others ≤ one_if (held w))

  takes-Advanced :
      (others : ℕ) (v : CacheText) (ttl : ℕ) (w : W)
      → others ≤ one_if (held w)
      → let (r, u) = env (redis_set_nx (processing_key n) v ttl) w in
        one_if (got r) + others ≤ one_if (held u)
  takes-Advanced others v ttl w h =
      let c = redis_set_nx (processing_key n) v ttl in
      ground (arith, lock.taken v ttl w, lock.lasts c w refl)

  stays :
      (others : ℕ) (b : Bool) (c : Call) (w : W)
      → frees n c ≡ false
      → one_if b + others ≤ one_if (held w)
      → one_if b + others ≤ one_if (held (env c w).1)
  stays others b c w f h = ground (arith, lock.lasts c w f)

  neutral_stays : (c : Call) → is_neutral n c ≡ true → frees n c ≡ false
  neutral_stays (redis_del k) h = ground arith
  neutral_stays _ h = refl

  advance-Advanced :
      (b : Bool) (p : Prog (Unit {0})) (others : ℕ) (w : W)
      → Keeps n (λ d u. d ≡ false) (λ d. d ≡ false) b p
      → one_if b + others ≤ one_if (held w)
      → Advanced others (advance env p w)
  advance-Advanced b (pure u) others w g h = (b, g, h)
  advance-Advanced b (throw e) others w g h = (b, g, h)
  advance-Advanced false (call (redis_set_nx _ v ttl) k) others w (takes g) h =
      let r = (env (redis_set_nx (processing_key n) v ttl) w).0 in
      (got r, g r, takes-Advanced others v ttl w (omega (arith, h)))
  advance-Advanced true (call (redis_del _) k) others w (gives g) h =
      (false, g (env (redis_del (processing_key n)) w).0, ground arith)
  advance-Advanced true (call (notify ms) k) others w (notifies g) h =
      (true, g (env (notify ms) w).0, stays others true (notify ms) w refl h)
  advance-Advanced b (call (ack d) k) others w (acks g) h = (
    b,
    subst (λ r. Keeps n (λ d u. d ≡ false) (λ d. d ≡ false) b (k r)) (sym (lock.acked d w)) g,
    stays others b (ack d) w refl h,
  )
  advance-Advanced b (call c k) others w (passes i g) h =
      (b, g (env c w).0, stays others b c w (neutral_stays c i) h)

  abbrev Holds : ℕ → List (Prog (Unit {0})) × W → Type 0
  Holds others (ps, w) = (m : ℕ) × Sections n m ps × (others + m ≤ one_if (held w))

  step-Holds :
      (i m : ℕ) (ps : List (Prog (Unit {0}))) (others : ℕ) (w : W)
      → Sections n m ps
      → others + m ≤ one_if (held w)
      → Holds others (step env i ps w)
  step-Holds i m [] others w g h = (m, g, h)
  step-Holds zero m (p ∷ ps) others w (one_more {b} {m = k} g gs) h =
      let (d, now, after) = advance-Advanced b p (others + k) w g (omega (arith, h)) in
      (one_if d + k, one_more now gs, omega (arith, after))
  step-Holds (suc i) m (p ∷ ps) others w (one_more {b} {m = k} g gs) h =
      let (j, rest, after) = step-Holds i k ps (others + one_if b) w gs (omega (arith, h)) in
      (one_if b + j, one_more g rest, omega (arith, after))

  interleave-Holds :
      (is : List ℕ) (m : ℕ) (ps : List (Prog (Unit {0}))) (w : W)
      → Sections n m ps
      → m ≤ one_if (held w)
      → Holds 0 (interleave env is ps w)
  interleave-Holds [] m ps w g h = (m, g, omega (arith, h))
  interleave-Holds (i ∷ is) m ps w g h =
      let (k, gs, after) = step-Holds i m ps 0 w g (omega (arith, h)) in
      interleave-Holds is k (step env i ps w).0 (step env i ps w).1 gs (omega (arith, after))

abbrev pub handlers : List Delivery → List (Prog (Unit {0}))
handlers [] = []
handlers (d ∷ ds) = handle_message d ∷ handlers ds

-- A delivery of a message about an order.
abbrev pub IsAbout : ℕ → Delivery → Type 0
IsAbout n d = (request_id : String) × (d.content ≡ notification n request_id)

handlers-Sections : (n : ℕ) (ds : List Delivery) → All (IsAbout n) ds → Sections n 0 (handlers ds)
handlers-Sections n [] h = none_left
handlers-Sections n (d ∷ ds) ((request_id, e), h) =
    one_more (handle_message-Goes n d request_id e) (handlers-Sections n ds h)

-- However the handlers of deliveries about one order interleave, on any number of instances, and
-- whatever else fails: if Redis sets the lock of the order only where it is not set, the lock does not
-- expire, and no acknowledgement throws, then at no time is more than one of them at its notification.
pub interleave_excludes :
    {W : Type 0} (env : (c : Call) → W → Reply c × W) (held : W → Bool) (n : ℕ)
    (lock : IsLock env held n) (deliveries : List Delivery) (schedule : List ℕ) (w : W)
    → All (IsAbout n) deliveries
    → countb is_notifying (interleave env schedule (handlers deliveries) w).0 ≤ 1
interleave_excludes env held n lock deliveries schedule w h =
    let (m, gs, few) =
      interleave-Holds env held n lock schedule 0 (handlers deliveries) w
        (handlers-Sections n deliveries h) (omega arith) in
    let ps = (interleave env schedule (handlers deliveries) w).0 in
    ground (arith, notifying-Sections n m ps gs, few)
