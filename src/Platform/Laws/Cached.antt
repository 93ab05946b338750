-- ===== src/Platform/Laws/Cached.antt =====
-- What the program relies on about Redis, where a property depends on it: a key has a value or none,
-- and a value can expire at any moment.
use flash_sale_lab.Base.{ℕ, ◌≡◌, refl, ◌⊎◌, inr, Bool, true, false, Option, none, some, arith}
use flash_sale_lab.Io.{ok, pure, throw, call}
use flash_sale_lab.Io.Run.{run}
use flash_sale_lab.Io.Tasks.{Calls, calls}
use flash_sale_lab.Platform.{Call, Reply, Prog, redis_get, redis_set, redis_set_nx, redis_del}
use flash_sale_lab.Platform.Cache.{Key, CacheText}

-- The calls that can give a key a value.
abbrev pub is_write : Call → Bool
is_write (redis_set k v ttl) = true
is_write (redis_set_nx k v ttl) = true
is_write _ = false

-- Each key has its value still, or none.
abbrev pub Fades : (Key → Option CacheText) → (Key → Option CacheText) → Type 0
Fades before after = (k : Key) → (after k ≡ none) ⊎ (after k ≡ before k)

pub record IsCache {W : Type 0} (env : (c : Call) → W → Reply c × W)
    (cache : W → Key → Option CacheText) : Type 0 where
  pub get_ok :
      (k : Key) (w : W) (v : Option CacheText)
      → (env (redis_get k) w).0 ≡ ok v
      → (v ≡ none) ⊎ (v ≡ cache w k)
  -- whether the call resolves or not
  pub set_lem :
      (k : Key) (v : CacheText) (ttl : ℕ) (w : W) (j : Key)
      → let after = cache (env (redis_set k v ttl) w).1 in
        (after j ≡ none) ⊎ ((after j ≡ cache w j) ⊎ ((j ≡ k) × (after j ≡ some v)))
  pub del_ok :
      (k : Key) (w : W) (n : ℕ)
      → (env (redis_del k) w).0 ≡ ok n
      → cache (env (redis_del k) w).1 k ≡ none
  pub others_fade : (c : Call) (w : W) → is_write c ≡ false → Fades (cache w) (cache (env c w).1)

Fades-trans : (a b c : Key → Option CacheText) → Fades a b → Fades b c → Fades a c
Fades-trans a b c h k j = ground (arith, h j, k j)

pub reading-Fades :
    {W A : Type 0} (env : (c : Call) → W → Reply c × W) (cache : W → Key → Option CacheText)
    (red : IsCache env cache) (m : Prog A) (w : W)
    → Calls (λ c. is_write c ≡ false) m
    → Fades (cache w) (cache (run env m w).1)
reading-Fades env cache red (pure a) w h = λ k. inr refl
reading-Fades env cache red (throw e) w h = λ k. inr refl
reading-Fades env cache red (call c k) w (calls h hk) =
    Fades-trans _ (cache (env c w).1) _ (red.others_fade c w h)
      (reading-Fades env cache red (k (env c w).0) (env c w).1 (hk (env c w).0))
