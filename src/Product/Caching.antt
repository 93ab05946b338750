-- ===== src/Product/Caching.antt =====
-- What a read of a product through the cache answers.
use flash_sale_lab.Base.{
  ℕ, String, ap, ◌≡◌, refl, sym, subst, ◌∙◌, ◌⊎◌, inl, inr, true, false, Option, none, some, ◌==◌,
  arith, find?,
}
use flash_sale_lab.Io.{Result, Result-cases, ok, err, is_ok, pure, ◌>>=◌, ◌>>◌, settle, catch}
use flash_sale_lab.Io.Run.{run, then_run, run->>=}
use flash_sale_lab.Io.Tasks.{Calls, calls_rules}
use flash_sale_lab.Platform.{
  Call, Reply, statement, direct, redis_get, redis_set, measure, report, inc, Level,
}
use flash_sale_lab.Platform.Cache.{Key, CacheText, product_json, plain}
use flash_sale_lab.Platform.Database.{find_product, update_price}
use flash_sale_lab.Platform.Database
use flash_sale_lab.Platform.Laws.{Tables, IsDatabase}
use flash_sale_lab.Platform.Laws.Local.{IsLocal, local_keeps}
use flash_sale_lab.Platform.Laws.Cached.{is_write, Fades, IsCache, reading-Fades}
use flash_sale_lab.Redis
use flash_sale_lab.Product.{product_key, product_not_found, cache_seconds, fill_cache}

abbrev pub row : ℕ → Tables → Option Database.Product
row n t = find? (λ p. p.id == n) t.products

-- What a cached value may be: nothing, or the row of the tables.
abbrev pub Agrees : Option Database.Product → Option CacheText → Type 0
Agrees found none = Unit
Agrees found (some (product_json p)) = found ≡ some p
Agrees found (some (plain s)) = ⊥

abbrev pub Coherent : Tables → (Key → Option CacheText) → Type 0
Coherent t cache = (n : ℕ) → Agrees (row n t) (cache (product_key n))

-- A read without a cache.
abbrev pub or_missing : Option Database.Product → Result Database.Product
or_missing none = err product_not_found
or_missing (some p) = ok p

pub Fades-Coherent :
    (t : Tables) (a b : Key → Option CacheText) → Fades a b → Coherent t a → Coherent t b
Fades-Coherent t a b f h n = elim (f (product_key n)) [
  | inl e ↦ subst (Agrees (row n t)) (sym e) tt
  | inr e ↦ subst (Agrees (row n t)) (sym e) (h n)
]

pub get-Calls : (k : Key) → Calls (λ c. is_write c ≡ false) (Redis.get k)
unfolding Redis.get
get-Calls k = search calls_rules depth 12

pub get-Local : (k : Key) → Calls IsLocal (Redis.get k)
unfolding Redis.get
get-Local k = search calls_rules depth 12

set-Local : (k : Key) (v : CacheText) (ttl : ℕ) → Calls IsLocal (Redis.set k v ttl)
unfolding Redis.set
set-Local k v ttl = search calls_rules depth 12

module _ {W : Type 0} (env : (c : Call) → W → Reply c × W) (tables : W → Tables)
    (db : IsDatabase env tables) (cache : W → Key → Option CacheText)
    (red : IsCache env cache) where
  abbrev pub IsCoherent : W → Type 0
  IsCoherent w = Coherent (tables w) (cache w)

  -- The end of a read that began in `w`.
  abbrev pub Reads : ℕ → W → Result Database.Product × W → Type 0
  Reads n w x = (x.0 ≡ or_missing (row n (tables w))) × (tables x.1 ≡ tables w) × IsCoherent x.1

  -- The forgiving read of a key ends normally, with what is there or with nothing.
  pub get_value :
      (k : Key) (w : W)
      → (v : Option CacheText) × ((run env (Redis.get k) w).0 ≡ ok v)
        × ((v ≡ none) ⊎ (v ≡ cache w k))
  unfolding Redis.get
  get_value k w = elim (Result-cases (env (redis_get k) w).0) [
    | inl (v, e) ↦ (v, ground (arith, e), red.get_ok k w v e)
    | inr (x, e) ↦ (none, ground (arith, e), inl refl)
  ]

  after_set :
      (operation : String) (r : Result (Option CacheText)) (w : W)
      → let x =
          run env
            (catch
              (do settle r; pure (tt {0}))
              λ e. do
                measure (inc "redis_operation_failures_total" operation)
                report Level.error "redis_operation_failed")
            w in
        (x.0 ≡ ok tt) × Fades (cache w) (cache x.1)
  after_set operation (ok v) w = (refl, λ k. inr refl)
  after_set operation (err e) w = (
    refl,
    reading-Fades env cache red
        (do
          measure (inc "redis_operation_failures_total" operation)
          report Level.error "redis_operation_failed")
        w (search calls_rules depth 8),
  )

  -- A row that is written to the cache agrees with the table.
  written-Coherent :
      (t : Tables) (n ttl : ℕ) (p : Database.Product) (w : W)
      → row n t ≡ some p
      → Coherent t (cache w)
      → Coherent t (cache (env (redis_set (product_key n) (product_json p) ttl) w).1)
  written-Coherent t n ttl p w e h j =
      elim (red.set_lem (product_key n) (product_json p) ttl w (product_key j)) [
        | inl gone ↦ subst (Agrees (row j t)) (sym gone) tt
        | inr (inl same) ↦ subst (Agrees (row j t)) (sym same) (h j)
        | inr (inr (one, written)) ↦
            subst (Agrees (row j t)) (sym written)
              (subst (λ i. row i t ≡ some p) (sym (ap (λ k. k.id) one)) e)
      ]

  set_ok :
      (t : Tables) (n ttl : ℕ) (p : Database.Product) (w : W)
      → row n t ≡ some p
      → Coherent t (cache w)
      → let x = run env (Redis.set (product_key n) (product_json p) ttl) w in
        (x.0 ≡ ok tt) × Coherent t (cache x.1)
  unfolding Redis.set
  set_ok t n ttl p w e h =
      let (r, w1) = env (redis_set (product_key n) (product_json p) ttl) w in
      let (ends, fades) = after_set "set" r w1 in
      (ends, Fades-Coherent t _ _ fades (written-Coherent t n ttl p w e h))

  -- What follows a miss, once the database has answered with the row.
  after_row :
      (p : Database.Product) (x : Result (Unit {0}) × W)
      → x.0 ≡ ok tt
      → then_run env (λ u. pure p) x ≡ (ok p, x.1)
  after_row p (ok u, w) e = refl
  after_row p (err x, w) e = cc

  fill_cache-Reads :
      (n : ℕ) (o : Option Database.Product) (w : W)
      → o ≡ row n (tables w)
      → IsCoherent w
      → Reads n w (run env (fill_cache n o) w)
  unfolding fill_cache
  fill_cache-Reads n none w e h = (ap or_missing e, refl, h)
  fill_cache-Reads n (some p) w e h =
      let k = product_key n in
      let v = product_json p in
      let after = (run env (Redis.set k v cache_seconds) w).1 in
      let (ends, coherent) = set_ok (tables w) n cache_seconds p w (sym e) h in
      let same =
        local_keeps env tables db (Redis.set k v cache_seconds) w (set-Local k v cache_seconds) in
      rw
        (
          run->>= env (Redis.set k v cache_seconds) (λ u. pure p) w,
          after_row p (run env (Redis.set k v cache_seconds) w) ends,
        )
        (ap or_missing e, same, subst (λ t. Coherent t (cache after)) (sym same) coherent)

  pub still-IsCoherent :
      (u w : W) → tables u ≡ tables w → Fades (cache w) (cache u) → IsCoherent w → IsCoherent u
  still-IsCoherent u w same fades h =
      subst (λ t. Coherent t (cache u)) (sym same)
        (Fades-Coherent (tables w) (cache w) (cache u) fades h)

  pub Reads-from :
      (n : ℕ) (u w : W) (x : Result Database.Product × W)
      → tables u ≡ tables w
      → Reads n u x
      → Reads n w x
  Reads-from n u w x same h = (h.0 ∙ ap (λ t. or_missing (row n t)) same, h.1 ∙ same, h.2)

  -- The database's answer to a search.
  pub answered-Reads :
      (n : ℕ) (w : W) (r : Result (Option Database.Product))
      → (env (statement (find_product n)) w).0 ≡ r
      → is_ok r ≡ true
      → IsCoherent w
      → Reads n w (
          run env
            (do product ← direct (settle r); fill_cache n product)
            (env (statement (find_product n)) w).1)
  answered-Reads n w (ok o) e up h =
      let w1 = (env (statement (find_product n)) w).1 in
      let (found, same) = db.statement_ok (find_product n) w o e in
      Reads-from n w1 w _ same (
        fill_cache-Reads n o w1 (found ∙ ap (row n) (sym same))
          (still-IsCoherent w1 w same (red.others_fade (statement (find_product n)) w refl) h))
  answered-Reads n w (err x) e up h = cc
