-- ===== src/Product/Refreshing.antt =====
-- What a change of a price leaves in the cache.
use flash_sale_lab.Base.{
  ℕ, ◌≡◌, refl, sym, subst, ◌∙◌, inl, inr, Bool-cases, true, false, List, [], ◌∷◌, ◌==◌, ==_iff,
  arith, find?, update_where, Option, none,
}
use flash_sale_lab.Base.Int.{ℤ}
use flash_sale_lab.Io.{Result, ok, err, is_ok, pure, ◌>>=◌, ◌>>◌, settle, catch}
use flash_sale_lab.Io.Run.{run}
use flash_sale_lab.Platform.{Call, Reply, statement, direct, redis_del, report, Level}
use flash_sale_lab.Platform.Cache.{Key, CacheText}
use flash_sale_lab.Platform.Database.{update_price}
use flash_sale_lab.Platform.Database
use flash_sale_lab.Platform.Laws.{Tables, IsDatabase}
use flash_sale_lab.Platform.Laws.Cached.{IsCache}
use flash_sale_lab.Redis
use flash_sale_lab.Product.{product_key, update_price_of}
use flash_sale_lab.Product.Caching.{row, Agrees, Coherent, Fades-Coherent, still-IsCoherent}

abbrev priced : ℕ → ℤ → Tables → Tables
priced n p t = record t {
  products = update_where (λ q. q.id == n) (λ q. record q { price = p }) t.products;
}

row_other :
    (j n : ℕ) (p : ℤ) (products : List Database.Product)
    → (j == n) ≡ false
    → find? (λ q. q.id == j) (update_where (λ q. q.id == n) (λ q. record q { price = p }) products)
      ≡ find? (λ q. q.id == j) products
row_other j n p [] h = refl
row_other j n p (q ∷ products) h = ground (arith, row_other j n p products h)

-- The new price agrees with a cache that has nothing at its key.
priced-Coherent :
    (n : ℕ) (p : ℤ) (t : Tables) (cache : Key → Option CacheText)
    → cache (product_key n) ≡ none
    → Coherent t cache
    → Coherent (priced n p t) cache
priced-Coherent n p t cache gone h j = elim (Bool-cases (j == n)) [
  | inl e ↦
      subst (λ i. Agrees (row i (priced n p t)) (cache (product_key i))) (sym ((==_iff j n).0 e))
        (subst (Agrees (row n (priced n p t))) (sym gone) tt)
  | inr e ↦ subst (λ o. Agrees o (cache (product_key j))) (sym (row_other j n p t.products e)) (h j)
]

module _ {W : Type 0} (env : (c : Call) → W → Reply c × W) (tables : W → Tables)
    (db : IsDatabase env tables) (cache : W → Key → Option CacheText) (red : IsCache env cache)
    (n : ℕ) (deletes : (u : W) → is_ok (env (redis_del (product_key n)) u).0 ≡ true) where
  -- The reply to the deletion, which resolves.
  after_del :
      (q : Database.Product) (r : Result ℕ) (w : W)
      → is_ok r ≡ true
      → run env
          (do
            catch (do settle r; pure (tt {0})) λ e. report Level.error "redis_operation_failed"
            pure q)
          w
        ≡ (ok q, w)
  after_del q (ok m) w h = refl
  after_del q (err e) w h = cc

  deleted :
      (r : Result ℕ) (w : W)
      → (env (redis_del (product_key n)) w).0 ≡ r
      → is_ok r ≡ true
      → cache (env (redis_del (product_key n)) w).1 (product_key n) ≡ none
  deleted (ok m) w e h = red.del_ok (product_key n) w m e
  deleted (err x) w e h = cc

  replied-IsCoherent :
      (p : ℤ) (w : W) (r : Result Database.Product)
      → (env (statement (update_price n p)) w).0 ≡ r
      → Coherent (tables w) (cache w)
      → let x =
          run env
            (do q ← direct (settle r); Redis.del (product_key n); pure q)
            (env (statement (update_price n p)) w).1 in
        Coherent (tables x.1) (cache x.1)
  unfolding Redis.del
  replied-IsCoherent p w (err e) h v =
      still-IsCoherent env tables db cache red (env (statement (update_price n p)) w).1 w
        (db.statement_err (update_price n p) w e h)
        (red.others_fade (statement (update_price n p)) w refl) v
  replied-IsCoherent p w (ok q) h v =
      let k = product_key n in
      let w1 = (env (statement (update_price n p)) w).1 in
      let (r, w2) = env (redis_del k) w1 in
      let faded = Fades-Coherent (tables w) _ (cache w2) (red.others_fade (redis_del k) w1 refl) (
        Fades-Coherent (tables w) _ (cache w1)
          (red.others_fade (statement (update_price n p)) w refl) v) in
      let same =
        db.others_keep (redis_del k) w1 refl ∙ (db.statement_ok (update_price n p) w q h).1 in
      rw (after_del q r w2 (deletes w1)) (
        subst (λ t. Coherent t (cache w2)) (sym same)
          (priced-Coherent n p (tables w) (cache w2) (deleted r w1 refl (deletes w1)) faded))

  -- Run alone, with a Redis that serves the deletion: if what is cached agrees with the tables, it does
  -- so after a change of a price too, whether the change succeeds or fails.
  pub update_price_of-Coherent :
      (p : ℤ) (w : W)
      → Coherent (tables w) (cache w)
      → let x = run env (update_price_of n p) w in Coherent (tables x.1) (cache x.1)
  unfolding update_price_of
  update_price_of-Coherent p w v = replied-IsCoherent p w _ refl v
