-- ===== src/Product/Reading.antt =====
-- A read of a product through the cache, against a read of the table.
use flash_sale_lab.Base.{
  ℕ, ap, ◌≡◌, refl, sym, subst, ◌⊎◌, inl, inr, true, Option, none, some, if◌then◌else◌,
}
use flash_sale_lab.Io.{Result, ok, err, is_ok, ◌>>=◌}
use flash_sale_lab.Io.Run.{run, then_run, run->>=}
use flash_sale_lab.Platform.{Call, Reply, Prog, statement, direct}
use flash_sale_lab.Platform.Cache.{Key, CacheText, product_json, plain, is_truthy}
use flash_sale_lab.Platform.Database.{find_product, update_price}
use flash_sale_lab.Platform.Database
use flash_sale_lab.Platform.Laws.{Tables, IsDatabase}
use flash_sale_lab.Platform.Laws.Bodies.{ok-injective}
use flash_sale_lab.Platform.Laws.Local.{local_keeps}
use flash_sale_lab.Platform.Laws.Cached.{IsCache, reading-Fades}
use flash_sale_lab.Redis
use flash_sale_lab.Product.{product_key, parse_product, fill_cache, find_product_by_id, find_by_id}
use flash_sale_lab.Product.Caching.{
  row, Agrees, or_missing, get-Calls, get-Local, IsCoherent, Reads, get_value, still-IsCoherent,
  Reads-from, answered-Reads,
}

module _ {W : Type 0} (env : (c : Call) → W → Reply c × W) (tables : W → Tables)
    (db : IsDatabase env tables) (cache : W → Key → Option CacheText)
    (red : IsCache env cache) where
  -- What follows the look into the cache.
  abbrev looked_up : ℕ → Option CacheText → Prog Database.Product
  unfolding find_product_by_id
  looked_up n cached =
      if is_truthy cached
      then parse_product cached
      else do product ← direct (find_product_by_id n); fill_cache n product

  looked_up-Reads :
      (n : ℕ) (v : Option CacheText) (w : W)
      → is_ok (env (statement (find_product n)) w).0 ≡ true
      → Agrees (row n (tables w)) v
      → IsCoherent env tables db cache red w
      → Reads env tables db cache red n w (run env (looked_up n v) w)
  unfolding find_product_by_id
  looked_up-Reads n none w up a h = answered-Reads env tables db cache red n w _ refl up h
  looked_up-Reads n (some (product_json p)) w up a h = (sym (ap or_missing a), refl, h)
  looked_up-Reads n (some (plain s)) w up a h = elim a [ ]

  -- The value that the cache gave agrees with the row.
  value-Agrees :
      (n : ℕ) (w : W) (v : Option CacheText)
      → (v ≡ none) ⊎ (v ≡ cache w (product_key n))
      → IsCoherent env tables db cache red w
      → Agrees (row n (tables w)) v
  value-Agrees n w v (inl e) h = subst (Agrees (row n (tables w))) (sym e) tt
  value-Agrees n w v (inr e) h = subst (Agrees (row n (tables w))) (sym e) (h n)

  then_looked_up-Reads :
      (n : ℕ) (v : Option CacheText) (w : W) (x : Result (Option CacheText) × W)
      → x.0 ≡ ok v
      → Reads env tables db cache red n w (run env (looked_up n v) x.1)
      → Reads env tables db cache red n w (then_run env (looked_up n) x)
  then_looked_up-Reads n v w (ok u, w1) e h =
      subst (λ z. Reads env tables db cache red n w (run env (looked_up n z) w1))
        (sym (ok-injective e)) h
  then_looked_up-Reads n v w (err x, w1) e h = cc

  -- Run alone, with a database that serves the search: if what is cached agrees with the tables, then
  -- a read through the cache answers as a read of the table would, with the product of that id or the
  -- exception that there is none, whether Redis hits, misses or fails; the tables stay as they are,
  -- and what is cached afterwards agrees with them.
  pub find_by_id-Reads :
      (n : ℕ) (w : W)
      → ((u : W) → is_ok (env (statement (find_product n)) u).0 ≡ true)
      → IsCoherent env tables db cache red w
      → Reads env tables db cache red n w (run env (find_by_id n) w)
  unfolding find_by_id
  find_by_id-Reads n w up h =
      let k = product_key n in
      let (v, done, there) = get_value env tables db cache red k w in
      let w1 = (run env (Redis.get k) w).1 in
      let same = local_keeps env tables db (Redis.get k) w (get-Local k) in
      let h1 =
        still-IsCoherent env tables db cache red w1 w same
          (reading-Fades env cache red (Redis.get k) w (get-Calls k)) h in
      let a = subst (λ t. Agrees (row n t) v) (sym same) (value-Agrees n w v there h) in
      rw (run->>= env (Redis.get k) (looked_up n) w) (
        then_looked_up-Reads n v w (run env (Redis.get k) w) done (
          Reads-from env tables db cache red n w1 w (run env (looked_up n v) w1) same
            (looked_up-Reads n v w1 (up w1) a h1)))
