-- ===== src/Product/Racing.antt =====
-- What the deletion of a cached product does not keep from happening: a read writes to the cache what
-- it has found in the database, whatever has changed since.
use flash_sale_lab.Base.{ℕ, ◌≡◌, refl, true, Option, none, some, List, [], ◌∷◌}
use flash_sale_lab.Base.Int.{ℤ}
use flash_sale_lab.Io.{error, ok, err, pure}
use flash_sale_lab.Io.Run.{run}
use flash_sale_lab.Io.Tasks.{interleave}
use flash_sale_lab.Platform.{
  Call, Reply, local, statement, transaction, query_one, redis_get, redis_set, redis_set_nx,
  redis_del, redis_ping, redis_is_open, redis_connect, redis_quit, send_to_queue, wait_for_confirms,
  ack, nack, notify,
}
use flash_sale_lab.Platform.Cache.{CacheText, plain}
use flash_sale_lab.Platform.Database.{Statement, Answer, find_product, update_price}
use flash_sale_lab.Platform.Database
use flash_sale_lab.Redis
use flash_sale_lab.Consumer.Racing.{quiet}
use flash_sale_lab.Product.{
  find_by_id, update_price_of, find_product_by_id, change_price, fill_cache,
}

-- The row of the one product that the tasks are about, and what is cached of it.
pub record Shelf : Type 0 where
  pub product : Database.Product
  pub cached : Option CacheText

-- A database and a Redis that serve every call about the one product, and let no key expire.
abbrev shelf_statement : (s : Statement) → Shelf → Reply (statement s) × Shelf
shelf_statement (find_product n) s = (ok (some s.product), s)
shelf_statement (update_price n p) s =
    (ok (record s.product { price = p }), record s { product = record s.product { price = p } })
shelf_statement _ s = (err (error "not asked"), s)

abbrev pub shelf_env : (c : Call) → Shelf → Reply c × Shelf
shelf_env (redis_get k) s = (ok s.cached, s)
shelf_env (redis_set k v ttl) s = (ok (some (plain "OK")), record s { cached = some v })
shelf_env (redis_set_nx k v ttl) s = (err (error "not asked"), s)
shelf_env (redis_del k) s = (ok 1, record s { cached = none })
shelf_env redis_ping s = (ok (plain "PONG"), s)
shelf_env redis_is_open s = (true, s)
shelf_env redis_connect s = (ok tt, s)
shelf_env redis_quit s = (ok tt, s)
shelf_env (local l) s = (quiet l, s)
shelf_env (statement q) s = shelf_statement q s
shelf_env (transaction body) s = (err (error "not asked"), s)
shelf_env query_one s = (err (error "not asked"), s)
shelf_env (send_to_queue q c h) s = (ok true, s)
shelf_env wait_for_confirms s = (ok tt, s)
shelf_env (ack d) s = (ok tt, s)
shelf_env (nack d) s = (ok tt, s)
shelf_env (notify ms) s = (ok tt, s)

-- The read looks in the cache and in the database, the price is changed and the key deleted, and the
-- read goes on.
abbrev changed_between : List ℕ
changed_between = 0 ∷ 0 ∷ 1 ∷ 1 ∷ 0 ∷ []

-- A read of a product that is not cached and a change of its price, with a database and a Redis that
-- serve every call and let no key expire: there is an order of their calls in which both end normally,
-- the row has the new price, and a read that follows still answers with the product as it was.
pub reads_stale :
    (product : Database.Product) (price : ℤ)
    → (schedule : List ℕ) × (let (ts, v) =
          interleave shelf_env schedule
            (find_by_id product.id ∷ update_price_of product.id price ∷ [])
            (record { product = product; cached = none }) in
        (ts ≡ pure product ∷ pure (record product { price = price }) ∷ [])
        × (v.product ≡ record product { price = price })
        × ((run shelf_env (find_by_id product.id) v).0 ≡ ok product))
unfolding find_by_id update_price_of find_product_by_id change_price fill_cache Redis.get Redis.set
    Redis.del
reads_stale product price = (changed_between, (refl, refl, refl))
