-- ===== src/Tests/Products.antt =====
-- Products at concrete inputs: a cache that holds one key.
use flash_sale_lab.Base.{
  ℕ, ◌≡◌, refl, sym, subst, inl, inr, Bool-cases, ◌==◌, ==_iff, false, Option, none, some, List, [],
  ◌∷◌, arith, if◌then◌else◌,
}
use flash_sale_lab.Base.Int.{pos}
use flash_sale_lab.Io.{ok, pure}
use flash_sale_lab.Io.Tasks.{interleave}
use flash_sale_lab.Platform.Database
use flash_sale_lab.Io.Run.{run}
use flash_sale_lab.Platform.{
  Call, Reply, statement, transaction, local, redis_get, redis_set, redis_set_nx, redis_del,
}
use flash_sale_lab.Platform.Cache.{Key, key_eq, key_eq_iff, CacheText, product_json, plain}
use flash_sale_lab.Platform.Laws.{Tables, is_database, IsDatabase}
use flash_sale_lab.Platform.Laws.Bodies.{ok-injective}
use flash_sale_lab.Platform.Laws.Cached.{is_write, Fades, IsCache}
use flash_sale_lab.Product
use flash_sale_lab.Product.{product_key}
use flash_sale_lab.Product.Caching.{row, Agrees, Coherent, Reads}
use flash_sale_lab.Product.Reading.{find_by_id-Reads}
use flash_sale_lab.Product.Racing.{shelf_env, reads_stale}
use flash_sale_lab.Product.Refreshing.{update_price_of-Coherent}
use flash_sale_lab.Tests.Memory.{World, memory_env, memory_env-IsDatabase}
use flash_sale_lab.Tests.Http.{one_product}

-- The world, and the value at the key of the product 1; what is written elsewhere expires at once.
abbrev Cell : Type 0
Cell = World × Option CacheText

abbrev tables : Cell → Tables
tables w = w.0.tables

abbrev cache : Cell → Key → Option CacheText
cache w k = if key_eq k (product_key 1) then w.1 else none

abbrev cell_env : (c : Call) → Cell → Reply c × Cell
cell_env (redis_get k) w = (ok (cache w k), w)
cell_env (redis_set k v ttl) w =
    (ok (some (plain "OK")), (w.0, if key_eq k (product_key 1) then some v else w.1))
cell_env (redis_del k) w = (ok 1, (w.0, if key_eq k (product_key 1) then none else w.1))
cell_env c w = let (r, u) = memory_env c w.0 in (r, (u, w.1))

cell_keeps : (c : Call) (w : Cell) → is_database c ≡ false → tables (cell_env c w).1 ≡ tables w
cell_keeps (statement s) w h = cc
cell_keeps (transaction body) w h = cc
cell_keeps (redis_get k) w h = refl
cell_keeps (redis_set k v ttl) w h = refl
cell_keeps (redis_del k) w h = refl
cell_keeps (local l) w h = memory_env-IsDatabase.others_keep (local l) w.0 h
cell_keeps _ w h = refl

cell_env-IsDatabase : IsDatabase cell_env tables
cell_env-IsDatabase = record {
  statement_ok = λ s w a h. memory_env-IsDatabase.statement_ok s w.0 a h;
  statement_err = λ s w e h. memory_env-IsDatabase.statement_err s w.0 e h;
  transaction_ok = λ body w o h. memory_env-IsDatabase.transaction_ok body w.0 o h;
  transaction_err = λ body w e h. memory_env-IsDatabase.transaction_err body w.0 e h;
  others_keep = cell_keeps;
}

cell-Fades : (c : Call) (w : Cell) → is_write c ≡ false → Fades (cache w) (cache (cell_env c w).1)
cell-Fades (redis_set k v ttl) w h = cc
cell-Fades (redis_set_nx k v ttl) w h = cc
cell-Fades (redis_del k) w h =
    λ j. ground (arith, key_eq_iff k (product_key 1), key_eq_iff j (product_key 1))
cell-Fades _ w h = λ j. inr refl

cell_env-IsCache : IsCache cell_env cache
cell_env-IsCache = record {
  get_ok = λ k w v h. inr (sym (ok-injective h));
  set_lem =
      λ k v ttl w j. ground (arith, key_eq_iff k (product_key 1), key_eq_iff j (product_key 1));
  del_ok = λ k w n h. ground arith;
  others_fade = cell-Fades;
}

abbrev cached : Cell
cached = (one_product, some (product_json (record { id = 1; name = "lamp"; price = pos 900 })))

cached-Coherent : Coherent (tables cached) (cache cached)
cached-Coherent n = elim (Bool-cases (n == 1)) [
  | inl e ↦
      subst (λ i. Agrees (row i (tables cached)) (cache cached (product_key i)))
        (sym ((==_iff n 1).0 e)) refl
  | inr e ↦ ground (arith, e)
]

find_by_id-Reads_example :
    Reads cell_env tables cell_env-IsDatabase cache cell_env-IsCache 1 cached
      (run cell_env (Product.find_by_id 1) cached)
find_by_id-Reads_example =
    find_by_id-Reads cell_env tables cell_env-IsDatabase cache cell_env-IsCache 1 cached (λ u. refl)
      cached-Coherent

update_price_of-Coherent_example :
    let x = run cell_env (Product.update_price_of 1 (pos 800)) cached in
    Coherent (tables x.1) (cache x.1)
update_price_of-Coherent_example =
    update_price_of-Coherent cell_env tables cell_env-IsDatabase cache cell_env-IsCache 1
      (λ u. refl) (pos 800) cached cached-Coherent

abbrev lamp : Database.Product
lamp = record { id = 1; name = "lamp"; price = pos 900 }

reads_stale_example :
    (schedule : List ℕ) × (let (ts, v) =
        interleave shelf_env schedule
          (Product.find_by_id 1 ∷ Product.update_price_of 1 (pos 800) ∷ [])
          (record { product = lamp; cached = none }) in
      (ts ≡ pure lamp ∷ pure (record lamp { price = pos 800 }) ∷ [])
      × (v.product ≡ record lamp { price = pos 800 })
      × ((run shelf_env (Product.find_by_id 1) v).0 ≡ ok lamp))
reads_stale_example = reads_stale lamp (pos 800)
