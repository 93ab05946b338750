-- ===== src/Product.antt =====
-- src/product: the repository over Prisma, and the service, which reads through the cache.
pub mod Caching
pub mod Reading
pub mod Refreshing
pub mod Racing
use flash_sale_lab.Base.{ℕ, Option, none, some, if◌then◌else◌}
use flash_sale_lab.Base.Int.{ℤ}
use flash_sale_lab.Io.{Error, http, error, pure, throw, ◌>>=◌, ◌>>◌}
use flash_sale_lab.Platform.{Prog, Client, direct, ask}
use flash_sale_lab.Platform.Database.{
  Product, Inventory, find_product, find_inventory, update_price,
}
use flash_sale_lab.Platform.Cache.{Key, CacheText, product_json, is_truthy}
use flash_sale_lab.Redis

abbrev pub product_key : ℕ → Key
product_key id = record { template = "product:"; id = id }

abbrev pub product_not_found : Error
product_not_found = http 404 "상품을 찾을 수 없습니다."

abbrev pub stock_not_found : Error
stock_not_found = http 404 "재고 정보를 찾을 수 없습니다."

abbrev pub cache_seconds : ℕ
cache_seconds = 60

-- The repository.
unfoldable pub find_product_by_id : ℕ → Client (Option Product)
find_product_by_id id = ask (find_product id)

unfoldable pub find_stock : ℕ → Client (Option Inventory)
find_stock id = ask (find_inventory id)

unfoldable pub change_price : ℕ → ℤ → Client Product
change_price id price = ask (update_price id price)

-- `JSON.parse(cached) as Product`
abbrev pub parse_product : Option CacheText → Prog Product
parse_product (some (product_json p)) = pure p
parse_product _ = throw (error "SyntaxError")

-- What follows a miss, once the database has answered.
unfoldable pub fill_cache : ℕ → Option Product → Prog Product
fill_cache id none = throw product_not_found
fill_cache id (some product) = do
  Redis.set (product_key id) (product_json product) cache_seconds
  pure product

unfoldable pub find_by_id : ℕ → Prog Product
unfolding find_product_by_id
find_by_id id = do
  cached ← Redis.get (product_key id)
  if is_truthy cached
      then parse_product cached
      else do product ← direct (find_product_by_id id); fill_cache id product

abbrev pub or_no_stock : Option Inventory → Prog Inventory
or_no_stock none = throw stock_not_found
or_no_stock (some inventory) = pure inventory

unfoldable pub find_stock_by_id : ℕ → Prog Inventory
unfolding find_stock
find_stock_by_id id = do inventory ← direct (find_stock id); or_no_stock inventory

unfoldable pub update_price_of : ℕ → ℤ → Prog Product
unfolding change_price
update_price_of id price = do
  product ← direct (change_price id price)
  Redis.del (product_key id)
  pure product
