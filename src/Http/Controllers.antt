-- ===== src/Http/Controllers.antt =====
-- The routes of src/order/order.controller.ts, src/product/product.controller.ts,
-- src/observability/metrics.controller.ts and src/app.controller.ts, with the constraints of their DTOs, and how src/main.ts and
-- src/app.module.ts lay the middleware, the interceptor and the pipes before them. The pipes are the
-- framework's, and parameters here.
use flash_sale_lab.Base.{ℕ, String, ◌≡◌, Bool, true, ◌&&◌, none, some, leb}
use flash_sale_lab.Base.Int.{ℤ, pos, leb_ℤ}
use flash_sale_lab.Io.{Error, Result, ok, err, pure, call, ◌>>=◌, ◌>>◌, settle}
use flash_sale_lab.Platform.{Prog, statement, measure, set_gauge}
use flash_sale_lab.Platform.Database.{
  CreateOrderInput, Order, Product, Inventory, OutboxWhere, OutboxStatus, pending, processing,
  count_events,
}
use flash_sale_lab.Order.Service
use flash_sale_lab.Product
use flash_sale_lab.Http.Latency.{Request, error_status, use_request_id, intercept}

-- `@IsInt()` is the fields' types, `@Min(1)` the tests.
unfoldable pub is_valid_order : CreateOrderInput → Bool
is_valid_order dto = leb 1 dto.user_id && (leb 1 dto.product_id && leb_ℤ (pos 1) dto.quantity)

-- `@Min(0)`
unfoldable pub is_valid_price : ℤ → Bool
is_valid_price price = leb_ℤ (pos 0) price

-- What is relied on about `ValidationPipe`: it lets through only what meets the DTO's constraints, and
-- it refuses with a `BadRequestException`.
pub record IsPipe {Raw Dto : Type 0} (is_valid : Dto → Bool) (pipe : Raw → Result Dto)
    : Type 0 where
  pub accepts : (raw : Raw) (dto : Dto) → pipe raw ≡ ok dto → is_valid dto ≡ true
  pub refuses : (raw : Raw) (e : Error) → pipe raw ≡ err e → error_status e ≡ 400

-- The middleware runs first; the interceptor is around the pipes and the controller.
unfoldable pub serve : {A : Type 0} → Request → (Request → Prog A) → Prog A
unfolding use_request_id intercept
serve request route = do served ← use_request_id request; intercept served (route served)

unfoldable pub post_order :
    {Raw : Type 0} → (Raw → Result CreateOrderInput) → Raw → Request → Prog Order
unfolding Service.create
post_order pipe body request = do dto ← settle (pipe body); Service.create dto request.request_id

-- The routes with an id; `parse_int` is `ParseIntPipe`.
module _ (parse_int : String → Result ℕ) (param : String) where
  unfoldable pub get_order : Request → Prog Order
  unfolding Service.find_by_id
  get_order request = do id ← settle (parse_int param); Service.find_by_id id

  unfoldable pub get_product : Request → Prog Product
  unfolding Product.find_by_id
  get_product request = do id ← settle (parse_int param); Product.find_by_id id

  unfoldable pub get_stock : Request → Prog Inventory
  unfolding Product.find_stock_by_id
  get_stock request = do id ← settle (parse_int param); Product.find_stock_by_id id

  unfoldable pub patch_price : {Raw : Type 0} → (Raw → Result ℤ) → Raw → Request → Prog Product
  unfolding Product.update_price_of
  patch_price pipe body request = do
    id ← settle (parse_int param)
    price ← settle (pipe body)
    Product.update_price_of id price

abbrev pub of_status : OutboxStatus → OutboxWhere
of_status status = record { id = none; status = some status; started_lt = none }

-- The two counts, which the source starts together, one after the other; `metrics` is the text that
-- the registry of prom-client renders.
unfoldable pub get_metrics : Prog String → Request → Prog String
get_metrics metrics request = do
  pending_count ← call (statement (count_events (of_status pending))) settle
  processing_count ← call (statement (count_events (of_status processing))) settle
  measure (set_gauge "outbox_events" "PENDING" pending_count)
  measure (set_gauge "outbox_events" "PROCESSING" processing_count)
  metrics

-- `AppController.getHello`, by way of `AppService`.
abbrev pub get_hello : Request → Prog String
get_hello request = pure "Hello World!"
