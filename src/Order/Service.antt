-- ===== src/Order/Service.antt =====
-- src/order/order.service.ts and the unit of work of src/order/transaction.
pub mod Atomic
use flash_sale_lab.Base.{ℕ, String, Bool, true, not, Option, none, some, if◌then◌else◌}
use flash_sale_lab.Base.Int.{ℤ, leb_ℤ}
use flash_sale_lab.Io.{Error, http, pure, throw, call, ◌>>=◌, ◌>>◌, finally, settle}
use flash_sale_lab.Platform.{
  Prog, Client, transaction, aside, inject_trace, Metric, observe, direct, measure, note,
}
use flash_sale_lab.Platform.Database.{Inventory, CreateOrderInput, Order}
use flash_sale_lab.Order.Repository
use flash_sale_lab.Outbox.Repository.{CreateOutboxEventInput}
use flash_sale_lab.Outbox.Repository as Outbox

abbrev pub out_of_stock : Error
out_of_stock = http 409 "재고가 부족합니다."

abbrev pub order_not_found : Error
order_not_found = http 404 "주문을 찾을 수 없습니다."

-- `orderStepDurationSeconds.observe({ step }, …)`
abbrev pub order_step : String → Metric
order_step step = observe "order_step_duration_seconds" step

-- `!inventory || inventory.stock < quantity`
abbrev pub is_short : Option Inventory → ℤ → Bool
is_short none quantity = true
is_short (some i) quantity = not (leb_ℤ quantity i.stock)

-- `PrismaOrderUnitOfWork.execute`: the repositories that the work is given are those over the
-- transaction's client.
unfoldable pub execute : Client Order → Prog Order
execute work = call (transaction work) settle

-- The work that `create` hands to the unit of work.
unfoldable pub place_order : CreateOrderInput → String → Client Order
unfolding Repository.create Repository.decrease_if_available Outbox.create
place_order input request_id = do
  order ← Repository.create input
  note (order_step "order_insert")
  trace_context ← call (aside inject_trace) pure
  Outbox.create (record {
    kind = "ORDER_NOTIFICATION";
    order_id = order.id;
    request_id = request_id;
    trace_context = trace_context;
  })
  note (order_step "outbox_insert")
  decreased ← Repository.decrease_if_available input.product_id input.quantity
  note (order_step "inventory_decrease")
  if not decreased then throw out_of_stock else pure order

unfoldable pub create : CreateOrderInput → String → Prog Order
unfolding execute place_order Repository.find_by_product_id
create input request_id = do
  inventory ← direct (Repository.find_by_product_id input.product_id)
  measure (order_step "inventory_precheck")
  if is_short inventory input.quantity
      then throw out_of_stock
      else finally (execute (place_order input request_id)) (measure (order_step "transaction"))

abbrev pub or_not_found : Option Order → Prog Order
or_not_found none = throw order_not_found
or_not_found (some order) = pure order

unfoldable pub find_by_id : ℕ → Prog Order
unfolding Repository.find_by_id
find_by_id id = do order ← direct (Repository.find_by_id id); or_not_found order
