-- ===== src/Order/Repository.antt =====
-- src/order/repository/prisma-inventory.repository.ts and prisma-order.repository.ts. A repository is
-- given the service's client or a transaction's, so each method is a program over a client.
use flash_sale_lab.Base.{ℕ, Bool, Option, ◌==◌}
use flash_sale_lab.Base.Int.{ℤ}
use flash_sale_lab.Io.{pure, ◌>>=◌}
use flash_sale_lab.Platform.{Client, ask}
use flash_sale_lab.Platform.Database.{
  Inventory, CreateOrderInput, Order, find_inventory, update_inventories, create_order, find_order,
}

unfoldable pub find_by_product_id : ℕ → Client (Option Inventory)
find_by_product_id product_id = ask (find_inventory product_id)

unfoldable pub decrease_if_available : ℕ → ℤ → Client Bool
decrease_if_available product_id quantity = do
  count ←
      ask (update_inventories (record { product_id = product_id; stock_gte = quantity }) quantity)
  pure (count == 1)

unfoldable pub create : CreateOrderInput → Client Order
create input = ask (
    create_order (record {
      user_id = input.user_id;
      product_id = input.product_id;
      quantity = input.quantity;
    }))

unfoldable pub find_by_id : ℕ → Client (Option Order)
find_by_id id = ask (find_order id)
