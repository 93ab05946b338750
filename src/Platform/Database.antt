-- ===== src/Platform/Database.antt =====
-- The tables of prisma/schema.prisma with the columns that the program uses, and the statements that
-- the repositories send through Prisma.
use flash_sale_lab.Base.{ℕ, String, Option, List}
use flash_sale_lab.Base.Int.{ℤ}
use flash_sale_lab.Base.Json.{Json}
use flash_sale_lab.Io.{Result}

pub record Product : Type 0 where
  pub id : ℕ
  pub name : String
  pub price : ℤ

pub record Inventory : Type 0 where
  pub product_id : ℕ
  pub stock : ℤ

pub record CreateOrderInput : Type 0 where
  pub user_id : ℕ
  pub product_id : ℕ
  pub quantity : ℤ

pub record Order : Type 0 where
  pub id : ℕ
  pub user_id : ℕ
  pub product_id : ℕ
  pub quantity : ℤ

pub data OutboxStatus : Type 0 where
  pending processing sent : OutboxStatus

-- `kind` is the column `type`; the times are in milliseconds.
pub record OutboxEvent : Type 0 where
  pub id : ℕ
  pub kind : String
  pub payload : Json
  pub status : OutboxStatus
  pub processing_started_at : Option ℕ
  pub sent_at : Option ℕ

-- A `where` of the program over inventories: a product, and perhaps a least stock.
pub record InventoryWhere : Type 0 where
  pub product_id : ℕ
  pub stock_gte : ℤ

-- A `where` over outbox events; an absent condition is not tested.
pub record OutboxWhere : Type 0 where
  pub id : Option ℕ
  pub status : Option OutboxStatus
  pub started_lt : Option ℕ

-- A `data` over outbox events; an absent `sent_at` is left as it is.
pub record OutboxChange : Type 0 where
  pub status : OutboxStatus
  pub processing_started_at : Option ℕ
  pub sent_at : Option ℕ

pub data Statement : Type 0 where
  -- inventory.findUnique by productId, inventory.updateMany with a decrement of the stock
  find_inventory : ℕ → Statement
  update_inventories : InventoryWhere → ℤ → Statement
  -- order.create, order.findUnique by id
  create_order : CreateOrderInput → Statement
  find_order : ℕ → Statement
  -- outboxEvent.create, findMany by ascending id with `take`, updateMany, update by id, count
  create_event : String → Json → Statement
  find_events : OutboxWhere → ℕ → Statement
  update_events : OutboxWhere → OutboxChange → Statement
  update_event : ℕ → OutboxChange → Statement
  count_events : OutboxWhere → Statement
  -- product.findUnique by id, product.update of the price by id
  find_product : ℕ → Statement
  update_price : ℕ → ℤ → Statement

abbrev pub Answer : Statement → Type 0
Answer (find_inventory p) = Option Inventory
Answer (update_inventories c d) = ℕ
Answer (create_order i) = Order
Answer (find_order n) = Option Order
Answer (create_event k p) = OutboxEvent
Answer (find_events c n) = List OutboxEvent
Answer (update_events c d) = ℕ
Answer (update_event n d) = OutboxEvent
Answer (count_events c) = ℕ
Answer (find_product n) = Option Product
Answer (update_price n p) = Product

-- Every statement can be rejected.
abbrev pub StatementReply : Statement → Type 0
StatementReply s = Result (Answer s)
