-- ===== src/System.antt =====
-- The program as a whole: what its instances run, and what no interleaving of it breaks.
pub mod Unmarking
pub mod Calls
pub mod Invariants
pub mod Events
pub mod Holds
pub mod Claims
pub mod Delivered
use flash_sale_lab.Base.{ℕ, String}
use flash_sale_lab.Io.{pure, ◌>>=◌, ◌>>◌}
use flash_sale_lab.Platform.{Prog}
use flash_sale_lab.Platform.Broker.{Delivery}
use flash_sale_lab.Platform.Database.{CreateOrderInput}
use flash_sale_lab.Base.Int.{ℤ}
use flash_sale_lab.Order.Service
use flash_sale_lab.Product
use flash_sale_lab.Outbox.Publisher
use flash_sale_lab.Consumer.Handler

-- A piece of work that the framework starts: a request, a turn of a timer, a delivery.
pub data Task : Type 0 where
  create_order : CreateOrderInput → String → Task
  find_order : ℕ → Task
  find_product : ℕ → Task
  find_stock : ℕ → Task
  update_price : ℕ → ℤ → Task
  publish_pending : Task
  recover_stuck_processing : Task
  handle_message : Delivery → Task

-- What it runs; the framework takes its result.
unfoldable pub program : Task → Prog (Unit {0})
program (create_order input request_id) = do Service.create input request_id; pure tt
program (find_order id) = do Service.find_by_id id; pure tt
program (find_product id) = do Product.find_by_id id; pure tt
program (find_stock id) = do Product.find_stock_by_id id; pure tt
program (update_price id price) = do Product.update_price_of id price; pure tt
program publish_pending = Publisher.publish_pending
program recover_stuck_processing = Publisher.recover_stuck_processing
program (handle_message message) = Handler.handle_message message
