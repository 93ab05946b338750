-- ===== src/System/Unmarking.antt =====
-- That the code beside the publishing cycle leaves no mark of SENT in the outbox, and how it uses the
-- database.
use flash_sale_lab.Base.{◌⊎◌, inl, inr, ℕ, String, ◌≡◌, refl, true, false, Option, none, some}
use flash_sale_lab.Io.{pure, throw, call, ◌>>=◌}
use flash_sale_lab.Io.Tasks.{Calls, ends, throws, calls, Calls->>=, Calls-catch, calls_rules}
use flash_sale_lab.Platform.{Prog, direct, Client, ClientCall, query, aside, LocalCall, Level}
use flash_sale_lab.Base.Int.{ℤ}
use flash_sale_lab.Product
use flash_sale_lab.Redis
use flash_sale_lab.Platform.Cache.{CacheText, product_json, plain as plain_text}
use flash_sale_lab.Platform.Database
use flash_sale_lab.Platform.Database.{
  CreateOrderInput, Order, Inventory, Statement, update_inventories, create_order as insert_order,
  create_event, OutboxStatus, pending, processing, sent, update_events, update_event,
}
use flash_sale_lab.Order.Service
use flash_sale_lab.Order.Service.{place_order}
use flash_sale_lab.Consumer.Handler
use flash_sale_lab.System.{
  Task, create_order, find_order, find_product, find_stock, update_price, publish_pending,
  recover_stuck_processing, handle_message, program,
}
use flash_sale_lab.Platform.Broker.{Queue, Content, notification, malformed, Headers, Delivery}
use flash_sale_lab.Outbox.Publisher
use flash_sale_lab.Outbox.Telling.{is_unmarking, Unmarking, unmarking, placing, other}

data UnmarkingClient : ClientCall → Type 0 where
  asks : {s : Statement} → is_unmarking s ≡ true → UnmarkingClient (query s)
  asides : {l : LocalCall} → UnmarkingClient (aside l)

direct-Unmarking :
    {A : Type 0} (body : Client A) → Calls UnmarkingClient body → Calls Unmarking (direct body)
direct-Unmarking (pure a) h = ends
direct-Unmarking (throw e) h = throws
direct-Unmarking (call (query s) k) (calls (asks p) hk) =
    calls (unmarking p) (λ r. direct-Unmarking (k r) (hk r))
direct-Unmarking (call (aside l) k) (calls h hk) =
    calls (other refl) (λ r. direct-Unmarking (k r) (hk r))

ruleset unmarking_rules =
    (calls_rules, direct-Unmarking, unmarking, placing, other, asks, asides, refl)

create-Unmarking :
    (input : CreateOrderInput) (request_id : String)
    → Calls Unmarking (Service.create input request_id)
unfolding Service.create
create-Unmarking input request_id = search unmarking_rules depth 12

or_not_found-Unmarking : (o : Option Order) → Calls Unmarking (Service.or_not_found o)
or_not_found-Unmarking none = throws
or_not_found-Unmarking (some o) = ends

find_by_id-Unmarking : (id : ℕ) → Calls Unmarking (Service.find_by_id id)
unfolding Service.find_by_id
find_by_id-Unmarking id = search (unmarking_rules, or_not_found-Unmarking) depth 12

or_no_stock-Unmarking : (o : Option Inventory) → Calls Unmarking (Product.or_no_stock o)
or_no_stock-Unmarking none = throws
or_no_stock-Unmarking (some o) = ends

find_stock_by_id-Unmarking : (id : ℕ) → Calls Unmarking (Product.find_stock_by_id id)
unfolding Product.find_stock_by_id
find_stock_by_id-Unmarking id = search (unmarking_rules, or_no_stock-Unmarking) depth 12

fill_cache-Unmarking :
    (id : ℕ) (o : Option Database.Product) → Calls Unmarking (Product.fill_cache id o)
unfolding Product.fill_cache Redis.set
fill_cache-Unmarking id none = throws
fill_cache-Unmarking id (some o) = search unmarking_rules depth 12

parse_product-Unmarking : (v : Option CacheText) → Calls Unmarking (Product.parse_product v)
parse_product-Unmarking none = throws
parse_product-Unmarking (some (product_json p)) = ends
parse_product-Unmarking (some (plain_text s)) = throws

product_by_id-Unmarking : (id : ℕ) → Calls Unmarking (Product.find_by_id id)
unfolding Product.find_by_id Redis.get
product_by_id-Unmarking id =
    search (unmarking_rules, fill_cache-Unmarking, parse_product-Unmarking) depth 14

update_price_of-Unmarking :
    (id : ℕ) (price : ℤ) → Calls Unmarking (Product.update_price_of id price)
unfolding Product.update_price_of Redis.del
update_price_of-Unmarking id price = search unmarking_rules depth 14

pub leave-Unmarking : Calls Unmarking Publisher.leave
unfolding Publisher.leave
leave-Unmarking = search unmarking_rules depth 12

recover-Unmarking : Calls Unmarking Publisher.recover_stuck_processing
unfolding Publisher.recover_stuck_processing
recover-Unmarking = search unmarking_rules depth 12

module _ (m : Delivery) where
  move_to-Unmarking :
      (q : Queue) (h : Headers) (lv : Level) (done failed : String)
      → Calls Unmarking (Handler.move_to m q h lv done failed)
  unfolding Handler.move_to
  move_to-Unmarking q h lv done failed = search unmarking_rules depth 12

  on_check_failed-Unmarking : Calls Unmarking (Handler.on_check_failed m)
  unfolding Handler.on_check_failed
  on_check_failed-Unmarking = search (unmarking_rules, move_to-Unmarking) depth 12

  on_locked-Unmarking : Calls Unmarking (Handler.on_locked m)
  unfolding Handler.on_locked
  on_locked-Unmarking = search (unmarking_rules, move_to-Unmarking) depth 12

  on_processing_failed-Unmarking : (n : ℕ) → Calls Unmarking (Handler.on_processing_failed m n)
  unfolding Handler.on_processing_failed
  on_processing_failed-Unmarking n = search (unmarking_rules, move_to-Unmarking) depth 12

  check_duplicate-Unmarking : (n : ℕ) → Calls Unmarking (Handler.check_duplicate m n)
  unfolding Handler.check_duplicate
  check_duplicate-Unmarking n = search unmarking_rules depth 12

  process-Unmarking : (n : ℕ) → Calls Unmarking (Handler.process m n)
  unfolding Handler.process
  process-Unmarking n = search unmarking_rules depth 16

  after_check-Unmarking : (n : ℕ) (c : Handler.Check) → Calls Unmarking (Handler.after_check m n c)
  after_check-Unmarking n Handler.returned = ends
  after_check-Unmarking n (Handler.acquired false) = on_locked-Unmarking
  after_check-Unmarking n (Handler.acquired true) =
      Calls-catch _ _ (process-Unmarking n) (λ e. on_processing_failed-Unmarking n)

  handle_order-Unmarking : (n : ℕ) → Calls Unmarking (Handler.handle_order m n)
  unfolding Handler.handle_order
  handle_order-Unmarking n =
      search
        (
          unmarking_rules, check_duplicate-Unmarking, on_check_failed-Unmarking,
          after_check-Unmarking,
        )
        depth 12

  handle_content-Unmarking : (c : Content) → Calls Unmarking (Handler.handle_content m c)
  handle_content-Unmarking (notification n r) = handle_order-Unmarking n
  handle_content-Unmarking (malformed s) = throws

  handle_message-Unmarking : Calls Unmarking (Handler.handle_message m)
  unfolding Handler.handle_message
  handle_message-Unmarking = handle_content-Unmarking m.content

drop-Unmarking :
    {A : Type 0} (p : Prog {0} A) → Calls Unmarking p → Calls Unmarking (p >>= λ _. pure (tt {0}))
drop-Unmarking p h = Calls->>= p (λ _. pure (tt {0})) h (λ _. ends)

-- A task is a publishing cycle, or it makes no mark.
pub program-Unmarking : (task : Task) → (task ≡ publish_pending) ⊎ Calls Unmarking (program task)
unfolding program
program-Unmarking (create_order input r) = inr (drop-Unmarking _ (create-Unmarking input r))
program-Unmarking (find_order id) = inr (drop-Unmarking _ (find_by_id-Unmarking id))
program-Unmarking (find_product id) = inr (drop-Unmarking _ (product_by_id-Unmarking id))
program-Unmarking (find_stock id) = inr (drop-Unmarking _ (find_stock_by_id-Unmarking id))
program-Unmarking (update_price id price) =
    inr (drop-Unmarking _ (update_price_of-Unmarking id price))
program-Unmarking publish_pending = inl refl
program-Unmarking recover_stuck_processing = inr recover-Unmarking
program-Unmarking (handle_message m) = inr (handle_message-Unmarking m)
