-- ===== src/Seed.antt =====
-- prisma/seed.ts, the script that plants the product of the load tests. It is a process of its own,
-- with the calls of its own that stand here. `new PrismaService()` connects nothing yet.
pub mod Laws
pub mod Clearing
pub mod Planting
pub mod Sparing
use flash_sale_lab.Base.{ℕ, String, List, map, length, ltb, if◌then◌else◌}
use flash_sale_lab.Base.Int.{ℤ, pos}
use flash_sale_lab.Io.{Result, Io, pure, throw, call, ◌>>=◌, ◌>>◌, finally, settle}
use flash_sale_lab.Platform.Database.{Product, Inventory}

pub record User : Type 0 where
  pub id : ℕ
  pub email : String

-- A row of a search that selects the id.
pub record ProductId : Type 0 where
  pub id : ℕ

pub data SeedStatement : Type 0 where
  -- user.upsert by email, without a change of one that is there
  upsert_user : String → SeedStatement
  -- product.findMany by name, which selects the id
  find_products : String → SeedStatement
  -- order.deleteMany and inventory.deleteMany by product ids, product.deleteMany by ids
  delete_orders : List ℕ → SeedStatement
  delete_inventories : List ℕ → SeedStatement
  delete_products : List ℕ → SeedStatement
  -- product.create with name, price and the stock of its inventory, which is included
  create_product : String → ℤ → ℤ → SeedStatement
  disconnect : SeedStatement

abbrev pub SeedAnswer : SeedStatement → Type 0
SeedAnswer (upsert_user e) = User
SeedAnswer (find_products n) = List ProductId
SeedAnswer (delete_orders ids) = ℕ
SeedAnswer (delete_inventories ids) = ℕ
SeedAnswer (delete_products ids) = ℕ
SeedAnswer (create_product n p s) = Product × Inventory
SeedAnswer disconnect = Unit {0}

pub data SeedCall : Type 0 where
  prisma : SeedStatement → SeedCall
  console_log : User → Product × Inventory → SeedCall

abbrev pub SeedReply : SeedCall → Type 0
SeedReply (prisma s) = Result (SeedAnswer s)
SeedReply (console_log u p) = Unit {0}

abbrev pub Script : Type 0 → Type 0
Script A = Io SeedCall SeedReply A

abbrev pub seed_email : String
seed_email = "seed@example.com"

abbrev pub seed_name : String
seed_name = "Flash Sale Seed Product"

abbrev pub seed_price : ℤ
seed_price = pos 10000

abbrev pub seed_stock : ℤ
seed_stock = pos 100

-- The body of `if (productIds.length > 0)`.
unfoldable pub clear : List ℕ → Script (Unit {0})
clear ids = do
  call (prisma (delete_orders ids)) settle
  call (prisma (delete_inventories ids)) settle
  call (prisma (delete_products ids)) settle
  pure tt

-- The body of the `try` block.
unfoldable pub plant : Script (Unit {0})
plant = do
  user ← call (prisma (upsert_user seed_email)) settle
  existing ← call (prisma (find_products seed_name)) settle
  let ids = map (λ p. p.id) existing in if ltb 0 (length ids) then clear ids else pure tt
  product ← call (prisma (create_product seed_name seed_price seed_stock)) settle
  call (console_log user product) pure

unfoldable pub main : Script (Unit {0})
main = finally plant (call (prisma disconnect) settle)
