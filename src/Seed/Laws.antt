-- ===== src/Seed/Laws.antt =====
-- What the seed script relies on about the database: what Prisma documents of its statements, and the
-- foreign keys of prisma/schema.prisma, by which a product that is referred to cannot be deleted.
use flash_sale_lab.Base.{
  ℕ, ◌≡◌, ◌≢◌, ◌⊎◌, String, Bool, true, not, ◌&&◌, none, some, List, [], ◌∷◌, ◌==◌, str_eq, find?,
  filterb, countb, allb, anyb, All,
}
use flash_sale_lab.Io.{Error, ok, err}
use flash_sale_lab.Platform.Database.{Product, Inventory, Order}
use flash_sale_lab.Seed.{
  User, SeedStatement, upsert_user, find_products, delete_orders, delete_inventories,
  delete_products, create_product, disconnect, SeedAnswer, SeedCall, prisma, console_log, SeedReply,
}

pub record SeedTables : Type 0 where
  pub users : List User
  pub products : List Product
  pub inventories : List Inventory
  pub orders : List Order

abbrev pub among : List ℕ → ℕ → Bool
among ids n = anyb (λ i. i == n) ids

-- Whether a product of the name has the id.
abbrev pub is_id_of : String → List Product → ℕ → Bool
is_id_of name ps n = anyb (λ p. str_eq p.name name && p.id == n) ps

-- `s` may reply `a` and take the tables from `t` to `u`. The rows of a search come in any order.
abbrev pub SeedEffect : (s : SeedStatement) → SeedTables → SeedAnswer s → SeedTables → Type 0
SeedEffect (upsert_user e) t a u =
    ((find? (λ x. str_eq x.email e) t.users ≡ some a) × (u ≡ t))
    ⊎ ((find? (λ x. str_eq x.email e) t.users ≡ none)
        × (a.email ≡ e)
        × All (λ x. x.id ≢ a.id) t.users
        × (u ≡ record t { users = a ∷ t.users }))
SeedEffect (find_products n) t a u =
    ((i : ℕ) → anyb (λ r. r.id == i) a ≡ is_id_of n t.products i) × (u ≡ t)
SeedEffect (delete_orders ids) t a u =
    (a ≡ countb (λ o. among ids o.product_id) t.orders)
    × (u ≡ record t { orders = filterb (λ o. not (among ids o.product_id)) t.orders })
SeedEffect (delete_inventories ids) t a u =
    (a ≡ countb (λ i. among ids i.product_id) t.inventories)
    × (u ≡ record t { inventories = filterb (λ i. not (among ids i.product_id)) t.inventories })
SeedEffect (delete_products ids) t a u =
    (a ≡ countb (λ p. among ids p.id) t.products)
    × (u ≡ record t { products = filterb (λ p. not (among ids p.id)) t.products })
SeedEffect (create_product n p s) t a u =
    (a.0 ≡ record { id = a.0.id; name = n; price = p })
    × (a.1 ≡ record { product_id = a.0.id; stock = s })
    × All (λ q. q.id ≢ a.0.id) t.products
    × (u ≡ record t { products = a.0 ∷ t.products; inventories = a.1 ∷ t.inventories })
SeedEffect disconnect t a u = u ≡ t

-- What the foreign keys let pass.
abbrev pub Allowed : SeedStatement → SeedTables → Type 0
Allowed (delete_products ids) t =
    (allb (λ o. not (among ids o.product_id)) t.orders ≡ true)
    × (allb (λ i. not (among ids i.product_id)) t.inventories ≡ true)
Allowed _ t = Unit

module _ {W : Type 0} (env : (c : SeedCall) → W → SeedReply c × W) (tables : W → SeedTables) where
  pub record IsSeedDatabase : Type 0 where
    pub seed_ok :
        (s : SeedStatement) (w : W) (a : SeedAnswer s)
        → (env (prisma s) w).0 ≡ ok a
        → SeedEffect s (tables w) a (tables (env (prisma s) w).1)
    pub seed_err :
        (s : SeedStatement) (w : W) (e : Error)
        → (env (prisma s) w).0 ≡ err e
        → tables (env (prisma s) w).1 ≡ tables w
    pub log_keeps :
        (u : User) (p : Product × Inventory) (w : W) → tables (env (console_log u p) w).1 ≡ tables w

  -- It serves what the foreign keys allow.
  abbrev pub ServesAllowed : Type 0
  ServesAllowed =
      (s : SeedStatement) (w : W)
      → Allowed s (tables w)
      → (a : SeedAnswer s) × ((env (prisma s) w).0 ≡ ok a)

-- `id` is the primary key.
abbrev pub UniqueProducts : List Product → Type 0
UniqueProducts [] = Unit
UniqueProducts (p ∷ ps) = All (λ q. q.id ≢ p.id) ps × UniqueProducts ps
