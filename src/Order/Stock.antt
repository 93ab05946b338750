-- ===== src/Order/Stock.antt =====
-- What the stock of a product and its orders add up to, and how a placed order changes it.
use flash_sale_lab.Base.{
  ℕ, String, ◌≡◌, refl, inl, inr, arith, List, [], ◌∷◌, ◌==◌, countb, update_where, All,
  if◌then◌else◌, Bool-cases,
}
use flash_sale_lab.Base.Int.{
  ℤ, pos, ◌+ℤ◌, ◌-ℤ◌, ◌≤ℤ◌, -ℤ_nonneg, sub-add, add-sub, move_sum, +ℤ_nonneg,
}
use flash_sale_lab.Platform.Database.{CreateOrderInput, Inventory, Order, InventoryWhere}
use flash_sale_lab.Platform.Laws.{Tables, has_stock, lower_stock}
use flash_sale_lab.Order.Service.Atomic.{Placed}

-- The stock of a product over all its inventory rows.
abbrev pub stock_of : ℕ → List Inventory → ℤ
stock_of p [] = pos 0
stock_of p (i ∷ is) =
    let rest = stock_of p is in if i.product_id == p then i.stock +ℤ rest else rest

-- The quantity of a product over all its orders.
abbrev pub sold_of : ℕ → List Order → ℤ
sold_of p [] = pos 0
sold_of p (o ∷ os) =
    let rest = sold_of p os in if o.product_id == p then o.quantity +ℤ rest else rest

-- Per product, what is in stock and what is sold make a fixed sum.
abbrev pub Conserves : (ℕ → ℤ) → Tables → Type 0
Conserves total t = (p : ℕ) → stock_of p t.inventories +ℤ sold_of p t.orders ≡ total p

-- No row of the inventory is below zero.
abbrev pub InStock : Tables → Type 0
InStock t = All (λ i. pos 0 ≤ℤ i.stock) t.inventories

lower_none :
    (c : InventoryWhere) (q : ℤ) (p : ℕ) (is : List Inventory)
    → countb (has_stock c) is ≡ 0
    → stock_of p (update_where (has_stock c) (lower_stock q) is) ≡ stock_of p is
lower_none c q p [] h = refl
lower_none c q p (i ∷ is) h = elim (Bool-cases (has_stock c i)) [
  | inl e ↦ absurd (let h' = rw e at h in omega arith)
  | inr e ↦ rw e (let h' = rw e at h in rw (lower_none c q p is h'))
]

lower_one :
    (c : InventoryWhere) (q : ℤ) (p : ℕ) (is : List Inventory)
    → countb (has_stock c) is ≡ 1
    → stock_of p (update_where (has_stock c) (lower_stock q) is)
      ≡ (if c.product_id == p then stock_of p is -ℤ q else stock_of p is)
lower_one c q p [] h = absurd (omega arith)
lower_one c q p (i ∷ is) h = ground (
  arith,
  lower_none c q p is,
  lower_one c q p is,
  sub-add i.stock q (stock_of p is),
  add-sub i.stock (stock_of p is) q,
)

lower-InStock :
    (c : InventoryWhere) (is : List Inventory)
    → All (λ i. pos 0 ≤ℤ i.stock) is
    → All (λ i. pos 0 ≤ℤ i.stock) (update_where (has_stock c) (lower_stock c.stock_gte) is)
lower-InStock c [] h = tt
lower-InStock c (i ∷ is) h = ground (arith, lower-InStock c is h.1, -ℤ_nonneg i.stock c.stock_gte)

module _ (input : CreateOrderInput) (request_id : String) (t : Tables) (o : Order) (u : Tables)
    (placed : Placed input request_id t o u) where
  -- A placed order moves its quantity from the stock of its product to what is sold of it.
  pub Placed-Conserves : (total : ℕ → ℤ) → Conserves total t → Conserves total u
  Placed-Conserves total h p = ground (
    arith,
    h p,
    placed.written,
    lower_one (record { product_id = input.product_id; stock_gte = input.quantity }) input.quantity
        p t.inventories placed.in_stock,
    placed.o_product,
    placed.o_quantity,
    move_sum (stock_of p t.inventories) (sold_of p t.orders) input.quantity,
  )

  pub Placed-InStock : InStock t → InStock u
  Placed-InStock h = rw placed.written (
      lower-InStock (record { product_id = input.product_id; stock_gte = input.quantity })
        t.inventories h)

-- The stock of a product is not below zero if no row is.
pub stock_of-nonneg :
    (p : ℕ) (is : List Inventory) → All (λ i. pos 0 ≤ℤ i.stock) is → pos 0 ≤ℤ stock_of p is
stock_of-nonneg p [] h = omega arith
stock_of-nonneg p (i ∷ is) h =
    ground (arith, stock_of-nonneg p is h.1, +ℤ_nonneg i.stock (stock_of p is))
