-- ===== src/Tests/Orders.antt =====
-- Orders at concrete inputs: two buyers and the last item.
use flash_sale_lab.Base.{ℕ, ◌≡◌, refl, List, [], ◌∷◌, map, arith}
use flash_sale_lab.Base.Int.{pos, ◌+ℤ◌, ◌-ℤ◌, ◌≤ℤ◌, add-zero}
use flash_sale_lab.Io.{ok, err}
use flash_sale_lab.Io.Run.{run}
use flash_sale_lab.Io.Tasks.{interleave}
use flash_sale_lab.Platform.Database.{CreateOrderInput, Order}
use flash_sale_lab.Platform.Laws.{Tables}
use flash_sale_lab.Order.Service
use flash_sale_lab.Order.Service.{out_of_stock}
use flash_sale_lab.Order.Service.Atomic.{Placed, create-Placed, create_atomic}
use flash_sale_lab.Order.Stock.{stock_of, sold_of}
use flash_sale_lab.System.{Task, create_order, program}
use flash_sale_lab.System.Invariants.{programs, IsSound, interleave-IsSound, never_oversells}
use flash_sale_lab.Tests.Memory.{World, memory_env, memory_env-IsDatabase}

abbrev pub last_item : World
last_item = record {
  tables = record {
    products = [];
    inventories = record { product_id = 1; stock = pos 1 } ∷ [];
    orders = [];
    events = [];
  };
  active = 0;
}

abbrev pub wanted : CreateOrderInput
wanted = record { user_id = 7; product_id = 1; quantity = pos 1 }

abbrev wanted_by : ℕ → CreateOrderInput
wanted_by user_id = record { user_id = user_id; product_id = 1; quantity = pos 1 }

abbrev pub first_order : Order
first_order = record { id = 1; user_id = 7; product_id = 1; quantity = pos 1 }

order_placed : (run memory_env (Service.create wanted "r1") last_item).0 ≡ ok first_order
unfolding Service.create
order_placed = refl

create-Placed_example :
    Placed wanted "r1" last_item.tables first_order
      (run memory_env (Service.create wanted "r1") last_item).1.tables
create-Placed_example =
    create-Placed memory_env (λ w. w.tables) memory_env-IsDatabase wanted "r1" last_item first_order
      order_placed

abbrev pub two_wanted : CreateOrderInput
two_wanted = record { user_id = 7; product_id = 1; quantity = pos 2 }

too_many : (run memory_env (Service.create two_wanted "r1") last_item).0 ≡ err out_of_stock
unfolding Service.create
too_many = refl

create_atomic_example :
    (run memory_env (Service.create two_wanted "r1") last_item).1.tables ≡ last_item.tables
create_atomic_example =
    create_atomic memory_env (λ w. w.tables) memory_env-IsDatabase two_wanted "r1" last_item
      out_of_stock too_many

-- Both buyers pass the first check before either order is placed.
abbrev race : List Task
race = create_order (wanted_by 7) "r1" ∷ create_order (wanted_by 8) "r2" ∷ []

abbrev turns : List ℕ
turns = 0 ∷ 1 ∷ 0 ∷ 1 ∷ 1 ∷ 0 ∷ 1 ∷ 0 ∷ []

abbrev after_race : Tables
after_race = (interleave memory_env turns (programs race) last_item).1.tables

one_order : map (λ o. o.user_id) after_race.orders ≡ 8 ∷ []
unfolding program Service.create ◌-ℤ◌
one_order = refl

never_oversells_example :
    (sold_of 1 after_race.orders ≤ℤ pos 1)
    × (stock_of 1 after_race.inventories +ℤ sold_of 1 after_race.orders
        ≡ stock_of 1 last_item.tables.inventories)
unfolding ◌+ℤ◌
never_oversells_example =
    never_oversells memory_env (λ w. w.tables) memory_env-IsDatabase race turns last_item 1 refl
      (omega arith)

last_item-IsSound : IsSound (λ p. stock_of p last_item.tables.inventories) last_item.tables
last_item-IsSound = record { conserved = λ p. add-zero _; in_stock = omega arith; announced = tt }

interleave-IsSound_example : IsSound (λ p. stock_of p last_item.tables.inventories) after_race
interleave-IsSound_example =
    interleave-IsSound memory_env (λ w. w.tables) memory_env-IsDatabase
      (λ p. stock_of p last_item.tables.inventories) race turns last_item last_item-IsSound
