-- ===== src/Tests/Seed.antt =====
-- The seed script on a database in memory, which holds an old seed product with an order of it.
use flash_sale_lab.Base.{
  ℕ, ◌+◌, ◌≤◌, ◌<◌, ◌≡◌, ◌≢◌, ◌⊎◌, inl, inr, refl, sym, subst, String, Bool, true, false, not, ◌&&◌,
  Option, none, some, List, [], ◌∷◌, ◌==◌, str_eq, find?, filterb, countb, map, allb, anyb, All,
  arith, if◌then◌else◌,
}
use flash_sale_lab.Base.Int.{pos}
use flash_sale_lab.Io.{Error, error, Result, ok, err}
use flash_sale_lab.Io.Run.{run}
use flash_sale_lab.Platform.Database.{Product, Inventory}
use flash_sale_lab.Platform.Laws.Bodies.{ok-injective}
use flash_sale_lab.Seed.{
  User, ProductId, SeedStatement, upsert_user, find_products, delete_orders, delete_inventories,
  delete_products, create_product, disconnect, SeedAnswer, SeedCall, prisma, console_log, SeedReply,
  main,
}
use flash_sale_lab.Seed.Laws.{
  SeedTables, among, is_id_of, SeedEffect, Allowed, IsSeedDatabase, ServesAllowed,
}
use flash_sale_lab.Seed.Planting.{IsPlanted, main-IsPlanted}
use flash_sale_lab.Seed.Sparing.{IsLeft, main-IsLeft}

-- One more than every number of the list.
abbrev next : List ℕ → ℕ
next [] = 1
next (n ∷ ns) = n + next ns

next-pos : (ns : List ℕ) → 0 < next ns
next-pos [] = omega arith
next-pos (n ∷ ns) = omega (arith, next-pos ns)

module _ {A : Type 0} (id : A → ℕ) where
  fresh : (n : ℕ) (xs : List A) → next (map id xs) ≤ n → All (λ x. id x ≢ n) xs
  fresh n [] h = tt
  fresh n (x ∷ xs) h = (omega (arith, next-pos (map id xs)), fresh n xs (omega arith))

abbrev upserted : String → SeedTables → Option User → User × SeedTables
upserted e t (some u) = (u, t)
upserted e t none =
    let u : User = record { id = next (map (λ x. x.id) t.users); email = e } in
    (u, record t { users = u ∷ t.users })

abbrev named : String → List Product → List ProductId
named n [] = []
named n (p ∷ ps) =
    let rest = named n ps in if str_eq p.name n then record { id = p.id } ∷ rest else rest

abbrev unreferred : List ℕ → SeedTables → Bool
unreferred ids t =
    allb (λ o. not (among ids o.product_id)) t.orders
    && allb (λ i. not (among ids i.product_id)) t.inventories

abbrev answered : (s : SeedStatement) → SeedTables → SeedAnswer s × SeedTables
answered (upsert_user e) t = upserted e t (find? (λ x. str_eq x.email e) t.users)
answered (find_products n) t = (named n t.products, t)
answered (delete_orders ids) t = (
  countb (λ o. among ids o.product_id) t.orders,
  record t { orders = filterb (λ o. not (among ids o.product_id)) t.orders },
)
answered (delete_inventories ids) t = (
  countb (λ i. among ids i.product_id) t.inventories,
  record t { inventories = filterb (λ i. not (among ids i.product_id)) t.inventories },
)
answered (delete_products ids) t = (
  countb (λ p. among ids p.id) t.products,
  record t { products = filterb (λ p. not (among ids p.id)) t.products },
)
answered (create_product n p s) t =
    let product : Product = record {
      id = next (map (λ q. q.id) t.products);
      name = n;
      price = p;
    } in
    let inventory : Inventory = record { product_id = product.id; stock = s } in
    (
      (product, inventory),
      record t { products = product ∷ t.products; inventories = inventory ∷ t.inventories },
    )
answered disconnect t = (tt, t)

abbrev rejects : SeedStatement → SeedTables → Bool
rejects (delete_products ids) t = not (unreferred ids t)
rejects _ t = false

abbrev replied : (s : SeedStatement) → Bool → SeedTables → Result (SeedAnswer s) × SeedTables
replied s true t = (err (error "Foreign key constraint violated"), t)
replied s false t = (ok (answered s t).0, (answered s t).1)

abbrev seed_env : (c : SeedCall) → SeedTables → SeedReply c × SeedTables
seed_env (prisma s) t = replied s (rejects s t) t
seed_env (console_log u p) t = (tt, t)

named_lem :
    (n : String) (ps : List Product) (i : ℕ) → anyb (λ r. r.id == i) (named n ps) ≡ is_id_of n ps i
named_lem n [] i = refl
named_lem n (p ∷ ps) i = ground (arith, named_lem n ps i)

upserted_lem :
    (e : String) (t : SeedTables) (found : Option User)
    → find? (λ x. str_eq x.email e) t.users ≡ found
    → let (a, u) = upserted e t found in SeedEffect (upsert_user e) t a u
upserted_lem e t (some u) h = inl (h, refl)
upserted_lem e t none h =
    inr (h, refl, fresh (λ x. x.id) (next (map (λ x. x.id) t.users)) t.users (omega arith), refl)

answered_lem :
    (s : SeedStatement) (t : SeedTables) → SeedEffect s t (answered s t).0 (answered s t).1
answered_lem (upsert_user e) t = upserted_lem e t (find? (λ x. str_eq x.email e) t.users) refl
answered_lem (find_products n) t = (named_lem n t.products, refl)
answered_lem (delete_orders ids) t = (refl, refl)
answered_lem (delete_inventories ids) t = (refl, refl)
answered_lem (delete_products ids) t = (refl, refl)
answered_lem (create_product n p s) t = (
  refl,
  refl,
  fresh (λ q. q.id) (next (map (λ q. q.id) t.products)) t.products (omega arith),
  refl,
)
answered_lem disconnect t = refl

replied_ok :
    (s : SeedStatement) (b : Bool) (t : SeedTables) (a : SeedAnswer s)
    → (replied s b t).0 ≡ ok a
    → SeedEffect s t a (replied s b t).1
replied_ok s true t a h = absurd (cc h)
replied_ok s false t a h =
    subst (λ x. SeedEffect s t x (answered s t).1) (ok-injective h) (answered_lem s t)

replied_err :
    (s : SeedStatement) (b : Bool) (t : SeedTables) (e : Error)
    → (replied s b t).0 ≡ err e
    → (replied s b t).1 ≡ t
replied_err s true t e h = refl
replied_err s false t e h = absurd (cc h)

allowed : (s : SeedStatement) (t : SeedTables) → Allowed s t → rejects s t ≡ false
allowed (delete_products ids) t (o, i) = cc (o, i)
allowed _ t h = refl

seed_env-IsSeedDatabase : IsSeedDatabase seed_env (λ t. t)
seed_env-IsSeedDatabase = record {
  seed_ok = λ s t a h. replied_ok s (rejects s t) t a h;
  seed_err = λ s t e h. replied_err s (rejects s t) t e h;
  log_keeps = λ u p t. refl;
}

seed_env-ServesAllowed : ServesAllowed seed_env (λ t. t)
seed_env-ServesAllowed s t h = (
  (answered s t).0,
  subst (λ b. (replied s b t).0 ≡ ok (answered s t).0) (sym (allowed s t h)) refl,
)

abbrev old_tables : SeedTables
old_tables = record {
  users = record { id = 1; email = "seed@example.com" } ∷ [];
  products =
      record { id = 1; name = "Flash Sale Seed Product"; price = pos 9000 }
      ∷ record { id = 2; name = "Mug"; price = pos 5 }
      ∷ [];
  inventories =
      record { product_id = 1; stock = pos 3 } ∷ record { product_id = 2; stock = pos 7 } ∷ [];
  orders =
      record { id = 1; user_id = 1; product_id = 1; quantity = pos 97 }
      ∷ record { id = 2; user_id = 1; product_id = 2; quantity = pos 1 }
      ∷ [];
}

main-IsPlanted_example :
    let (r, v) = run seed_env main old_tables in (r ≡ ok tt) × IsPlanted old_tables v
main-IsPlanted_example =
    main-IsPlanted seed_env (λ t. t) seed_env-IsSeedDatabase seed_env-ServesAllowed old_tables
      (((λ e. ground (arith, e)), tt), (tt, tt))

main-IsLeft_example :
    let (r, v) = run seed_env main old_tables in
    IsPlanted old_tables v ⊎ (((e : Error) × (r ≡ err e)) × IsLeft old_tables v)
main-IsLeft_example =
    main-IsLeft seed_env (λ t. t) seed_env-IsSeedDatabase old_tables
      (((λ e. ground (arith, e)), tt), (tt, tt))
