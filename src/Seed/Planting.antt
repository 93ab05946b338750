-- ===== src/Seed/Planting.antt =====
-- The seed script where the database serves it.
use flash_sale_lab.Base.{
  arith, true, ℕ, suc, ◌≡◌, ◌⊎◌, inl, inr, refl, sym, ap, subst, ◌∙◌, not, none, some, List, [],
  ◌∷◌, ◌==◌, str_eq, find?, filterb, anyb, All-map, each, filterb_cong, map, length, ltb,
  if◌then◌else◌,
}
use flash_sale_lab.Io.{Result, ok, pure, call, settle, ◌>>=◌}
use flash_sale_lab.Io.Run.{run, then_run, run->>=, finally_run, run-finally}
use flash_sale_lab.Platform.Database.{Product, Inventory}
use flash_sale_lab.Seed.{
  User, ProductId, upsert_user, find_products, create_product, disconnect, SeedCall, prisma,
  console_log, SeedReply, seed_email, seed_name, seed_price, seed_stock, clear, plant, main,
}
use flash_sale_lab.Seed.Laws.{
  SeedTables, among, is_id_of, SeedEffect, IsSeedDatabase, ServesAllowed, UniqueProducts,
}
use flash_sale_lab.Seed.Clearing.{
  without, without-nil, among-map, is_id_of_lem, after_served, run-clear,
}

-- `u` is `t` with one product of the seed's name, with its price and its stock, and with no order of
-- such a product; the user is the one that was there or a new one, and all else is as it was.
pub record IsPlanted (t u : SeedTables) : Type 0 where
  pub user : User
  pub product : Product
  pub inventory : Inventory
  pub users :
      ((find? (λ x. str_eq x.email seed_email) t.users ≡ some user) × (u.users ≡ t.users))
      ⊎ ((find? (λ x. str_eq x.email seed_email) t.users ≡ none)
          × (user.email ≡ seed_email)
          × (u.users ≡ user ∷ t.users))
  pub product_made : product ≡ record { id = product.id; name = seed_name; price = seed_price }
  pub inventory_made : inventory ≡ record { product_id = product.id; stock = seed_stock }
  pub products : u.products ≡ product ∷ filterb (λ p. not (str_eq p.name seed_name)) t.products
  pub inventories :
      u.inventories
      ≡ inventory ∷ filterb (λ i. not (is_id_of seed_name t.products i.product_id)) t.inventories
  pub orders : u.orders ≡ filterb (λ o. not (is_id_of seed_name t.products o.product_id)) t.orders

-- What the search has found are the ids of the products of the name.
pub found_ids :
    (t : SeedTables) (rows : List ProductId)
    → ((n : ℕ) → anyb (λ r. r.id == n) rows ≡ is_id_of seed_name t.products n)
    → (n : ℕ) → among (map (λ r. r.id) rows) n ≡ is_id_of seed_name t.products n
found_ids t rows h n = among-map rows n ∙ h n

-- The tables without the products of the name.
abbrev pub unplanted : SeedTables → SeedTables
unplanted t = record t {
  products = filterb (λ p. not (str_eq p.name seed_name)) t.products;
  inventories = filterb (λ i. not (is_id_of seed_name t.products i.product_id)) t.inventories;
  orders = filterb (λ o. not (is_id_of seed_name t.products o.product_id)) t.orders;
}

pub without-unplanted :
    (t : SeedTables) (ids : List ℕ)
    → UniqueProducts t.products
    → ((n : ℕ) → among ids n ≡ is_id_of seed_name t.products n)
    → without ids t ≡ unplanted t
without-unplanted t ids unique h = cc (
  filterb_cong (λ p. not (among ids p.id)) (λ p. not (str_eq p.name seed_name)) t.products
      (All-map (λ p e. ap not (h p.id ∙ e)) t.products (is_id_of_lem seed_name t.products unique)),
  filterb_cong (λ i. not (among ids i.product_id))
      (λ i. not (is_id_of seed_name t.products i.product_id)) t.inventories
      (each (λ i. ap not (h i.product_id)) t.inventories),
  filterb_cong (λ o. not (among ids o.product_id))
      (λ o. not (is_id_of seed_name t.products o.product_id)) t.orders
      (each (λ o. ap not (h o.product_id)) t.orders),
)

pub ltb-suc : (n : ℕ) → ltb 0 (suc n) ≡ true
ltb-suc n = ground arith

pub upsert_keeps :
    (t u : SeedTables) (user : User)
    → SeedEffect (upsert_user seed_email) t user u
    → (us : List User) × (u ≡ record t { users = us })
upsert_keeps t u user (inl (e, same)) = (t.users, same)
upsert_keeps t u user (inr (e, n, f, same)) = (user ∷ t.users, same)

upserted :
    (t u y : SeedTables) (user : User)
    → SeedEffect (upsert_user seed_email) t user u
    → y.users ≡ u.users
    → ((find? (λ x. str_eq x.email seed_email) t.users ≡ some user) × (y.users ≡ t.users))
      ⊎ ((find? (λ x. str_eq x.email seed_email) t.users ≡ none)
          × (user.email ≡ seed_email)
          × (y.users ≡ user ∷ t.users))
upserted t u y user (inl (e, same)) h = inl (e, cc (same, h))
upserted t u y user (inr (e, n, f, same)) h = inr (e, n, cc (same, h))

pub assemble :
    (t u x y : SeedTables) (user : User) (made : Product × Inventory)
    → SeedEffect (upsert_user seed_email) t user u
    → x ≡ unplanted u
    → SeedEffect (create_product seed_name seed_price seed_stock) x made y
    → IsPlanted t y
assemble t u x y user made used gone (product_made, inventory_made, fresh, same) =
    let base = gone ∙ ap unplanted (upsert_keeps t u user used).1 in
    record {
      user = user;
      product = made.0;
      inventory = made.1;
      users = upserted t u y user used (ap (λ z. z.users) same ∙ ap (λ z. z.users) gone);
      product_made = product_made;
      inventory_made = inventory_made;
      products = ap (λ z. z.products) same ∙ ap (λ z. made.0 ∷ z.products) base;
      inventories = ap (λ z. z.inventories) same ∙ ap (λ z. made.1 ∷ z.inventories) base;
      orders = ap (λ z. z.orders) same ∙ ap (λ z. z.orders) base;
    }

module _ {W : Type 0} (env : (c : SeedCall) → W → SeedReply c × W) (tables : W → SeedTables)
    (db : IsSeedDatabase env tables) (serves : ServesAllowed env tables) where
  run-cleared :
      (ids : List ℕ) (w : W) (P : Result (Unit {0}) × W → Type 0)
      → ((v : W) → tables v ≡ without ids (tables w) → P (ok tt, v))
      → P (run env (if ltb 0 (length ids) then clear ids else pure tt) w)
  run-cleared [] w P go = go w (sym (without-nil (tables w)))
  run-cleared (n ∷ ids) w P go =
      subst (λ b. P (run env (if b then clear (n ∷ ids) else pure tt) w))
        (sym (ltb-suc (length ids))) (run-clear env tables db serves (n ∷ ids) w P go)

  run-plant :
      (w : W) (P : Result (Unit {0}) × W → Type 0)
      → UniqueProducts (tables w).products
      → ((v : W) → IsPlanted (tables w) (tables v) → P (ok tt, v))
      → P (run env plant w)
  unfolding plant
  run-plant w P unique go =
      after_served env tables db serves (upsert_user seed_email) _ w P tt (λ user u used.
        after_served env tables db serves (find_products seed_name) _ u P tt (λ rows v found.
          let ids = map (λ p. p.id) rows in
          let create = λ (x : Unit {0}).
            call (prisma (create_product seed_name seed_price seed_stock)) settle >>= λ made.
            call (console_log user made) pure in
          subst P (sym (run->>= env (if ltb 0 (length ids) then clear ids else pure tt) create v)) (
            run-cleared ids v (λ r. P (then_run env create r))
              (λ x gone.
                after_served env tables db serves (create_product seed_name seed_price seed_stock) _
                  x P tt
                  (λ made y created. go (env (console_log user made) y).1 (
                    subst (IsPlanted (tables w)) (sym (db.log_keeps user made y)) (
                      assemble (tables w) (tables u) (tables x) (tables y) user made used
                        (gone
                          ∙ ap (without ids) found.1
                          ∙ without-unplanted (tables u) ids
                              (subst (λ t. UniqueProducts t.products)
                                (sym (upsert_keeps (tables w) (tables u) user used).1) unique)
                              (found_ids (tables u) rows found.0))
                        created)))))))

  -- If the database serves every statement but the deletion of products that an order or an
  -- inventory refers to, and the ids of products are unique, then the seed script ends normally: it
  -- leaves one product of the seed's name, with its price and its stock and without orders, and a
  -- user of the seed's address, the one that was there or a new one; the other products, their
  -- inventories and their orders, and the other users, are as they were.
  pub main-IsPlanted :
      (w : W)
      → UniqueProducts (tables w).products
      → let (r, v) = run env main w in (r ≡ ok tt) × IsPlanted (tables w) (tables v)
  unfolding main
  main-IsPlanted w unique =
      subst (λ r. (r.0 ≡ ok tt) × IsPlanted (tables w) (tables r.1))
        (sym (run-finally env plant (call (prisma disconnect) settle) w))
        (run-plant w
          (λ r.
            let q = finally_run env (call (prisma disconnect) settle) r in
            (q.0 ≡ ok tt) × IsPlanted (tables w) (tables q.1))
          unique
          (λ v planted.
            after_served env tables db serves disconnect _ v
              (λ q. (q.0 ≡ ok tt) × IsPlanted (tables w) (tables q.1)) tt
              (λ a x same. (refl, subst (IsPlanted (tables w)) (sym same) planted))))
