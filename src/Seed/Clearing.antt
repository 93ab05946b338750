-- ===== src/Seed/Clearing.antt =====
-- What the seed script deletes, and that it deletes in an order that the foreign keys allow.
use flash_sale_lab.Base.{
  ℕ, ◌≡◌, ◌≢◌, refl, sym, ap, subst, String, true, false, not, ◌||◌, List, [], ◌∷◌, ◌==◌, str_eq,
  filterb, anyb, All, each, allb-filterb, filterb_id, arith, map,
}
use flash_sale_lab.Io.{Result, ok, call, settle, ◌>>=◌}
use flash_sale_lab.Io.Run.{run}
use flash_sale_lab.Platform.Database.{Product}
use flash_sale_lab.Seed.{
  ProductId, SeedStatement, delete_orders, delete_inventories, delete_products, SeedAnswer,
  SeedCall, prisma, SeedReply, Script, clear,
}
use flash_sale_lab.Seed.Laws.{
  SeedTables, among, is_id_of, SeedEffect, Allowed, IsSeedDatabase, ServesAllowed, UniqueProducts,
}

-- The tables without the products of the ids and what refers to them.
abbrev pub without : List ℕ → SeedTables → SeedTables
without ids t = record t {
  products = filterb (λ p. not (among ids p.id)) t.products;
  inventories = filterb (λ i. not (among ids i.product_id)) t.inventories;
  orders = filterb (λ o. not (among ids o.product_id)) t.orders;
}

pub without-nil : (t : SeedTables) → without [] t ≡ t
without-nil t = cc (
  filterb_id (λ p. true) t.products (each (λ p. refl) t.products),
  filterb_id (λ i. true) t.inventories (each (λ i. refl) t.inventories),
  filterb_id (λ o. true) t.orders (each (λ o. refl) t.orders),
)

pub among-map :
    (rs : List ProductId) (n : ℕ) → among (map (λ r. r.id) rs) n ≡ anyb (λ r. r.id == n) rs
among-map [] n = refl
among-map (r ∷ rs) n = ap (λ b. r.id == n || b) (among-map rs n)

not_there :
    (name : String) (ps : List Product) (n : ℕ)
    → All (λ q. q.id ≢ n) ps
    → is_id_of name ps n ≡ false
not_there name [] n h = refl
not_there name (p ∷ ps) n (e, h) = ground (arith, e, not_there name ps n h)

-- Where ids are unique, the products whose ids are those of a name are those of the name.
pub is_id_of_lem :
    (name : String) (ps : List Product)
    → UniqueProducts ps
    → All (λ p. is_id_of name ps p.id ≡ str_eq p.name name) ps
is_id_of_lem name [] h = tt
is_id_of_lem name (p ∷ ps) (fresh, h) =
    let none_else = not_there name ps p.id fresh in
    (ground (arith, none_else), later ps fresh (is_id_of_lem name ps h))
  where
    later :
        (qs : List Product)
        → All (λ q. q.id ≢ p.id) qs
        → All (λ q. is_id_of name ps q.id ≡ str_eq q.name name) qs
        → All (λ q. is_id_of name (p ∷ ps) q.id ≡ str_eq q.name name) qs
    later [] f g = tt
    later (q ∷ qs) (f, fs) (g, gs) = (ground (arith, f, g), later qs fs gs)

module _ {W : Type 0} (env : (c : SeedCall) → W → SeedReply c × W) (tables : W → SeedTables)
    (db : IsSeedDatabase env tables) where
  -- What holds after a statement, where it is served.
  pub after_served :
      {A : Type 0} (serves : ServesAllowed env tables) (s : SeedStatement)
      (f : SeedAnswer s → Script A) (w : W) (P : Result A × W → Type 0)
      → Allowed s (tables w)
      → ((a : SeedAnswer s) (v : W) → SeedEffect s (tables w) a (tables v) → P (run env (f a) v))
      → P (run env (call (prisma s) (λ r. settle r >>= f)) w)
  after_served serves s f w P fine go =
      let (a, e) = serves s w fine in
      let v = (env (prisma s) w).1 in
      subst (λ r. P (run env (settle {C = SeedCall} {R = SeedReply} r >>= f) v)) (sym e)
        (go a v (db.seed_ok s w a e))

  pub run-clear :
      (serves : ServesAllowed env tables) (ids : List ℕ) (w : W)
      (P : Result (Unit {0}) × W → Type 0)
      → ((v : W) → tables v ≡ without ids (tables w) → P (ok tt, v))
      → P (run env (clear ids) w)
  unfolding clear
  run-clear serves ids w P go = after_served serves (delete_orders ids) _ w P tt (λ n u orders.
      after_served serves (delete_inventories ids) _ u P tt (λ m v inventories.
        after_served serves (delete_products ids) _ v P (referred u v orders.1 inventories.1)
          (λ k x products. go x (cc (orders.1, inventories.1, products.1)))))
    where
      referred :
          (u v : W)
          → tables u ≡ record (tables w) {
            orders = filterb (λ o. not (among ids o.product_id)) (tables w).orders;
          }
          → tables v ≡ record (tables u) {
            inventories = filterb (λ i. not (among ids i.product_id)) (tables u).inventories;
          }
          → Allowed (delete_products ids) (tables v)
      referred u v d e = subst (Allowed (delete_products ids)) (sym e) (
          subst
            (λ t. Allowed (delete_products ids) (record t {
              inventories = filterb (λ i. not (among ids i.product_id)) t.inventories;
            }))
            (sym d)
            (
              allb-filterb (λ o. not (among ids o.product_id)) (tables w).orders,
              allb-filterb (λ i. not (among ids i.product_id)) (tables w).inventories,
            ))
