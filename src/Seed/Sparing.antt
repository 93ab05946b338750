-- ===== src/Seed/Sparing.antt =====
-- The seed script where statements may fail at any point: there is no transaction around them.
use flash_sale_lab.Base.{
  ℕ, ◌≡◌, ◌⊎◌, inl, inr, refl, sym, ap, subst, ◌∙◌, not, List, [], ◌∷◌, ltb, length, map, filterb,
  each, filterb_cong, if◌then◌else◌,
}
use flash_sale_lab.Io.{Error, Result, Result-cases, ok, err, pure, call, settle, ◌>>=◌}
use flash_sale_lab.Io.Run.{run, then_run, run->>=, finally_run, run-finally}
use flash_sale_lab.Seed.{
  User, SeedStatement, upsert_user, find_products, delete_orders, delete_inventories,
  delete_products, create_product, disconnect, SeedAnswer, SeedCall, prisma, console_log, SeedReply,
  Script, seed_email, seed_name, seed_price, seed_stock, clear, plant, main,
}
use flash_sale_lab.Seed.Laws.{
  SeedTables, among, is_id_of, SeedEffect, IsSeedDatabase, UniqueProducts,
}
use flash_sale_lab.Seed.Clearing.{without, without-nil}
use flash_sale_lab.Seed.Planting.{
  IsPlanted, found_ids, unplanted, without-unplanted, ltb-suc, upsert_keeps, assemble,
}

-- With the deletions of orders, and of inventories, by ids.
abbrev fewer_orders : List ℕ → SeedTables → SeedTables
fewer_orders ids t = record t { orders = filterb (λ o. not (among ids o.product_id)) t.orders }

abbrev fewer_inventories : List ℕ → SeedTables → SeedTables
fewer_inventories ids t = record (fewer_orders ids t) {
  inventories = filterb (λ i. not (among ids i.product_id)) t.inventories;
}

-- Without the orders of the products of the seed's name, and without their inventories too.
abbrev pub without_orders : SeedTables → SeedTables
without_orders t = record t {
  orders = filterb (λ o. not (is_id_of seed_name t.products o.product_id)) t.orders;
}

abbrev pub without_inventories : SeedTables → SeedTables
without_inventories t = record (without_orders t) {
  inventories = filterb (λ i. not (is_id_of seed_name t.products i.product_id)) t.inventories;
}

-- `v` is `t`, perhaps with the seed's user, less nothing, or the orders of the products of the seed's
-- name, or those and their inventories, or those and the products.
abbrev pub IsLeft : SeedTables → SeedTables → Type 0
IsLeft t v =
    (u : SeedTables) × ((u ≡ t)
      ⊎ ((user : User) × (user.email ≡ seed_email) × (u ≡ record t { users = user ∷ t.users })))
    × ((v ≡ u) ⊎ ((v ≡ without_orders u) ⊎ ((v ≡ without_inventories u) ⊎ (v ≡ unplanted u))))

upserted_or_not :
    (t u : SeedTables) (user : User)
    → SeedEffect (upsert_user seed_email) t user u
    → (u ≡ t)
      ⊎ ((user : User) × (user.email ≡ seed_email) × (u ≡ record t { users = user ∷ t.users }))
upserted_or_not t u user (inl (e, same)) = inl same
upserted_or_not t u user (inr (e, n, f, same)) = inr (user, n, same)

module _ (t : SeedTables) (ids : List ℕ)
    (h : (n : ℕ) → among ids n ≡ is_id_of seed_name t.products n) where
  fewer_orders_lem : fewer_orders ids t ≡ without_orders t
  fewer_orders_lem =
      ap (λ z. record t { orders = z })
        (filterb_cong (λ o. not (among ids o.product_id))
          (λ o. not (is_id_of seed_name t.products o.product_id)) t.orders
          (each (λ o. ap not (h o.product_id)) t.orders))

  fewer_inventories_lem : fewer_inventories ids t ≡ without_inventories t
  fewer_inventories_lem =
      ap (λ z. record (fewer_orders ids t) { inventories = z })
        (filterb_cong (λ i. not (among ids i.product_id))
          (λ i. not (is_id_of seed_name t.products i.product_id)) t.inventories
          (each (λ i. ap not (h i.product_id)) t.inventories))
      ∙ ap
          (λ (z : SeedTables). record z {
            inventories =
                filterb (λ i. not (is_id_of seed_name t.products i.product_id)) t.inventories;
          })
          fewer_orders_lem

left_by :
    (u v x : SeedTables) (ids : List ℕ)
    → v ≡ u
    → ((n : ℕ) → among ids n ≡ is_id_of seed_name u.products n)
    → (x ≡ v) ⊎ ((x ≡ fewer_orders ids v) ⊎ (x ≡ fewer_inventories ids v))
    → (x ≡ u) ⊎ ((x ≡ without_orders u) ⊎ ((x ≡ without_inventories u) ⊎ (x ≡ unplanted u)))
left_by u v x ids same right (inl e) = inl (e ∙ same)
left_by u v x ids same right (inr (inl e)) =
    inr (inl (e ∙ ap (fewer_orders ids) same ∙ fewer_orders_lem u ids right))
left_by u v x ids same right (inr (inr e)) =
    inr (inr (inl (e ∙ ap (fewer_inventories ids) same ∙ fewer_inventories_lem u ids right)))

module _ {W : Type 0} (env : (c : SeedCall) → W → SeedReply c × W) (tables : W → SeedTables)
    (db : IsSeedDatabase env tables) where
  -- What holds after a statement, served or not.
  after_any :
      {A : Type 0} (s : SeedStatement) (f : SeedAnswer s → Script A) (w : W)
      (P : Result A × W → Type 0)
      → ((e : Error) (v : W) → tables v ≡ tables w → P (err e, v))
      → ((a : SeedAnswer s) (v : W) → SeedEffect s (tables w) a (tables v) → P (run env (f a) v))
      → P (run env (call (prisma s) (λ r. settle r >>= f)) w)
  after_any s f w P stop go =
      let v = (env (prisma s) w).1 in
      elim (Result-cases (env (prisma s) w).0) [
        | inl (a, e) ↦
            subst (λ r. P (run env (settle {C = SeedCall} {R = SeedReply} r >>= f) v)) (sym e)
              (go a v (db.seed_ok s w a e))
        | inr (x, e) ↦
            subst (λ r. P (run env (settle {C = SeedCall} {R = SeedReply} r >>= f) v)) (sym e)
              (stop x v (db.seed_err s w x e))
      ]

  run-clear_any :
      (ids : List ℕ) (w : W) (P : Result (Unit {0}) × W → Type 0)
      → ((e : Error) (v : W)
          → (tables v ≡ tables w)
            ⊎ ((tables v ≡ fewer_orders ids (tables w))
                ⊎ (tables v ≡ fewer_inventories ids (tables w)))
          → P (err e, v))
      → ((v : W) → tables v ≡ without ids (tables w) → P (ok tt, v))
      → P (run env (clear ids) w)
  unfolding clear
  run-clear_any ids w P stop go =
      after_any (delete_orders ids) _ w P (λ e u same. stop e u (inl same))
        (λ n u orders.
          after_any (delete_inventories ids) _ u P
            (λ e v same. stop e v (inr (inl (same ∙ orders.1))))
            (λ m v inventories.
              let kept =
                inventories.1
                ∙ ap
                    (λ (t : SeedTables). record t {
                      inventories = filterb (λ i. not (among ids i.product_id)) t.inventories;
                    })
                    orders.1 in
              after_any (delete_products ids) _ v P (λ e x same. stop e x (inr (inr (same ∙ kept))))
                (λ k x products. go x (
                  products.1
                  ∙ ap
                      (λ (t : SeedTables). record t {
                        products = filterb (λ p. not (among ids p.id)) t.products;
                      })
                      kept))))

  run-cleared_any :
      (ids : List ℕ) (w : W) (P : Result (Unit {0}) × W → Type 0)
      → ((e : Error) (v : W)
          → (tables v ≡ tables w)
            ⊎ ((tables v ≡ fewer_orders ids (tables w))
                ⊎ (tables v ≡ fewer_inventories ids (tables w)))
          → P (err e, v))
      → ((v : W) → tables v ≡ without ids (tables w) → P (ok tt, v))
      → P (run env (if ltb 0 (length ids) then clear ids else pure tt) w)
  run-cleared_any [] w P stop go = go w (sym (without-nil (tables w)))
  run-cleared_any (n ∷ ids) w P stop go =
      subst (λ b. P (run env (if b then clear (n ∷ ids) else pure tt) w))
        (sym (ltb-suc (length ids))) (run-clear_any (n ∷ ids) w P stop go)

  run-plant_any :
      (w : W) (P : Result (Unit {0}) × W → Type 0)
      → UniqueProducts (tables w).products
      → ((e : Error) (v : W) → IsLeft (tables w) (tables v) → P (err e, v))
      → ((v : W) → IsPlanted (tables w) (tables v) → P (ok tt, v))
      → P (run env plant w)
  unfolding plant
  run-plant_any w P unique stop go =
      after_any (upsert_user seed_email) _ w P (λ e v same. stop e v (tables w, inl refl, inl same))
        (λ user u used.
          let grown = upserted_or_not (tables w) (tables u) user used in
          after_any (find_products seed_name) _ u P
            (λ e v same. stop e v (tables u, grown, inl same))
            (λ rows v found.
              let ids = map (λ p. p.id) rows in
              let right = found_ids (tables u) rows found.0 in
              let create = λ (x : Unit {0}).
                call (prisma (create_product seed_name seed_price seed_stock)) settle >>= λ made.
                call (console_log user made) pure in
              subst P
                (sym (run->>= env (if ltb 0 (length ids) then clear ids else pure tt) create v))
                (run-cleared_any ids v (λ r. P (then_run env create r))
                  (λ e x left. stop e x (
                    tables u,
                    grown,
                    left_by (tables u) (tables v) (tables x) ids found.1 right left,
                  ))
                  (λ x gone.
                    let all_gone =
                      gone
                      ∙ ap (without ids) found.1
                      ∙ without-unplanted (tables u) ids
                          (subst (λ t. UniqueProducts t.products)
                            (sym (upsert_keeps (tables w) (tables u) user used).1) unique)
                          right in
                    after_any (create_product seed_name seed_price seed_stock) _ x P
                      (λ e y same. stop e y (tables u, grown, inr (inr (inr (same ∙ all_gone)))))
                      (λ made y created. go (env (console_log user made) y).1 (
                        subst (IsPlanted (tables w)) (sym (db.log_keeps user made y)) (
                          assemble (tables w) (tables u) (tables x) (tables y) user made used
                            all_gone created)))))))

  -- Whatever statements of the seed script fail, if the ids of products are unique: either its product
  -- is planted, or the script throws, and then the tables are as they were, perhaps with the user of
  -- the seed's address, less nothing, or the orders of the products of the seed's name, or those and
  -- their inventories, or those and the products.
  pub main-IsLeft :
      (w : W)
      → UniqueProducts (tables w).products
      → let (r, v) = run env main w in
        IsPlanted (tables w) (tables v)
        ⊎ (((e : Error) × (r ≡ err e)) × IsLeft (tables w) (tables v))
  unfolding main
  main-IsLeft w unique =
      let P = λ (r : Result (Unit {0}) × W).
        IsPlanted (tables w) (tables r.1)
        ⊎ (((e : Error) × (r.0 ≡ err e)) × IsLeft (tables w) (tables r.1)) in
      subst P (sym (run-finally env plant (call (prisma disconnect) settle) w)) (
        run-plant_any w (λ r. P (finally_run env (call (prisma disconnect) settle) r)) unique
          (λ e v left.
            after_any disconnect _ v P
              (λ x y same. inr ((x, refl), subst (IsLeft (tables w)) (sym same) left))
              (λ a y same. inr ((e, refl), subst (IsLeft (tables w)) (sym same) left)))
          (λ v planted.
            after_any disconnect _ v P
              (λ x y same. inl (subst (IsPlanted (tables w)) (sym same) planted))
              (λ a y same. inl (subst (IsPlanted (tables w)) (sym same) planted))))
