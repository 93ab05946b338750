-- ===== src/Http/Pricing.antt =====
-- A change of a price on its way through validation pipe, controller and service.
use flash_sale_lab.Base.{ℕ, String, ◌≡◌, refl, true, arith}
use flash_sale_lab.Base.Int.{ℤ}
use flash_sale_lab.Io.{Result, ok, err, pure, ◌>>=◌, ◌>>◌, settle}
use flash_sale_lab.Io.Run.{run, then_run, run->>=}
use flash_sale_lab.Io.Tasks.{Calls, calls_rules}
use flash_sale_lab.Platform.{Call, Reply, Prog, statement, direct}
use flash_sale_lab.Platform.Database.{Product, update_price}
use flash_sale_lab.Platform.Laws.{Tables, Effect, IsDatabase}
use flash_sale_lab.Platform.Laws.Local.{IsLocal, local_keeps}
use flash_sale_lab.Redis
use flash_sale_lab.Product
use flash_sale_lab.Product.{product_key}
use flash_sale_lab.Http.Latency.{Request}
use flash_sale_lab.Http.Controllers.{is_valid_price, IsPipe, serve, patch_price}
use flash_sale_lab.Http.Placing.{identified, before, before_keeps, serve_lem}

-- What a request for a new price may come to.
abbrev pub Answers : Result ℕ → Result ℤ → Tables → Result Product → Tables → Type 0
Answers id price t (ok q) u =
    (n : ℕ) × (p : ℤ) × (id ≡ ok n)
    × (price ≡ ok p)
    × (is_valid_price p ≡ true)
    × Effect (update_price n p) t q u
Answers id price t (err e) u = u ≡ t

del-Calls : (n : ℕ) → Calls IsLocal (Redis.del (product_key n))
unfolding Redis.del
del-Calls n = search calls_rules depth 12

module _ {W : Type 0} (env : (c : Call) → W → Reply c × W) (tables : W → Tables)
    (db : IsDatabase env tables) where
  del_ok : (n : ℕ) (w : W) → (run env (Redis.del (product_key n)) w).0 ≡ ok tt
  unfolding Redis.del
  del_ok n w = ground arith

  after_del :
      (q : Product) (x : Result (Unit {0}) × W)
      → x.0 ≡ ok tt
      → then_run env (λ u. pure q) x ≡ (ok q, x.1)
  after_del q (ok u, w) e = refl
  after_del q (err x, w) e = cc

  -- What follows the statement.
  abbrev drop_cached : ℕ → Product → Prog Product
  drop_cached n q = do Redis.del (product_key n); pure q

  run-drop_cached :
      (n : ℕ) (q : Product) (w : W)
      → run env (drop_cached n q) w ≡ (ok q, (run env (Redis.del (product_key n)) w).1)
  run-drop_cached n q w =
      rw (run->>= env (Redis.del (product_key n)) (λ u. pure q) w)
        (after_del q (run env (Redis.del (product_key n)) w) (del_ok n w))

  abbrev Changes : ℕ → ℤ → Tables → Result Product → Tables → Type 0
  Changes n p t (ok q) u = Effect (update_price n p) t q u
  Changes n p t (err e) u = u ≡ t

  replied-Changes :
      (n : ℕ) (p : ℤ) (w : W) (r : Result Product)
      → (env (statement (update_price n p)) w).0 ≡ r
      → let x =
          run env (direct (settle r) >>= drop_cached n) (env (statement (update_price n p)) w).1 in
        Changes n p (tables w) x.0 (tables x.1)
  replied-Changes n p w (ok q) e =
      let w1 = (env (statement (update_price n p)) w).1 in
      rw
        (
          run-drop_cached n q w1,
          local_keeps env tables db (Redis.del (product_key n)) w1 (del-Calls n),
        )
        (db.statement_ok (update_price n p) w q e)
  replied-Changes n p w (err x) e = db.statement_err (update_price n p) w x e

  update_price_of-Changes :
      (n : ℕ) (p : ℤ) (w : W)
      → let x = run env (Product.update_price_of n p) w in Changes n p (tables w) x.0 (tables x.1)
  unfolding Product.update_price_of
  update_price_of-Changes n p w = replied-Changes n p w _ refl

  module _ {Raw : Type 0} (pipe : Raw → Result ℤ) (law : IsPipe is_valid_price pipe)
      (body : Raw) where
    valid-Answers :
        (n : ℕ) (p : ℤ) (t u : Tables) (r : Result Product)
        → pipe body ≡ ok p
        → Changes n p t r u
        → Answers (ok n) (pipe body) t r u
    valid-Answers n p t u (ok q) e h = (n, p, refl, e, law.accepts body p e, h)
    valid-Answers n p t u (err x) e h = h

    piped-Answers :
        (n : ℕ) (r : Result ℤ) (w : W)
        → pipe body ≡ r
        → let x = run env (do price ← settle r; Product.update_price_of n price) w in
          Answers (ok n) (pipe body) (tables w) x.0 (tables x.1)
    piped-Answers n (ok p) w e = valid-Answers n p (tables w) _ _ e (update_price_of-Changes n p w)
    piped-Answers n (err x) w e = refl

    parsed-Answers :
        (id : Result ℕ) (w : W)
        → let x =
            run env
              (do n ← settle id; price ← settle (pipe body); Product.update_price_of n price)
              w in
          Answers id (pipe body) (tables w) x.0 (tables x.1)
    parsed-Answers (ok n) w = piped-Answers n (pipe body) w refl
    parsed-Answers (err x) w = refl

    patch_price-Answers :
        (parse_int : String → Result ℕ) (param : String) (request : Request) (w : W)
        → let x = run env (patch_price parse_int param pipe body request) w in
          Answers (parse_int param) (pipe body) (tables w) x.0 (tables x.1)
    unfolding patch_price
    patch_price-Answers parse_int param request w = parsed-Answers (parse_int param) w

-- A request for a new price either returns a product, and then its id parses, its price is at least 0,
-- and the row of that id has the new price and nothing else has changed; or it throws and leaves the
-- tables as they were.
pub serve-patch_price-Answers :
    {W Raw : Type 0} (env : (c : Call) → W → Reply c × W) (tables : W → Tables)
    (db : IsDatabase env tables) (pipe : Raw → Result ℤ) (law : IsPipe is_valid_price pipe)
    (parse_int : String → Result ℕ) (param : String) (request : Request) (body : Raw) (w : W)
    → let x = run env (serve request (patch_price parse_int param pipe body)) w in
      Answers (parse_int param) (pipe body) (tables w) x.0 (tables x.1)
serve-patch_price-Answers env tables db pipe law parse_int param request body w =
    let (same, kept) = serve_lem env tables db request (patch_price parse_int param pipe body) w in
    rw (same, kept, ← before_keeps env tables db w)
      (patch_price-Answers env tables db pipe law body parse_int param
        (identified env tables db request w) (before env tables db w))
