-- ===== src/Http/Placing.antt =====
-- An order on its whole way through middleware, interceptor, pipe, controller and service.
use flash_sale_lab.Base.{ℕ, String, ◌≡◌, refl, ◌∙◌, true, Option}
use flash_sale_lab.Io.{Result, ok, err, ◌>>=◌, settle}
use flash_sale_lab.Io.Run.{run}
use flash_sale_lab.Io.Tasks.{Calls, calls_rules}
use flash_sale_lab.Platform.{Call, Reply, Prog, local, now, random_uuid, set_header}
use flash_sale_lab.Platform.Database.{CreateOrderInput, Order}
use flash_sale_lab.Platform.Laws.{Tables, IsDatabase}
use flash_sale_lab.Platform.Laws.Local.{IsLocal, local_keeps}
use flash_sale_lab.Order.Service
use flash_sale_lab.Order.Service.Atomic.{Placed, create-Placed, create_atomic}
use flash_sale_lab.Http.Latency.{Request, finalize, error_status_of}
use flash_sale_lab.Http.Passing.{run-intercept}
use flash_sale_lab.Http.Controllers.{is_valid_order, IsPipe, serve, post_order}

finalize-Calls :
    (request : Request) (started_at : ℕ) (error_status : Option ℕ)
    → Calls IsLocal (finalize request started_at error_status)
unfolding finalize
finalize-Calls request started_at error_status = search calls_rules depth 16

module _ {W : Type 0} (env : (c : Call) → W → Reply c × W) (tables : W → Tables)
    (db : IsDatabase env tables) where
  -- What the middleware makes of a request, and the world in which the handler starts.
  abbrev pub identified : Request → W → Request
  identified request w = record request { request_id = (env (local random_uuid) w).0 }

  abbrev pub before : W → W
  before w =
      let (request_id, w1) = env (local random_uuid) w in
      (env (local now) (env (local (set_header "X-Request-Id" request_id)) w1).1).1

  pub before_keeps : (w : W) → tables (before w) ≡ tables w
  before_keeps w =
      db.others_keep (local now) _ refl
      ∙ db.others_keep (local (set_header _ _)) _ refl
      ∙ db.others_keep (local random_uuid) w refl

  -- Serving hands on the result of the route and touches the tables no further.
  pub serve_lem :
      {A : Type 0} (request : Request) (route : Request → Prog A) (w : W)
      → let x = run env (serve request route) w in
        let y = run env (route (identified request w)) (before w) in
        (x.0 ≡ y.0) × (tables x.1 ≡ tables y.1)
  unfolding serve
  serve_lem request route w =
      let served = identified request w in
      let (request_id, w1) = env (local random_uuid) w in
      let w2 = (env (local (set_header "X-Request-Id" request_id)) w1).1 in
      let y = run env (route served) (before w) in
      rw (run-intercept env served (route served) w2) (
        refl,
        local_keeps env tables db (finalize served (env (local now) w2).0 (error_status_of y.0)) y.1
            (finalize-Calls served (env (local now) w2).0 (error_status_of y.0)),
      )

-- What a request for an order may come to: an order that the constraints allow and that is placed, or
-- an exception and the tables as they were.
abbrev pub Answers :
    {Raw : Type 0}
    → (Raw → Result CreateOrderInput)
    → Raw
    → String
    → Tables
    → Result Order
    → Tables
    → Type 0
Answers pipe body request_id t (ok o) u =
    (dto : CreateOrderInput) × (pipe body ≡ ok dto)
    × (is_valid_order dto ≡ true)
    × Placed dto request_id t o u
Answers pipe body request_id t (err e) u = u ≡ t

module _ {W Raw : Type 0} (env : (c : Call) → W → Reply c × W) (tables : W → Tables)
    (db : IsDatabase env tables) (pipe : Raw → Result CreateOrderInput)
    (law : IsPipe is_valid_order pipe) (request : Request) (body : Raw) where
  created-Answers :
      (dto : CreateOrderInput) (w : W) (r : Result Order)
      → pipe body ≡ ok dto
      → (run env (Service.create dto request.request_id) w).0 ≡ r
      → Answers pipe body request.request_id
          (tables w)
          r
          (tables (run env (Service.create dto request.request_id) w).1)
  created-Answers dto w (ok o) e h =
      (dto, e, law.accepts body dto e, create-Placed env tables db dto request.request_id w o h)
  created-Answers dto w (err x) e h = create_atomic env tables db dto request.request_id w x h

  settled-Answers :
      (r : Result CreateOrderInput) (w : W)
      → pipe body ≡ r
      → let x = run env (do dto ← settle r; Service.create dto request.request_id) w in
        Answers pipe body request.request_id (tables w) x.0 (tables x.1)
  settled-Answers (ok dto) w e = created-Answers dto w _ e refl
  settled-Answers (err x) w e = refl

  post_order-Answers :
      (w : W)
      → let x = run env (post_order pipe body request) w in
        Answers pipe body request.request_id (tables w) x.0 (tables x.1)
  unfolding post_order
  post_order-Answers w = settled-Answers (pipe body) w refl

-- A request for an order, on its whole way through middleware, interceptor, validation pipe,
-- controller and service, either returns an order, whose user, product and quantity are at least 1 and
-- which is placed with the request id that was drawn for it, or throws and leaves the tables as they
-- were.
pub serve-post_order-Answers :
    {W Raw : Type 0} (env : (c : Call) → W → Reply c × W) (tables : W → Tables)
    (db : IsDatabase env tables) (pipe : Raw → Result CreateOrderInput)
    (law : IsPipe is_valid_order pipe) (request : Request) (body : Raw) (w : W)
    → let x = run env (serve request (post_order pipe body)) w in
      Answers pipe body (env (local random_uuid) w).0 (tables w) x.0 (tables x.1)
serve-post_order-Answers env tables db pipe law request body w =
    let (same, kept) = serve_lem env tables db request (post_order pipe body) w in
    rw (same, kept, ← before_keeps env tables db w)
      (post_order-Answers env tables db pipe law (identified env tables db request w) body
        (before env tables db w))
