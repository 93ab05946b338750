-- ===== src/Tests/Http.antt =====
-- Health checks and requests at concrete inputs.
use flash_sale_lab.Base.{
  ℕ, String, ◌≡◌, refl, subst, [], ◌∷◌, none, Bool, true, false, str_eq, arith, if◌then◌else◌,
}
use flash_sale_lab.Base.Int.{pos}
use flash_sale_lab.Io.{Error, http, Result, ok, err, pure}
use flash_sale_lab.Platform.Laws.Bodies.{ok-injective}
use flash_sale_lab.Io.Run.{run}
use flash_sale_lab.Order.Service
use flash_sale_lab.Health.{redis_health, postgresql_health, rabbitmq_health}
use flash_sale_lab.Health.Truthful
use flash_sale_lab.Health.Truthful.{Tells, indicators-Tells}
use flash_sale_lab.Http.Latency.{Request, error_status, intercept}
use flash_sale_lab.Http.Reports
use flash_sale_lab.Http.Latency
use flash_sale_lab.Redis
use flash_sale_lab.Http.Reports.{Intercepts, intercept-Intercepts}
use flash_sale_lab.Http.Controllers.{
  is_valid_order, is_valid_price, IsPipe, serve, post_order, get_order, get_product, get_stock,
  patch_price, get_metrics,
}
use flash_sale_lab.Http.Placing
use flash_sale_lab.Http.Placing.{serve-post_order-Answers}
use flash_sale_lab.Http.Pricing
use flash_sale_lab.Http.Pricing.{serve-patch_price-Answers}
use flash_sale_lab.Http.Getting.{serve_keeps}
use flash_sale_lab.Http.Counting.{Counts, get_metrics-Counts}
use flash_sale_lab.Tests.Outbox.{one_event}
use flash_sale_lab.Tests.Memory.{World, memory_env, memory_env-IsDatabase}
use flash_sale_lab.Tests.Orders.{last_item, wanted, two_wanted, first_order}

abbrev posted : Request
posted = record { request_id = "6f1c"; method = "POST"; path = "/orders"; route = none }

indicators-Tells_example :
    Tells "redis" true [] (run (Truthful.kept memory_env) redis_health (last_item, []))
    × Tells "postgresql" true [] (run (Truthful.kept memory_env) postgresql_health (last_item, []))
    × Tells "rabbitmq" true [] (run (Truthful.kept memory_env) rabbitmq_health (last_item, []))
indicators-Tells_example = indicators-Tells memory_env last_item []

intercept-Intercepts_example :
    Intercepts memory_env posted 100000
      (run (Reports.kept memory_env) (Service.create two_wanted "6f1c") (last_item, []))
      (run
        (Reports.kept memory_env)
        (intercept posted (Service.create two_wanted "6f1c"))
        (last_item, []))
intercept-Intercepts_example =
    intercept-Intercepts memory_env posted (Service.create two_wanted "6f1c") last_item []

abbrev refusal : Error
refusal = http 400 "Bad Request"

-- A pipe that takes what is well typed and tests it.
abbrev checked : {Dto : Type 0} → (Dto → Bool) → Dto → Result Dto
checked is_valid dto = if is_valid dto then ok dto else err refusal

checked_accepts :
    {Dto : Type 0} (b : Bool) (raw dto : Dto)
    → (if b then ok raw else err refusal) ≡ ok dto
    → (raw ≡ dto) × (b ≡ true)
checked_accepts true raw dto h = (ok-injective h, refl)
checked_accepts false raw dto h = cc

checked_refuses :
    {Dto : Type 0} (b : Bool) (raw : Dto) (e : Error)
    → (if b then ok raw else err refusal) ≡ err e
    → error_status e ≡ 400
unfolding error_status
checked_refuses true raw e h = cc
checked_refuses false raw e h = ground (arith, h)

checked-IsPipe : {Dto : Type 0} (is_valid : Dto → Bool) → IsPipe is_valid (checked is_valid)
checked-IsPipe is_valid = record {
  accepts = λ raw dto h.
      let (same, valid) = checked_accepts (is_valid raw) raw dto h in
      subst (λ d. is_valid d ≡ true) same valid;
  refuses = λ raw e h. checked_refuses (is_valid raw) raw e h;
}

serve-post_order-Answers_example :
    let x = run memory_env (serve posted (post_order (checked is_valid_order) wanted)) last_item in
    Placing.Answers (checked is_valid_order) wanted "6f1c" last_item.tables x.0 x.1.tables
serve-post_order-Answers_example =
    serve-post_order-Answers memory_env (λ w. w.tables) memory_env-IsDatabase
      (checked is_valid_order) (checked-IsPipe is_valid_order) posted wanted last_item

order_served :
    (run memory_env (serve posted (post_order (checked is_valid_order) wanted)) last_item).0
    ≡ ok first_order
unfolding serve post_order is_valid_order Latency.error_status_of Latency.finalize
order_served = refl

abbrev pub one_product : World
one_product = record {
  tables = record {
    products = record { id = 1; name = "lamp"; price = pos 900 } ∷ [];
    inventories = [];
    orders = [];
    events = [];
  };
  active = 0;
}

abbrev parse_one : String → Result ℕ
parse_one param = if str_eq param "1" then ok 1 else err refusal

serve-patch_price-Answers_example :
    let x =
      run memory_env
        (serve posted (patch_price parse_one "1" (checked is_valid_price) (pos 800)))
        one_product in
    Pricing.Answers
      (parse_one "1")
      (checked is_valid_price (pos 800))
      one_product.tables
      x.0
      x.1.tables
serve-patch_price-Answers_example =
    serve-patch_price-Answers memory_env (λ w. w.tables) memory_env-IsDatabase
      (checked is_valid_price) (checked-IsPipe is_valid_price) parse_one "1" posted (pos 800)
      one_product

price_served :
    (run memory_env
      (serve posted (patch_price parse_one "1" (checked is_valid_price) (pos 800)))
      one_product).0
    ≡ ok (record { id = 1; name = "lamp"; price = pos 800 })
unfolding serve patch_price is_valid_price Redis.del Latency.error_status_of Latency.finalize
price_served = refl

get_metrics-Counts_example :
    let x = run (Truthful.kept memory_env) (get_metrics (pure "metrics") posted) (one_event, []) in
    Counts one_event.tables [] x.0 x.1.1 × (x.1.0.tables ≡ one_event.tables)
get_metrics-Counts_example =
    get_metrics-Counts memory_env (λ w. w.tables) memory_env-IsDatabase "metrics" posted one_event
      []

serve_keeps_example :
    ((run memory_env (serve posted (get_order parse_one "1")) one_product).1.tables
      ≡ one_product.tables)
    × ((run memory_env (serve posted (get_product parse_one "1")) one_product).1.tables
        ≡ one_product.tables)
    × ((run memory_env (serve posted (get_stock parse_one "1")) one_product).1.tables
        ≡ one_product.tables)
serve_keeps_example =
    serve_keeps memory_env (λ w. w.tables) memory_env-IsDatabase parse_one "1" posted one_product
