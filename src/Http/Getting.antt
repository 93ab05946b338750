-- ===== src/Http/Getting.antt =====
-- What the routes that only read leave as it is.
use flash_sale_lab.Base.{ℕ, String, ◌≡◌, refl, ◌∙◌, Bool, true, false, Option, none, some, inl, inr}
use flash_sale_lab.Io.{Result, Result-cases, ok, err, pure, throw, call, settle}
use flash_sale_lab.Io.Run.{run}
use flash_sale_lab.Io.Tasks.{Calls, ends, throws, calls, calls_rules}
use flash_sale_lab.Platform.{Call, Reply, Prog, statement, direct}
use flash_sale_lab.Platform.Cache.{CacheText, product_json, plain}
use flash_sale_lab.Platform.Database
use flash_sale_lab.Platform.Database.{
  Order, Inventory, Statement, Answer, find_inventory, find_order, find_events, count_events,
  find_product, update_inventories, create_order, create_event, update_events, update_event,
  update_price,
}
use flash_sale_lab.Platform.Laws.{Tables, Effect, is_database, IsDatabase}
use flash_sale_lab.Redis
use flash_sale_lab.Order.Service.{or_not_found}
use flash_sale_lab.Product.{or_no_stock, fill_cache, parse_product}
use flash_sale_lab.Http.Latency.{Request}
use flash_sale_lab.Http.Controllers.{serve, get_order, get_product, get_stock}
use flash_sale_lab.Http.Placing.{identified, before, before_keeps, serve_lem}

abbrev is_search : Statement → Bool
is_search (find_inventory p) = true
is_search (find_order n) = true
is_search (find_events c n) = true
is_search (count_events c) = true
is_search (find_product n) = true
is_search _ = false

-- A search, or a call of something else than the database.
data IsReading : Call → Type 0 where
  searches : {s : Statement} → is_search s ≡ true → IsReading (statement s)
  other : {c : Call} → is_database c ≡ false → IsReading c

search_keeps :
    (s : Statement) (t : Tables) (a : Answer s) (u : Tables)
    → is_search s ≡ true
    → Effect s t a u
    → u ≡ t
search_keeps (find_inventory p) t a u h e = e.1
search_keeps (find_order n) t a u h e = e.1
search_keeps (find_events c n) t a u h e = e.1
search_keeps (count_events c) t a u h e = e.1
search_keeps (find_product n) t a u h e = e.1
search_keeps (update_inventories c d) t a u h e = cc
search_keeps (create_order i) t a u h e = cc
search_keeps (create_event k p) t a u h e = cc
search_keeps (update_events c d) t a u h e = cc
search_keeps (update_event n d) t a u h e = cc
search_keeps (update_price n p) t a u h e = cc

direct-settle : {A : Type 0} (r : Result A) → Calls IsReading (direct (settle r))
direct-settle (ok a) = ends
direct-settle (err e) = throws

ruleset reading_rules = (calls_rules, direct-settle, searches, other, refl)

or_not_found-Calls : (o : Option Order) → Calls IsReading (or_not_found o)
or_not_found-Calls none = throws
or_not_found-Calls (some o) = ends

get_order-Calls :
    (parse_int : String → Result ℕ) (param : String) (request : Request)
    → Calls IsReading (get_order parse_int param request)
unfolding get_order
get_order-Calls parse_int param request = search (reading_rules, or_not_found-Calls) depth 12

or_no_stock-Calls : (o : Option Inventory) → Calls IsReading (or_no_stock o)
or_no_stock-Calls none = throws
or_no_stock-Calls (some o) = ends

get_stock-Calls :
    (parse_int : String → Result ℕ) (param : String) (request : Request)
    → Calls IsReading (get_stock parse_int param request)
unfolding get_stock
get_stock-Calls parse_int param request = search (reading_rules, or_no_stock-Calls) depth 12

fill_cache-Calls : (n : ℕ) (o : Option Database.Product) → Calls IsReading (fill_cache n o)
unfolding fill_cache Redis.set
fill_cache-Calls n none = throws
fill_cache-Calls n (some p) = search reading_rules depth 12

parse_product-Calls : (v : Option CacheText) → Calls IsReading (parse_product v)
parse_product-Calls none = throws
parse_product-Calls (some (product_json p)) = ends
parse_product-Calls (some (plain s)) = throws

get_product-Calls :
    (parse_int : String → Result ℕ) (param : String) (request : Request)
    → Calls IsReading (get_product parse_int param request)
unfolding get_product Redis.get
get_product-Calls parse_int param request =
    search (reading_rules, fill_cache-Calls, parse_product-Calls) depth 14

module _ {W : Type 0} (env : (c : Call) → W → Reply c × W) (tables : W → Tables)
    (db : IsDatabase env tables) where
  call_keeps : (c : Call) (w : W) → IsReading c → tables (env c w).1 ≡ tables w
  call_keeps (statement s) w (searches h) = elim (Result-cases (env (statement s) w).0) [
    | inl (a, e) ↦ search_keeps s _ a _ h (db.statement_ok s w a e)
    | inr (x, e) ↦ db.statement_err s w x e
  ]
  call_keeps c w (other h) = db.others_keep c w h

  reading_keeps :
      {A : Type 0} (m : Prog A) (w : W) → Calls IsReading m → tables (run env m w).1 ≡ tables w
  reading_keeps (pure a) w h = refl
  reading_keeps (throw e) w h = refl
  reading_keeps (call c k) w (calls h hk) =
      reading_keeps (k (env c w).0) (env c w).1 (hk (env c w).0) ∙ call_keeps c w h

  serving_keeps :
      {A : Type 0} (route : Request → Prog A) (request : Request) (w : W)
      → ((served : Request) → Calls IsReading (route served))
      → tables (run env (serve request route) w).1 ≡ tables w
  serving_keeps route request w h =
      let served = identified env tables db request w in
      (serve_lem env tables db request route w).1
      ∙ reading_keeps (route served) (before env tables db w) (h served)
      ∙ before_keeps env tables db w

  -- The requests for an order, for a product and for its stock leave the tables as they are, on their
  -- whole way through middleware, interceptor, pipe, controller and service, whatever the database, the
  -- cache and the pipe answer.
  pub serve_keeps :
      (parse_int : String → Result ℕ) (param : String) (request : Request) (w : W)
      → (tables (run env (serve request (get_order parse_int param)) w).1 ≡ tables w)
        × (tables (run env (serve request (get_product parse_int param)) w).1 ≡ tables w)
        × (tables (run env (serve request (get_stock parse_int param)) w).1 ≡ tables w)
  serve_keeps parse_int param request w = (
    serving_keeps (get_order parse_int param) request w (get_order-Calls parse_int param),
    serving_keeps (get_product parse_int param) request w (get_product-Calls parse_int param),
    serving_keeps (get_stock parse_int param) request w (get_stock-Calls parse_int param),
  )
