-- ===== src/Http/Reports.antt =====
-- What the latency interceptor reports of a request, and that it changes nothing else.
use flash_sale_lab.Base.{
  ◌≢◌, ◌⊎◌, inl, inr, none, some, ℕ, ◌≡◌, refl, String, Option, List, [], ◌∷◌, ◌++◌, leb, arith,
  if◌then◌else◌,
}
use flash_sale_lab.Base.Int.{ℤ, pos, sub_ℕ, leb_ℤ}
use flash_sale_lab.Base.Json.{Json, null, bool, num, arr, str, obj, Fields, get_field}
use flash_sale_lab.Io.{http, error, error_at, Result, ok, err}
use flash_sale_lab.Io.Run.{run}
use flash_sale_lab.Platform.{
  Call, Reply, Prog, local, now, active_span, load_status, observe_request, log_request, RequestLog,
  Level,
}
use flash_sale_lab.Http.Passing.{run-intercept}
use flash_sale_lab.Http.Latency.{
  Request, string_or, error_status, route_path, status_or, error_status_of, finalize, intercept,
}

pub data Entry : Type 0 where
  observed : String → String → ℕ → ℤ → Entry
  logged : Level → String → RequestLog → Entry

-- The reports so far, newest first.
abbrev pub enter : Call → List Entry → List Entry
enter (local (observe_request m r s l)) entries = observed m r s l ∷ entries
enter (local (log_request l e c)) entries = logged l e c ∷ entries
enter _ entries = entries

abbrev pub kept :
    {W : Type 0}
    → ((c : Call) → W → Reply c × W)
    → (c : Call) → W × List Entry
    → Reply c × (W × List Entry)
kept env c (w, entries) = let (r, w') = env c w in (r, (w', enter c entries))

-- The log line that a request deserves: an error for a status of 500 and more, else a warning for 500
-- milliseconds and more, else none.
abbrev pub deserved : RequestLog → List Entry
deserved c =
    if leb 500 c.status_code
    then logged Level.error "http_request_failed" c ∷ []
    else (if leb_ℤ (pos 500) c.latency_ms then logged Level.warn "http_request_slow" c ∷ [] else [])

-- One observation, and the line that is deserved.
abbrev pub Reports : RequestLog → List Entry → List Entry → Type 0
Reports c before after =
    after ≡ deserved c ++ (observed c.method c.route c.status_code c.latency_ms ∷ before)

-- The status of a request: that of the exception if it is an `HttpException`, 500 if it is another,
-- and that of the response if there is none.
abbrev pub status_for : {A : Type 0} → Result A → ℕ → ℕ
status_for (ok a) response_status = response_status
status_for (err (http status message)) response_status = status
status_for (err (error message)) response_status = 500
status_for (err (error_at message n)) response_status = 500

-- The route is the path of the route that Express has matched, where it is a text, and else the path of
-- the request.
abbrev pub IsRoute : Request → String → Type 0
IsRoute request route =
    ((fields : Fields) × (request.route ≡ some (obj fields))
      × (get_field "path" fields ≡ some (str route)))
    ⊎ (((fields : Fields) (path : String)
          → request.route ≡ some (obj fields)
          → get_field "path" fields ≢ some (str path))
        × (route ≡ request.path))

-- What `route_path` makes of the two places where the path can be.
of_field :
    (request : Request) (fields : Fields) (found : Option Json)
    → request.route ≡ some (obj fields)
    → get_field "path" fields ≡ found
    → IsRoute request (string_or request.path found)
of_field request fields (some (str path)) e g = inl (fields, e, g)
of_field request fields none e g = inr ((λ fs path f h. cc (e, f, g, h)), refl)
of_field request fields (some null) e g = inr ((λ fs path f h. cc (e, f, g, h)), refl)
of_field request fields (some (bool b)) e g = inr ((λ fs path f h. cc (e, f, g, h)), refl)
of_field request fields (some (num n)) e g = inr ((λ fs path f h. cc (e, f, g, h)), refl)
of_field request fields (some (arr items)) e g = inr ((λ fs path f h. cc (e, f, g, h)), refl)
of_field request fields (some (obj inner)) e g = inr ((λ fs path f h. cc (e, f, g, h)), refl)

route_path-IsRoute :
    (request : Request) (route : Option Json)
    → request.route ≡ route
    → IsRoute request (route_path request route)
unfolding route_path
route_path-IsRoute request (some (obj fields)) e = of_field request fields _ e refl
route_path-IsRoute request _ e = inr ((λ fields path f g. cc (e, f)), refl)

module _ {W : Type 0} (env : (c : Call) → W → Reply c × W) (request : Request)
    (route : String) where
  -- What there is to report from a world on, if the clock showed `started_at`, and the status is told
  -- by that of the response.
  abbrev pub facts : ℕ → (ℕ → ℕ) → W → RequestLog
  facts started_at status w =
      let (at, w1) = env (local now) w in
      let (response_status, w2) = env (local load_status) w1 in
      let status_code = status response_status in
      let w3 =
        (env (local (observe_request request.method route status_code (sub_ℕ at started_at)))
          w2).1 in
      record {
        request_id = request.request_id;
        span = (env (local active_span) w3).0;
        method = request.method;
        route = route;
        status_code = status_code;
        latency_ms = sub_ℕ at started_at;
      }

module _ {W : Type 0} (env : (c : Call) → W → Reply c × W) (request : Request) where
  finalize-Reports :
      (started_at : ℕ) (error_status : Option ℕ) (w : W) (entries : List Entry)
      → let x = run (kept env) (finalize request started_at error_status) (w, entries) in
        let route = route_path request request.route in
        (x.0 ≡ ok tt)
        × Reports (facts env request route started_at (status_or error_status) w) entries x.1.1
  unfolding finalize route_path
  finalize-Reports started_at error_status w entries = ground arith

  -- The status that the code works out is the one that is due.
  due_status :
      {A : Type 0} (r : Result A) (route : String) (started_at : ℕ) (w : W)
      (before after : List Entry)
      → Reports (facts env request route started_at (status_or (error_status_of r)) w) before after
      → Reports (facts env request route started_at (status_for r) w) before after
  unfolding error_status_of error_status
  due_status (ok a) route started_at w before after h = h
  due_status (err (http s m)) route started_at w before after h = h
  due_status (err (error m)) route started_at w before after h = h
  due_status (err (error_at m n)) route started_at w before after h = h

-- The end of an interception, after a handler that has ended so.
abbrev pub Intercepts :
    {W A : Type 0}
    → ((c : Call) → W → Reply c × W)
    → Request
    → ℕ
    → Result A × (W × List Entry)
    → Result A × (W × List Entry)
    → Type 0
Intercepts env request started_at x y =
    (y.0 ≡ x.0)
    × ((route : String) × IsRoute request route
        × Reports (facts env request route started_at (status_for x.0) x.1.0) x.1.1 y.1.1)

-- The interceptor hands the handler's result on, be it a value or an exception, and reports the
-- request after it: one observation with the method, the route, the status and the latency, and a log
-- line exactly when the status is 500 or more (an error, whatever the latency) or the latency is 500
-- milliseconds or more (a warning). The status is that of the exception (500 if it is no
-- `HttpException`), or that of the response if there is none. The route is the path that Express has matched, or the
-- request's own if there is none.
pub intercept-Intercepts :
    {W A : Type 0} (env : (c : Call) → W → Reply c × W) (request : Request) (handler : Prog A)
    (w : W) (entries : List Entry)
    → let (started_at, w1) = env (local now) w in
      Intercepts env request started_at
        (run (kept env) handler (w1, entries))
        (run (kept env) (intercept request handler) (w, entries))
intercept-Intercepts env request handler w entries =
    let (started_at, w1) = env (local now) w in
    let x = run (kept env) handler (w1, entries) in
    rw (run-intercept (kept env) request handler (w, entries)) (
      refl,
      (
        route_path request request.route,
        route_path-IsRoute request request.route refl,
        due_status env request x.0 _ started_at x.1.0 x.1.1 _
            (finalize-Reports env request started_at (error_status_of x.0) x.1.0 x.1.1).1,
      ),
    )
