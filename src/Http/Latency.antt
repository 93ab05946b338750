-- ===== src/Http/Latency.antt =====
-- src/observability/http-latency.interceptor.ts and trace-context.ts, with the ids of
-- request-id.middleware.ts.
use flash_sale_lab.Base.{ℕ, String, not, ◌&&◌, Option, none, some, leb, if◌then◌else◌}
use flash_sale_lab.Base.Int.{ℤ, pos, sub_ℕ, leb_ℤ}
use flash_sale_lab.Base.Json.{Json, str, obj, get_field}
use flash_sale_lab.Io.{
  Error, http, error, error_at, Result, ok, err, pure, call, ◌>>=◌, ◌>>◌, catch, settle,
}
use flash_sale_lab.Platform.{
  Prog, local, now, random_uuid, active_span, set_header, load_status, observe_request, log_request,
  SpanContext, RequestLog, Level,
}

-- A request of Express. `route` is absent where no route has matched.
pub record Request : Type 0 where
  pub request_id : String
  pub method : String
  pub path : String
  pub route : Option Json

-- `RequestIdMiddleware.use`; the rest is `next()`.
unfoldable pub use_request_id : Request → Prog Request
use_request_id request = do
  request_id ← call (local random_uuid) pure
  call (local (set_header "X-Request-Id" request_id)) pure
  pure (record request { request_id = request_id })

-- `getActiveTraceContext`, with the two fields together or absent together.
unfoldable pub get_active_trace_context : Prog (Option SpanContext)
get_active_trace_context = call (local active_span) pure

abbrev pub slow_request_threshold_ms : ℤ
slow_request_threshold_ms = pos 500

-- The callback of `tap`: the status of a `HttpException`, or 500.
unfoldable pub error_status : Error → ℕ
error_status (http status message) = status
error_status (error message) = 500
error_status (error_at message n) = 500

abbrev pub string_or : String → Option Json → String
string_or other (some (str s)) = s
string_or other _ = other

unfoldable pub route_path : Request → Option Json → String
route_path request (some (obj fields)) = string_or request.path (get_field "path" fields)
route_path request _ = request.path

abbrev pub status_or : Option ℕ → ℕ → ℕ
status_or none other = other
status_or (some status) other = status

-- The callback of `finalize`. A clock that has gone back gives a negative latency.
unfoldable pub finalize : Request → ℕ → Option ℕ → Prog (Unit {0})
unfolding route_path get_active_trace_context
finalize request started_at error_status_code = do
  at ← call (local now) pure
  let latency_ms = sub_ℕ at started_at
  response_status ← call (local load_status) pure
  let status_code = status_or error_status_code response_status
  let route = route_path request request.route
  call (local (observe_request request.method route status_code latency_ms)) pure
  let is_server_error = leb 500 status_code
  let is_slow_request = leb_ℤ slow_request_threshold_ms latency_ms
  if not is_server_error && not is_slow_request then pure tt else do
    span ← get_active_trace_context
    let context : RequestLog = record {
      request_id = request.request_id;
      span = span;
      method = request.method;
      route = route;
      status_code = status_code;
      latency_ms = latency_ms;
    }
    if is_server_error
        then call (local (log_request Level.error "http_request_failed" context)) pure
        else call (local (log_request Level.warn "http_request_slow" context)) pure

-- How the handler ends, as a value.
abbrev pub attempt : {A : Type 0} → Prog A → Prog (Result A)
attempt handler = catch (do a ← handler; pure (ok a)) λ e. pure (err e)

unfoldable pub error_status_of : {A : Type 0} → Result A → Option ℕ
unfolding error_status
error_status_of (ok a) = none
error_status_of (err e) = some (error_status e)

-- `handler` is what `next.handle()` runs. A client that goes away before the end is not modelled.
unfoldable pub intercept : {A : Type 0} → Request → Prog A → Prog A
unfolding finalize
intercept request handler = do
  started_at ← call (local now) pure
  result ← attempt handler
  finalize request started_at (error_status_of result)
  settle result
