-- ===== src/Redis.antt =====
-- src/redis/redis.service.ts: the forgiving operations log a failure and answer as if nothing were
-- there; the strict ones let it through.
use flash_sale_lab.Base.{ℕ, String, Bool, false, not, Option, none, if◌then◌else◌}
use flash_sale_lab.Io.{pure, call, ◌>>=◌, ◌>>◌, catch, settle}
use flash_sale_lab.Platform.{
  Prog, redis_get, redis_set, redis_set_nx, redis_del, redis_ping, redis_is_open, redis_connect,
  redis_quit, Metric, inc, Level, report, measure,
}
use flash_sale_lab.Platform.Cache.{Key, CacheText, is_ok_text}

abbrev failure_counter : String → Metric
failure_counter operation = inc "redis_operation_failures_total" operation

unfoldable pub get : Key → Prog (Option CacheText)
get key =
    catch (call (redis_get key) settle) λ e. do
      measure (failure_counter "get")
      report Level.error "redis_operation_failed"
      pure none

unfoldable pub set : Key → CacheText → ℕ → Prog (Unit {0})
set key value ttl_seconds =
    catch (do call (redis_set key value ttl_seconds) settle; pure tt)
      λ e. do measure (failure_counter "set"); report Level.error "redis_operation_failed"

unfoldable pub del : Key → Prog (Unit {0})
del key =
    catch (do call (redis_del key) settle; pure tt) λ e. report Level.error "redis_operation_failed"

unfoldable pub set_if_absent : Key → CacheText → ℕ → Prog Bool
set_if_absent key value ttl_seconds =
    catch (do result ← call (redis_set_nx key value ttl_seconds) settle; pure (is_ok_text result))
      λ e. do report Level.error "redis_operation_failed"; pure false

unfoldable pub get_strict : Key → Prog (Option CacheText)
get_strict key = call (redis_get key) settle

unfoldable pub set_if_absent_strict : Key → CacheText → ℕ → Prog Bool
set_if_absent_strict key value ttl_seconds = do
  result ← call (redis_set_nx key value ttl_seconds) settle
  pure (is_ok_text result)

unfoldable pub ping_strict : Prog CacheText
ping_strict = call redis_ping settle

-- The handlers of the client's `error` and `ready`, whose log lines differ in the fields that tell of
-- the error; that of `reconnecting` is empty.
unfoldable pub on_error : Prog (Unit {0})
on_error = report Level.error "redis_client_error"

unfoldable pub on_ready : Prog (Unit {0})
on_ready = report Level.log "redis_connected"

-- The promise that `onModuleInit` starts and does not wait for.
unfoldable pub on_module_init : Prog (Unit {0})
on_module_init =
    catch (call redis_connect settle) λ e. report Level.error "redis_initial_connection_failed"

unfoldable pub on_application_shutdown : Prog (Unit {0})
on_application_shutdown = do
  is_open ← call redis_is_open pure
  if not is_open then pure tt else call redis_quit settle
