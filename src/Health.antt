-- ===== src/Health.antt =====
-- src/health: the indicators of the services that the program depends on, and their controller.
pub mod Truthful
use flash_sale_lab.Base.{ℕ, String, Bool, true, false, ◌&&◌, List, [], ◌∷◌, if◌then◌else◌}
use flash_sale_lab.Io.{pure, call, ◌>>=◌, ◌>>◌, catch, settle}
use flash_sale_lab.Platform.{
  Prog, local, load_connection, load_channel, query_one, set_gauge, measure,
}
use flash_sale_lab.Redis

-- `HealthIndicatorResult`: the name given to `check` of the indicator's service, and up or down.
pub record Health : Type 0 where
  pub name : String
  pub is_up : Bool

-- `dependencyHealth.set({ dependency }, …)`
abbrev pub set_health : String → ℕ → Prog (Unit {0})
set_health dependency n = measure (set_gauge "dependency_health" dependency n)

abbrev pub tell : String → Bool → Prog Health
tell name true = do set_health name 1; pure (record { name = name; is_up = true })
tell name false = do set_health name 0; pure (record { name = name; is_up = false })

-- The `try` block includes the setting of the gauge, which does not throw.
unfoldable pub redis_health : Prog Health
unfolding Redis.ping_strict
redis_health = catch (do Redis.ping_strict; tell "redis" true) λ e. tell "redis" false

unfoldable pub postgresql_health : Prog Health
postgresql_health =
    catch (do call query_one settle; tell "postgresql" true) λ e. tell "postgresql" false

-- `isAvailable` of `RabbitMqService`, on the fields of the process.
unfoldable pub rabbitmq_health : Prog Health
rabbitmq_health = do
  connection ← call (local load_connection) pure
  channel ← call (local load_channel) pure
  tell "rabbitmq" (connection && channel)

-- `check` hands the three to the health check service of Terminus, which is a parameter.
unfoldable pub check_health : {A : Type 0} → (List (Prog Health) → Prog A) → Prog A
unfolding redis_health postgresql_health rabbitmq_health
check_health check = check (redis_health ∷ postgresql_health ∷ rabbitmq_health ∷ [])
