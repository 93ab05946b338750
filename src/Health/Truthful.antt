-- ===== src/Health/Truthful.antt =====
-- That the indicators tell what the services answer.
use flash_sale_lab.Base.{ℕ, String, ◌≡◌, Bool, ◌&&◌, List, ◌∷◌, arith, one_if}
use flash_sale_lab.Io.{Result, ok, is_ok}
use flash_sale_lab.Io.Run.{run}
use flash_sale_lab.Platform.{
  Call, Reply, local, metric, Metric, set_gauge, load_connection, load_channel, query_one,
  redis_ping,
}
use flash_sale_lab.Health.{Health, redis_health, postgresql_health, rabbitmq_health}

-- What has been set of the gauges, newest first: the gauge's name, its label and the value.
abbrev pub Gauge : Type 0
Gauge = List (String × String × ℕ)

abbrev enter_metric : Metric → Gauge → Gauge
enter_metric (set_gauge name label n) g = (name, label, n) ∷ g
enter_metric _ g = g

abbrev pub enter : Call → Gauge → Gauge
enter (local (metric m)) g = enter_metric m g
enter _ g = g

abbrev pub kept :
    {W : Type 0} → ((c : Call) → W → Reply c × W) → (c : Call) → W × Gauge → Reply c × (W × Gauge)
kept env c (w, g) = let (r, w') = env c w in (r, (w', enter c g))

-- The check ends normally and tells whether the service is up, and so does the gauge.
abbrev pub Tells : {W : Type 0} → String → Bool → Gauge → Result Health × (W × Gauge) → Type 0
Tells name up g x =
    (x.0 ≡ ok (record { name = name; is_up = up }))
    × (x.1.1 ≡ ("dependency_health", name, one_if up) ∷ g)

-- Whatever the services answer, each of the three indicators ends normally. Redis is up exactly when
-- the ping resolves, PostgreSQL exactly when its query does, and RabbitMQ exactly when the service has
-- a connection and a channel; and each sets the gauge of its own dependency once, to 1 if it is up and
-- to 0 if not.
pub indicators-Tells :
    {W : Type 0} (env : (c : Call) → W → Reply c × W) (w : W) (g : Gauge)
    → Tells "redis" (is_ok (env redis_ping w).0) g (run (kept env) redis_health (w, g))
      × Tells "postgresql" (is_ok (env query_one w).0) g (run (kept env) postgresql_health (w, g))
      × Tells "rabbitmq"
          ((env (local load_connection) w).0
            && (env (local load_channel) (env (local load_connection) w).1).0)
          g
          (run (kept env) rabbitmq_health (w, g))
unfolding redis_health postgresql_health rabbitmq_health
indicators-Tells env w g = ground arith
