-- ===== src/Http/Counting.antt =====
-- What the metrics endpoint tells of the outbox.
use flash_sale_lab.Base.{ℕ, String, ◌≡◌, refl, List, [], ◌∷◌, countb, arith, ◌∙◌, ◌⊎◌, inl, inr, ap}
use flash_sale_lab.Io.{Error, Result, ok, err, pure, Result-cases}
use flash_sale_lab.Io.Run.{run}
use flash_sale_lab.Platform.{Call, Reply, statement, local, metric, set_gauge}
use flash_sale_lab.Platform.Database.{OutboxEvent, OutboxStatus, pending, processing, count_events}
use flash_sale_lab.Platform.Laws.{Tables, IsDatabase, status_eq, event_matches}
use flash_sale_lab.Health.Truthful.{Gauge, kept}
use flash_sale_lab.Http.Latency.{Request}
use flash_sale_lab.Http.Controllers.{of_status, get_metrics}

abbrev pub in_status : OutboxStatus → List OutboxEvent → ℕ
in_status status events = countb (λ e. status_eq e.status status) events

matches-in_status :
    (status : OutboxStatus) (events : List OutboxEvent)
    → countb (event_matches (of_status status)) events ≡ in_status status events
matches-in_status status [] = refl
matches-in_status status (e ∷ events) = ground (arith, matches-in_status status events)

-- The gauge of the outbox tells both numbers, or it is as before.
abbrev pub Counts : Tables → Gauge → Result String → Gauge → Type 0
Counts t g (ok text) h =
    h
    ≡ ("outbox_events", "PROCESSING", in_status processing t.events)
      ∷ ("outbox_events", "PENDING", in_status pending t.events)
      ∷ g
Counts t g (err e) h = h ≡ g

module _ {W : Type 0} (env : (c : Call) → W → Reply c × W) (tables : W → Tables)
    (db : IsDatabase env tables) where
  counted :
      (status : OutboxStatus) (w : W)
      → let x = env (statement (count_events (of_status status))) w in
        ((x.0 ≡ ok (in_status status (tables w).events)) ⊎ ((e : Error) × (x.0 ≡ err e)))
        × (tables x.1 ≡ tables w)
  counted status w =
      let c = count_events (of_status status) in
      elim (Result-cases (env (statement c) w).0) [
        | inl (a, e) ↦
            let (found, same) = db.statement_ok c w a e in
            (inl (e ∙ ap ok (found ∙ matches-in_status status (tables w).events)), same)
        | inr (x, e) ↦ (inr (x, e), db.statement_err c w x e)
      ]

  -- Where the registry only renders its text: if the metrics endpoint answers, it has set the gauge of
  -- the outbox to the numbers of events that are PENDING and PROCESSING in the tables, and if it
  -- throws, it has set nothing; the tables stay as they are.
  pub get_metrics-Counts :
      (text : String) (request : Request) (w : W) (g : Gauge)
      → let x = run (kept env) (get_metrics (pure text) request) (w, g) in
        Counts (tables w) g x.0 x.1.1 × (tables x.1.0 ≡ tables w)
  unfolding get_metrics
  get_metrics-Counts text request w g =
      let gauge =
        λ (status : String) (n : ℕ). local (metric (set_gauge "outbox_events" status n)) in
      let w1 = (env (statement (count_events (of_status pending))) w).1 in
      let w2 = (env (statement (count_events (of_status processing))) w1).1 in
      let p = in_status pending (tables w).events in
      let q = in_status processing (tables w1).events in
      ground (
        arith,
        counted pending w,
        counted processing w1,
        db.others_keep (gauge "PENDING" p) w2,
        db.others_keep (gauge "PROCESSING" q) (env (gauge "PENDING" p) w2).1,
      )
