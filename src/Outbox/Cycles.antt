-- ===== src/Outbox/Cycles.antt =====
-- That one process runs one publishing cycle at a time: the test of `activeExecutions` and its raising
-- stand in one turn.
pub mod Turned
pub mod Apart
use flash_sale_lab.Base.{
  ℕ, zero, suc, ◌+◌, ◌-◌, ◌≤◌, ◌≡◌, refl, sym, ◌∙◌, ap, subst, String, Bool, true, false, ◌||◌,
  List, [], ◌∷◌, All, ltb, str_eq, one_if, arith, if◌then◌else◌,
}
use flash_sale_lab.Io.{Error, Result, pure, throw, call, ◌>>=◌, ◌>>◌, finally}
use flash_sale_lab.Io.Tasks.{Calls, ends, throws, calls, Calls->>=, calls_rules}
use flash_sale_lab.Platform.{
  Call, Reply, Prog, local, store_active, load_active, metric, inc, dec, observe, Client,
  ClientCall, query, aside, LocalCall, direct, Metric,
}
use flash_sale_lab.Platform.Database.{Statement}
use flash_sale_lab.Platform.Turns.{until_await, turn, turn_at, take_turns}
use flash_sale_lab.Outbox.Active.{IsField, stores}
use flash_sale_lab.Outbox.Repository.{PendingOutboxEvent}
use flash_sale_lab.Outbox.Publisher.{
  send_event, publish_event, publish_events, publish_batch, leave, publish_pending,
}

-- The gauge of the running cycles, and whether a cycle has begun while another one ran.
pub record Running : Type 0 where
  pub running : ℕ
  pub overlapped : Bool

abbrev pub is_gauge : String → Bool
is_gauge name = str_eq name "outbox_publisher_active_executions"

abbrev enter_metric : Metric → Running → Running
enter_metric (inc name label) s =
    if is_gauge name
    then record { running = s.running + 1; overlapped = s.overlapped || ltb 0 s.running }
    else s
enter_metric (dec name label) s = if is_gauge name then record s { running = s.running - 1 } else s
enter_metric _ s = s

abbrev pub enter : Call → Running → Running
enter (local (metric m)) s = enter_metric m s
enter _ s = s

abbrev pub kept :
    {W : Type 0}
    → ((c : Call) → W → Reply c × W)
    → (c : Call) → W × Running
    → Reply c × (W × Running)
kept env c (w, s) = let (r, w') = env c w in (r, (w', enter c s))

-- The calls by which a cycle is told to begin or to end.
abbrev pub is_mark_metric : Metric → Bool
is_mark_metric (inc name label) = is_gauge name
is_mark_metric (dec name label) = is_gauge name
is_mark_metric _ = false

abbrev pub is_mark_local : LocalCall → Bool
is_mark_local (store_active n) = true
is_mark_local (metric m) = is_mark_metric m
is_mark_local _ = false

abbrev pub is_mark : Call → Bool
is_mark (local l) = is_mark_local l
is_mark _ = false

abbrev pub IsPlain : Call → Type 0
IsPlain c = is_mark c ≡ false

pub data PlainAside : ClientCall → Type 0 where
  asks : {q : Statement} → PlainAside (query q)
  asides : {l : LocalCall} → is_mark_local l ≡ false → PlainAside (aside l)

pub direct-Calls :
    {A : Type 0} (body : Client A) → Calls PlainAside body → Calls IsPlain (direct body)
direct-Calls (pure a) h = ends
direct-Calls (throw e) h = throws
direct-Calls (call (query q) k) (calls asks hk) = calls refl (λ r. direct-Calls (k r) (hk r))
direct-Calls (call (aside l) k) (calls (asides h) hk) = calls h (λ r. direct-Calls (k r) (hk r))

pub ruleset plain_rules = (calls_rules, direct-Calls, asks, asides, refl)

send_event-Calls : (event : PendingOutboxEvent) → Calls IsPlain (send_event event)
unfolding send_event
send_event-Calls event = search plain_rules depth 12

publish_event-Calls : (event : PendingOutboxEvent) → Calls IsPlain (publish_event event)
unfolding publish_event
publish_event-Calls event = search (plain_rules, send_event-Calls) depth 12

publish_events-Calls : (events : List PendingOutboxEvent) → Calls IsPlain (publish_events events)
unfolding publish_events
publish_events-Calls [] = ends
publish_events-Calls (event ∷ events) =
    Calls->>= _ _ (publish_event-Calls event) (λ u. publish_events-Calls events)

publish_batch-Calls : Calls IsPlain publish_batch
unfolding publish_batch
publish_batch-Calls = search (plain_rules, publish_events-Calls) depth 12
