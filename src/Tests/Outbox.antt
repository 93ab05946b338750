-- ===== src/Tests/Outbox.antt =====
-- The outbox at concrete inputs: one event that waits.
use flash_sale_lab.Base.{ℕ, ◌≡◌, refl, List, [], ◌∷◌, none, map, true, inl}
use flash_sale_lab.Base.Json.{end, field, str, null}
use flash_sale_lab.Io.{Error, error, error_at, ok, err}
use flash_sale_lab.Io.Run.{run}
use flash_sale_lab.Io.Tasks.{interleave}
use flash_sale_lab.Platform.{
  Call, Reply, statement, transaction, local, redis_get, redis_set, redis_set_nx, redis_del,
  redis_ping, redis_is_open, redis_connect, redis_quit, send_to_queue, wait_for_confirms, ack, nack,
  notify, query_one,
}
use flash_sale_lab.Outbox.Ledger.{blank, kept}
use flash_sale_lab.Outbox.Publishing.{IsOrdered, publish_pending-IsOrdered}
use flash_sale_lab.Outbox.Reading.{
  nil, cons, as_pending, IsMalformed, read_events-AllStored, publish_batch-malformed,
}
use flash_sale_lab.Outbox.Active.{IsField, publish_pending_restores}
use flash_sale_lab.Platform.Database.{
  pending, sent, OutboxEvent, find_inventory, update_inventories, create_order, find_order,
  create_event, find_events, update_events, update_event, count_events, find_product, update_price,
}
use flash_sale_lab.Platform.Laws.{Tables}
use flash_sale_lab.Outbox.Repository.{
  payload_json, CreateOutboxEventInput, PendingOutboxEvent, read_event, read_events,
}
use flash_sale_lab.Outbox.Publisher
use flash_sale_lab.System.{Task, publish_pending, recover_stuck_processing, program}
use flash_sale_lab.System.Invariants.{programs}
use flash_sale_lab.System.Holds
use flash_sale_lab.System.Events.{Becomes, interleave-Becomes}
use flash_sale_lab.Tests.Memory.{World, memory_env, memory_env-IsDatabase, memory_env_field}

abbrev out_of_reach : Error
out_of_reach = error "not served"

abbrev waiting : OutboxEvent
waiting = record {
  id = 1;
  kind = "ORDER_NOTIFICATION";
  payload = payload_json 1 "r1" end;
  status = pending;
  processing_started_at = none;
  sent_at = none;
}

abbrev pub one_event : World
one_event = record {
  tables = record { products = []; inventories = []; orders = []; events = waiting ∷ [] };
  active = 0;
}

-- A cycle, between whose calls stuck events are looked for.
abbrev pub publishing : List Task
publishing = publish_pending ∷ recover_stuck_processing ∷ []

abbrev pub turns : List ℕ
turns = 0 ∷ 0 ∷ 0 ∷ 0 ∷ 0 ∷ 1 ∷ 1 ∷ 0 ∷ 0 ∷ 0 ∷ 1 ∷ 0 ∷ 0 ∷ 0 ∷ 0 ∷ 0 ∷ 0 ∷ 0 ∷ 0 ∷ 0 ∷ 0 ∷ 0 ∷ []

abbrev after_cycle : Tables
after_cycle = (interleave memory_env turns (programs publishing) one_event).1.tables

one_sent : map (λ e. e.status) after_cycle.events ≡ sent ∷ []
unfolding program Publisher.publish_pending Publisher.recover_stuck_processing
    Publisher.publish_batch Publisher.leave Publisher.publish_events Publisher.publish_event
    Publisher.send_event
one_sent = refl

interleave-Becomes_example : Becomes (waiting ∷ []) after_cycle.events
interleave-Becomes_example =
    interleave-Becomes memory_env (λ w. w.tables) memory_env-IsDatabase publishing turns one_event

publish_pending-IsOrdered_example :
    IsOrdered (run (kept memory_env) Publisher.publish_pending (one_event, blank)).1.1
publish_pending-IsOrdered_example = publish_pending-IsOrdered memory_env one_event

marked_once :
    map (λ m. m.id) (run (kept memory_env) Publisher.publish_pending (one_event, blank)).1.1.marks
    ≡ 1 ∷ []
unfolding Publisher.publish_pending Publisher.publish_batch Publisher.leave Publisher.publish_events
    Publisher.publish_event Publisher.send_event
marked_once = refl

abbrev told : CreateOutboxEventInput
told = record {
  kind = "ORDER_NOTIFICATION";
  order_id = 1;
  request_id = "r1";
  trace_context = field "traceparent" (str "00-1") end;
}

abbrev told_row : OutboxEvent
told_row = record waiting {
  id = 5;
  payload = payload_json 1 "r1" (field "traceparent" (str "00-1") end);
}

read_events-AllStored_example : read_events (told_row ∷ []) ≡ ok (as_pending 5 told ∷ [])
read_events-AllStored_example = read_events-AllStored (cons (refl, refl) nil)

-- A row whose payload is no object.
abbrev odd : OutboxEvent
odd = record waiting { id = 2; payload = null }

abbrev odd_world : World
odd_world = record one_event {
  tables = record { products = []; inventories = []; orders = []; events = odd ∷ [] };
}

odd-IsMalformed : IsMalformed odd
unfolding read_event
odd-IsMalformed = (error_at "Invalid outbox payload: " 2, refl)

publish_batch-malformed_example :
    (e : Error) × (run memory_env Publisher.publish_batch odd_world ≡ (err e, odd_world))
publish_batch-malformed_example =
    publish_batch-malformed memory_env odd_world (odd ∷ []) refl (inl odd-IsMalformed)

-- An environment that serves every call of the loop, and has no state.
abbrev serving : (c : Call) → Unit {0} → Reply c × Unit {0}
serving (statement (update_events c d)) w = (ok 1, w)
serving (statement (update_event n d)) w = (ok waiting, w)
serving (statement (find_inventory n)) w = (ok none, w)
serving (statement (update_inventories c d)) w = (ok 0, w)
serving (statement (create_order i)) w = (err out_of_reach, w)
serving (statement (find_order n)) w = (ok none, w)
serving (statement (create_event k p)) w = (err out_of_reach, w)
serving (statement (find_events c n)) w = (ok [], w)
serving (statement (count_events c)) w = (ok 0, w)
serving (statement (find_product n)) w = (ok none, w)
serving (statement (update_price n p)) w = (err out_of_reach, w)
serving (transaction body) w = (err out_of_reach, w)
serving (local l) w = let (r, u) = memory_env (local l) one_event in (r, w)
serving query_one w = (err out_of_reach, w)
serving (redis_get k) w = (err out_of_reach, w)
serving (redis_set k v ttl) w = (err out_of_reach, w)
serving (redis_set_nx k v ttl) w = (err out_of_reach, w)
serving (redis_del k) w = (err out_of_reach, w)
serving redis_ping w = (err out_of_reach, w)
serving redis_is_open w = (true, w)
serving redis_connect w = (ok tt, w)
serving redis_quit w = (ok tt, w)
serving (send_to_queue q c h) w = (ok true, w)
serving wait_for_confirms w = (ok tt, w)
serving (ack d) w = (err out_of_reach, w)
serving (nack d) w = (err out_of_reach, w)
serving (notify ms) w = (err out_of_reach, w)

abbrev two_events : List PendingOutboxEvent
two_events = as_pending 4 told ∷ as_pending 5 told ∷ []

-- Two cycles that both find the event before a third one claims it.
abbrev two_cycles : List Task
two_cycles = publish_pending ∷ publish_pending ∷ []

abbrev up_to_found : List ℕ
up_to_found = 0 ∷ 1 ∷ 0 ∷ 1 ∷ 0 ∷ 1 ∷ 0 ∷ 1 ∷ []

abbrev from_found : List ℕ
from_found = 0 ∷ 1 ∷ 0 ∷ 1 ∷ 0 ∷ 1 ∷ 1 ∷ 0 ∷ 1 ∷ 0 ∷ 1 ∷ 1 ∷ []

pub memory_env-IsField : IsField memory_env (λ w. w.active)
memory_env-IsField = record {
  loads = λ w. refl;
  stored = λ n w. refl;
  others_keep = memory_env_field;
}

publish_pending_restores_example : (run memory_env Publisher.publish_pending odd_world).1.active ≡ 0
publish_pending_restores_example =
    publish_pending_restores memory_env (λ w. w.active) memory_env-IsField odd_world
