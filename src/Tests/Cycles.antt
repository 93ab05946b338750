-- ===== src/Tests/Cycles.antt =====
-- Two cycles and a recovery in one process.
use flash_sale_lab.Base.{ℕ, ◌≤◌, ◌≡◌, refl, false, List, [], ◌∷◌}
use flash_sale_lab.Platform.{Prog}
use flash_sale_lab.Platform.Turns.{take_turns}
use flash_sale_lab.Outbox.Publisher.{publish_pending, recover_stuck_processing}
use flash_sale_lab.Outbox.Cycles.{kept}
use flash_sale_lab.Outbox.Cycles.Apart.{cycle, recover-Starts, none_yet, take_turns_apart}
use flash_sale_lab.Tests.Memory.{memory_env}
use flash_sale_lab.Tests.Outbox.{one_event, memory_env-IsField}

abbrev timers : List (Prog (Unit {0}))
timers = publish_pending ∷ publish_pending ∷ recover_stuck_processing ∷ []

abbrev each_in_turn : List ℕ
each_in_turn = 0 ∷ 1 ∷ 2 ∷ 0 ∷ 0 ∷ 1 ∷ 0 ∷ 0 ∷ []

take_turns_apart_example :
    let (v, cycles) = (take_turns (kept memory_env) each_in_turn timers (one_event, none_yet)).1 in
    (cycles.overlapped ≡ false) × (cycles.running ≡ v.active) × (v.active ≤ 1)
take_turns_apart_example =
    take_turns_apart memory_env (λ w. w.active) memory_env-IsField timers each_in_turn one_event
      (cycle, (cycle, (recover-Starts, tt))) refl
