-- ===== src/Tests/Delivered.antt =====
-- A cycle with its ledger, between whose calls stuck events are looked for.
use flash_sale_lab.Base.{◌≡◌, All}
use flash_sale_lab.Platform.Database.{sent}
use flash_sale_lab.Platform.Logged.{log_interleave}
use flash_sale_lab.Outbox.Ledger.{enter}
use flash_sale_lab.System.Delivered.{Told, begun, interleave-Told}
use flash_sale_lab.Tests.Memory.{memory_env, memory_env-IsDatabase}
use flash_sale_lab.Tests.Outbox.{one_event, publishing, turns}

interleave-Told_example :
    let (ts, v) = log_interleave enter memory_env turns (begun publishing) one_event in
    All (λ e. e.status ≡ sent → Told ts e.payload) v.tables.events
interleave-Told_example =
    interleave-Told memory_env (λ w. w.tables) memory_env-IsDatabase publishing turns one_event
      (tt, tt) ((λ e. cc e), tt)
