-- ===== src/System/Claims.antt =====
-- That an event is claimed by one publisher at a time, however the tasks of all instances interleave.
use flash_sale_lab.Base.{none, some, ◌==◌, ℕ, Bool}
use flash_sale_lab.Io.{Result, pure, settle, ◌>>=◌}
use flash_sale_lab.Platform.{Prog}
use flash_sale_lab.Platform.{Call, Reply, direct}
use flash_sale_lab.Platform.Database.{pending, processing, OutboxWhere, OutboxChange}
use flash_sale_lab.Platform.Laws.{Tables, IsDatabase}
use flash_sale_lab.System.Holds.{IsExclusive}

module _ {W : Type 0} (env : (c : Call) → W → Reply c × W) (tables : W → Tables)
    (db : IsDatabase env tables) (n : ℕ) where
  abbrev Excludes : W × Bool → Type 0
  Excludes (w, h) = IsExclusive n h (tables w).events

  -- The end of `claim`, from the reply to its statement on.
  abbrev finish : Result ℕ → Prog Bool
  finish r = direct (settle r >>= λ count. pure (count == 1))

  abbrev asked : OutboxWhere
  asked = record { id = some n; status = some pending; started_lt = none }

  abbrev change : ℕ → OutboxChange
  change t = record { status = processing; processing_started_at = some t; sent_at = none }
