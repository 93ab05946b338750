-- ===== src/Platform/Laws/Local.antt =====
-- Programs that make no call of the database leave the tables alone.
use flash_sale_lab.Base.{◌≡◌, refl, ◌∙◌, false}
use flash_sale_lab.Io.{pure, throw, call}
use flash_sale_lab.Io.Run.{run}
use flash_sale_lab.Io.Tasks.{Calls, calls}
use flash_sale_lab.Platform.{Call, Reply, Prog}
use flash_sale_lab.Platform.Laws.{Tables, is_database, IsDatabase}

abbrev pub IsLocal : Call → Type 0
IsLocal c = is_database c ≡ false

pub local_keeps :
    {W A : Type 0} (env : (c : Call) → W → Reply c × W) (tables : W → Tables)
    (db : IsDatabase env tables) (m : Prog A) (w : W)
    → Calls IsLocal m
    → tables (run env m w).1 ≡ tables w
local_keeps env tables db (pure a) w h = refl
local_keeps env tables db (throw e) w h = refl
local_keeps env tables db (call c k) w (calls h hk) =
    local_keeps env tables db (k (env c w).0) (env c w).1 (hk (env c w).0) ∙ db.others_keep c w h
