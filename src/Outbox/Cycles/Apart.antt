-- ===== src/Outbox/Cycles/Apart.antt =====
-- The publishing cycles of one process, however its tasks take turns.
use flash_sale_lab.Base.{
  ℕ, zero, suc, ◌+◌, ◌≤◌, ◌≡◌, refl, sym, subst, Bool, true, false, List, [], ◌∷◌, All, arith,
}
use flash_sale_lab.Io.Tasks.{Calls}
use flash_sale_lab.Platform.{Call, Reply, Prog}
use flash_sale_lab.Platform.Turns.{turn, turn_at, take_turns}
use flash_sale_lab.Outbox.Active.{IsField}
use flash_sale_lab.Outbox.Publisher.{publish_pending, recover_stuck_processing}
use flash_sale_lab.Outbox.Cycles.{Running, kept, IsPlain, plain_rules}
use flash_sale_lab.Outbox.Cycles.Turned.{Phase, outside, starting, beside, Runs, turn-Turned}

-- A task of the process at its start: a cycle, or a task that neither touches the field
-- `activeExecutions` nor its gauge.
pub data Starts : Prog (Unit {0}) → Type 0 where
  cycle : Starts publish_pending
  another : {p : Prog (Unit {0})} → Calls IsPlain p → Starts p

-- The timer that recovers stuck events.
pub recover-Starts : Starts recover_stuck_processing
unfolding recover_stuck_processing
recover-Starts = another (search (plain_rules) depth 12)

-- The tasks, with the number of those that are inside a cycle.
data Phases : ℕ → List (Prog (Unit {0})) → Type 0 where
  none_left : Phases 0 []
  one_more :
      {b : Bool} {p : Prog (Unit {0})} {m : ℕ} {ps : List (Prog (Unit {0}))}
      → Phase b p
      → Phases m ps
      → Phases (beside b m) (p ∷ ps)

starting-Phases : (ps : List (Prog (Unit {0}))) → All Starts ps → Phases 0 ps
starting-Phases [] h = none_left
starting-Phases (p ∷ ps) (cycle, h) = one_more starting (starting-Phases ps h)
starting-Phases (p ∷ ps) (another g, h) = one_more (outside g) (starting-Phases ps h)

-- Two counts beside each other.
beside_sum : (b : Bool) (m others : ℕ) → beside b m + others ≡ beside b (m + others)
beside_sum true m others = omega arith
beside_sum false m others = refl

beside_inner : (b : Bool) (m others : ℕ) → m + beside b others ≡ beside b m + others
beside_inner true m others = omega arith
beside_inner false m others = refl

module _ {W : Type 0} (env : (c : Call) → W → Reply c × W) (active : W → ℕ)
    (field : IsField env active) where
  abbrev Counts : ℕ → List (Prog (Unit {0})) × (W × Running) → Type 0
  Counts others (ps, x) = (m : ℕ) × Phases m ps × Runs env active field (m + others) x

  turn_at-Counts :
      (i m others : ℕ) (ps : List (Prog (Unit {0}))) (x : W × Running)
      → Phases m ps
      → Runs env active field (m + others) x
      → Counts others (turn_at (kept env) i ps x)
  turn_at-Counts i m others [] x h v = (m, h, v)
  turn_at-Counts zero _ others (p ∷ ps) x (one_more {b} {m} g h) v =
      let (d, now, after) =
        turn-Turned env active field b p (m + others) x g
          (subst (λ k. Runs env active field k x) (beside_sum b m others) v) in
      (
        beside d m,
        one_more now h,
        subst (λ k. Runs env active field k (turn (kept env) p x).1) (sym (beside_sum d m others))
            after,
      )
  turn_at-Counts (suc i) _ others (p ∷ ps) x (one_more {b} {m} g h) v =
      let (k, rest, after) =
        turn_at-Counts i m (beside b others) ps x h
          (subst (λ j. Runs env active field j x) (sym (beside_inner b m others)) v) in
      (
        beside b k,
        one_more g rest,
        subst (λ j. Runs env active field j (turn_at (kept env) i ps x).1) (beside_inner b k others)
            after,
      )

  take_turns-Counts :
      (is : List ℕ) (m : ℕ) (ps : List (Prog (Unit {0}))) (x : W × Running)
      → Phases m ps
      → Runs env active field (m + 0) x
      → Counts 0 (take_turns (kept env) is ps x)
  take_turns-Counts [] m ps x h v = (m, h, v)
  take_turns-Counts (i ∷ is) m ps x h v =
      let (k, rest, after) = turn_at-Counts i m 0 ps x h v in
      take_turns-Counts is k (turn_at (kept env) i ps x).0 (turn_at (kept env) i ps x).1 rest after

abbrev pub none_yet : Running
none_yet = record { running = 0; overlapped = false }

-- One process, whose tasks take turns in any order: cycles, as many as its timer starts, and other
-- tasks, which touch neither the field nor its gauge. If the field `activeExecutions` is read and
-- written as a field is, is 0 at first, and is written by nothing else, then whatever the database and
-- the broker answer, no cycle begins while another one runs, and after each turn the field and the
-- gauge are the same number, 0 or 1.
pub take_turns_apart :
    {W : Type 0} (env : (c : Call) → W → Reply c × W) (active : W → ℕ) (field : IsField env active)
    (tasks : List (Prog (Unit {0}))) (schedule : List ℕ) (w : W)
    → All Starts tasks
    → active w ≡ 0
    → let (v, cycles) = (take_turns (kept env) schedule tasks (w, none_yet)).1 in
      (cycles.overlapped ≡ false) × (cycles.running ≡ active v) × (active v ≤ 1)
take_turns_apart env active field tasks schedule w h z =
    let (m, rest, after) =
      take_turns-Counts env active field schedule 0 tasks (w, none_yet) (starting-Phases tasks h)
        (record { told = z; counted = refl; few = omega arith; apart = refl }) in
    (after.apart, ground (arith, after.counted, after.told), ground (arith, after.told, after.few))
