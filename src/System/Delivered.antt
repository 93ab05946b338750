-- ===== src/System/Delivered.antt =====
-- That a SENT event's notification was confirmed, however the tasks of all instances interleave.
pub mod Entered
pub mod Keeping
use flash_sale_lab.Base.{
  ℕ, zero, suc, ◌≡◌, ◌≢◌, refl, sym, subst, true, List, [], ◌∷◌, allb, All, Any, All-map, inl, inr,
}
use flash_sale_lab.Base.Json.{Json}
use flash_sale_lab.Io.{pure, throw, call}
use flash_sale_lab.Io.Tasks.{Calls}
use flash_sale_lab.Platform.{Call, Reply, Prog}
use flash_sale_lab.Platform.Logged.{log_advance, log_step, log_interleave}
use flash_sale_lab.Platform.Database.{OutboxEvent, sent}
use flash_sale_lab.Platform.Laws.{Tables, IsDatabase}
use flash_sale_lab.Outbox.Ledger.{Ledger, blank, enter}
use flash_sale_lab.Outbox.Publisher.{publish_pending}
use flash_sale_lab.Outbox.Told.{told, is_known, Unique}
use flash_sale_lab.Outbox.Known.{SentAre}
use flash_sale_lab.Outbox.Telling.{
  Unmarking, Tells, returns, rejects, asks, Anything, Unmarking-Tells,
}
use flash_sale_lab.Outbox.Telling.Cycle.{publish_pending-Tells}
use flash_sale_lab.System.{Task, program}
use flash_sale_lab.System.Unmarking.{program-Unmarking}
use flash_sale_lab.System.Delivered.Entered.{ToldBy, confirmed_grow}
use flash_sale_lab.System.Delivered.Keeping.{Kept, rows, call-Kept, found_known}

-- One of the tasks has had it confirmed.
abbrev pub Told : List (Prog (Unit {0}) × Ledger) → Json → Type 0
Told ts j = Any (λ t. ToldBy t.1 j) ts

module _ {W : Type 0} (env : (c : Call) → W → Reply c × W) (tables : W → Tables)
    (db : IsDatabase env tables) where
  -- What a task may go on to do, and what its ledger knows.
  abbrev Goes : W → Prog (Unit {0}) × Ledger → Type 0
  Goes w t = Tells Anything t.1 t.0 × (allb (is_known (rows env tables db w)) t.1.found ≡ true)

  -- The step from one world to another, with the tasks that have stepped.
  record Steps (P : Json → Type 0) (ts us : List (Prog (Unit {0}) × Ledger)) (w v : W)
      : Type 0 where
    kept : Kept P (rows env tables db w) (rows env tables db v)
    go : All (Goes v) us
    grow : (j : Json) → Told ts j → Told us j

  stays :
      (P : Json → Type 0) (w v : W)
      → Kept P (rows env tables db w) (rows env tables db v)
      → (ts : List (Prog (Unit {0}) × Ledger)) → All (Goes w) ts
      → All (Goes v) ts
  stays P w v kept ts h = All-map (λ t g. (g.0, kept.known t.1.found g.1)) ts h

  one-Steps :
      (P : Json → Type 0) (p : Prog (Unit {0})) (l : Ledger) (w : W)
      → ((j : Json) → ToldBy l j → P j)
      → Goes w (p, l)
      → Unique (rows env tables db w)
      → SentAre P (rows env tables db w)
      → let (t, v) = log_advance enter env (p, l) w in
        Kept P (rows env tables db w) (rows env tables db v)
        × Goes v t
        × ((j : Json) → ToldBy l j → ToldBy t.1 j)
  one-Steps P (pure u) l w into g q s =
      (record { unique = q; known = λ xs h. h; sent_are = s }, g, λ j h. h)
  one-Steps P (throw e) l w into g q s =
      (record { unique = q; known = λ xs h. h; sent_are = s }, g, λ j h. h)
  one-Steps P (call c k) l w into (asks fine rest, known) q s =
      let r = (env c w).0 in
      let kept = call-Kept env tables db P l w into known q s c fine in
      (
        kept,
        (rest r, found_known env tables db P l w into known q s c kept),
        λ j h. confirmed_grow c r l j h,
      )

  step-Steps :
      (P : Json → Type 0) (i : ℕ) (ts : List (Prog (Unit {0}) × Ledger)) (w : W)
      → ((j : Json) → Told ts j → P j)
      → All (Goes w) ts
      → Unique (rows env tables db w)
      → SentAre P (rows env tables db w)
      → Steps P ts (log_step enter env i ts w).0 w (log_step enter env i ts w).1
  step-Steps P i [] w into g q s = record {
    kept = record { unique = q; known = λ xs h. h; sent_are = s };
    go = tt;
    grow = λ j h. h;
  }
  step-Steps P zero (t ∷ ts) w into (g, gs) q s =
      let (kept, goes, grows) = one-Steps P t.0 t.1 w (λ j h. into j (inl h)) g q s in
      record {
        kept = kept;
        go = (goes, stays P w _ kept ts gs);
        grow = λ j h. elim h [ inl now ↦ inl (grows j now) | inr later ↦ inr later ];
      }
  step-Steps P (suc i) (t ∷ ts) w into (g, gs) q s =
      let rest = step-Steps P i ts w (λ j h. into j (inr h)) gs q s in
      record {
        kept = rest.kept;
        go = ((g.0, rest.kept.known t.1.found g.1), rest.go);
        grow = λ j h. elim h [ inl now ↦ inl now | inr later ↦ inr (rest.grow j later) ];
      }

  interleave-SentAre :
      (is : List ℕ) (ts : List (Prog (Unit {0}) × Ledger)) (w : W)
      → All (Goes w) ts
      → Unique (rows env tables db w)
      → SentAre (Told ts) (rows env tables db w)
      → let (us, v) = log_interleave enter env is ts w in SentAre (Told us) (rows env tables db v)
  interleave-SentAre [] ts w g q s = s
  interleave-SentAre (i ∷ is) ts w g q s =
      let (us, v) = log_step enter env i ts w in
      let stepped = step-Steps (Told ts) i ts w (λ j h. h) g q s in
      interleave-SentAre is us v stepped.go stepped.kept.unique (
        All-map (λ e told_before now. stepped.grow e.payload (told_before now))
          (rows env tables db v) stepped.kept.sent_are)

abbrev pub begun : List Task → List (Prog (Unit {0}) × Ledger)
begun [] = []
begun (task ∷ tasks) = (program task, blank) ∷ begun tasks

begins : (task : Task) → Tells Anything blank (program task)
unfolding program
begins task = elim (program-Unmarking task) [
  | inl e ↦ subst (λ t. Tells Anything blank (program t)) (sym e) (publish_pending-Tells blank)
  | inr h ↦ Unmarking-Tells (program task) blank h
]

beginning :
    {W : Type 0} (env : (c : Call) → W → Reply c × W) (tables : W → Tables)
    (db : IsDatabase env tables) (tasks : List Task) (w : W)
    → All (Goes env tables db w) (begun tasks)
beginning env tables db [] w = tt
beginning env tables db (task ∷ tasks) w = ((begins task, refl), beginning env tables db tasks w)

-- Whatever tasks run, on however many instances, and however their calls interleave and fail: if the
-- ids of the outbox are unique and no event is SENT at first, then at every time, for each event that
-- is SENT, one of the tasks has had a message confirmed by the broker that is the notification that the
-- event's payload tells of.
pub interleave-Told :
    {W : Type 0} (env : (c : Call) → W → Reply c × W) (tables : W → Tables)
    (db : IsDatabase env tables) (tasks : List Task) (schedule : List ℕ) (w : W)
    → Unique (tables w).events
    → All (λ e. e.status ≢ sent) (tables w).events
    → let (ts, v) = log_interleave enter env schedule (begun tasks) w in
      All (λ e. e.status ≡ sent → Told ts e.payload) (tables v).events
interleave-Told env tables db tasks schedule w unique unsent =
    interleave-SentAre env tables db schedule (begun tasks) w (beginning env tables db tasks w)
      unique (All-map (λ e no yes. absurd (no yes)) (tables w).events unsent)
