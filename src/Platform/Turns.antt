-- ===== src/Platform/Turns.antt =====
-- The tasks of one process, turn by turn: JavaScript runs a task from the reply to an `await` to the
-- next `await`, or to its end, and no other task in between. The calls that are not awaited are those of
-- `LocalCall`; the few others that the channel of the broker has count as awaited, which only gives more
-- interleavings.
use flash_sale_lab.Base.{ℕ, zero, suc, List, [], ◌∷◌}
use flash_sale_lab.Io.{pure, throw, call}
use flash_sale_lab.Io.Tasks.{advance}
use flash_sale_lab.Platform.{Call, Reply, Prog, local}

module _ {W : Type 0} {A : Type 0} where
  -- To the next `await`.
  abbrev pub until_await : ((c : Call) → W → Reply c × W) → Prog A → W → Prog A × W
  until_await env (pure a) w = (pure a, w)
  until_await env (throw e) w = (throw e, w)
  until_await env (call (local l) k) w = let (r, w') = env (local l) w in until_await env (k r) w'
  until_await env (call c k) w = (call c k, w)

  -- A turn: the reply comes, and the task goes on. A task that has not begun begins.
  abbrev pub turn : ((c : Call) → W → Reply c × W) → Prog A → W → Prog A × W
  turn env p w = let (q, w') = advance env p w in until_await env q w'

  abbrev pub turn_at : ((c : Call) → W → Reply c × W) → ℕ → List (Prog A) → W → List (Prog A) × W
  turn_at env i [] w = ([], w)
  turn_at env zero (p ∷ ps) w = let (p', w') = turn env p w in (p' ∷ ps, w')
  turn_at env (suc i) (p ∷ ps) w = let (ps', w') = turn_at env i ps w in (p ∷ ps', w')

  -- A schedule says whose turn it is.
  abbrev pub take_turns :
      ((c : Call) → W → Reply c × W) → List ℕ → List (Prog A) → W → List (Prog A) × W
  take_turns env [] ps w = (ps, w)
  take_turns env (i ∷ is) ps w = let (ps', w') = turn_at env i ps w in take_turns env is ps' w'
