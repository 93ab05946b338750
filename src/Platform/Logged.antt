-- ===== src/Platform/Logged.antt =====
-- Tasks that interleave call by call, each with a ledger of its own.
use flash_sale_lab.Base.{ℕ, zero, suc, ◌≡◌, refl, ap, List, [], ◌∷◌, map}
use flash_sale_lab.Io.{pure, throw, call}
use flash_sale_lab.Io.Tasks.{advance, step, interleave}
use flash_sale_lab.Platform.{Call, Reply, Prog}

module _ {W L : Type 0} (enter : (c : Call) → Reply c → L → L)
    (env : (c : Call) → W → Reply c × W) where
  abbrev pub Logged : Type 0
  Logged = Prog (Unit {0}) × L

  abbrev pub log_advance : Logged → W → Logged × W
  log_advance (pure a, l) w = ((pure a, l), w)
  log_advance (throw e, l) w = ((throw e, l), w)
  log_advance (call c k, l) w = let (r, w') = env c w in ((k r, enter c r l), w')

  abbrev pub log_step : ℕ → List Logged → W → List Logged × W
  log_step i [] w = ([], w)
  log_step zero (t ∷ ts) w = let (t', w') = log_advance t w in (t' ∷ ts, w')
  log_step (suc i) (t ∷ ts) w = let (ts', w') = log_step i ts w in (t ∷ ts', w')

  abbrev pub log_interleave : List ℕ → List Logged → W → List Logged × W
  log_interleave [] ts w = (ts, w)
  log_interleave (i ∷ is) ts w = let (ts', w') = log_step i ts w in log_interleave is ts' w'

  -- Without the ledgers it is the interleaving of the tasks.
  abbrev pub unlogged : List Logged × W → List (Prog (Unit {0})) × W
  unlogged (ts, w) = (map (λ t. t.0) ts, w)

  advance_unlogged :
      (t : Logged) (w : W) → ((log_advance t w).0.0, (log_advance t w).1) ≡ advance env t.0 w
  advance_unlogged (pure a, l) w = refl
  advance_unlogged (throw e, l) w = refl
  advance_unlogged (call c k, l) w = refl

  step-unlogged :
      (i : ℕ) (ts : List Logged) (w : W)
      → unlogged (log_step i ts w) ≡ step env i (map (λ t. t.0) ts) w
  step-unlogged i [] w = refl
  step-unlogged zero (t ∷ ts) w = ap (λ x. (x.0 ∷ map (λ u. u.0) ts, x.1)) (advance_unlogged t w)
  step-unlogged (suc i) (t ∷ ts) w = ap (λ x. (t.0 ∷ x.0, x.1)) (step-unlogged i ts w)

  pub interleave-unlogged :
      (is : List ℕ) (ts : List Logged) (w : W)
      → unlogged (log_interleave is ts w) ≡ interleave env is (map (λ t. t.0) ts) w
  interleave-unlogged [] ts w = refl
  interleave-unlogged (i ∷ is) ts w =
      rw (interleave-unlogged is (log_step i ts w).0 (log_step i ts w).1)
        (ap (λ x. interleave env is x.0 x.1) (step-unlogged i ts w))
