-- ===== src/Io/Run.antt =====
-- One task run to its end in an environment, which answers each call and changes the world.
use flash_sale_lab.Base.{◌≡◌, refl}
use flash_sale_lab.Io.{Error, Result, ok, err, Io, pure, throw, call, ◌>>=◌, catch, finally}

module _ {C : Type 0} {R : C → Type 0} {W : Type 0} where
  abbrev pub run {ℓ} : {A : Type ℓ} → ((c : C) → W → R c × W) → Io C R A → W → Result A × W
  run env (pure a) w = (ok a, w)
  run env (throw e) w = (err e, w)
  run env (call c k) w = let (r, w') = env c w in run env (k r) w'

module _ {ℓ κ} {C : Type 0} {R : C → Type 0} {W : Type 0} {A : Type ℓ} {B : Type κ} where
  -- What follows the first part of a sequence.
  abbrev pub then_run : ((c : C) → W → R c × W) → (A → Io C R B) → Result A × W → Result B × W
  then_run env f (ok a, w) = run env (f a) w
  then_run env f (err e, w) = (err e, w)

  pub run->>= :
      (env : (c : C) → W → R c × W) (m : Io C R A) (f : A → Io C R B) (w : W)
      → run env (m >>= f) w ≡ then_run env f (run env m w)
  run->>= env (pure a) f w = refl
  run->>= env (throw e) f w = refl
  run->>= env (call c k) f w = run->>= env (k (env c w).0) f (env c w).1

module _ {ℓ} {C : Type 0} {R : C → Type 0} {W : Type 0} {A : Type ℓ} where
  abbrev pub catch_run : ((c : C) → W → R c × W) → (Error → Io C R A) → Result A × W → Result A × W
  catch_run env h (ok a, w) = (ok a, w)
  catch_run env h (err e, w) = run env (h e) w

  pub run-catch :
      (env : (c : C) → W → R c × W) (m : Io C R A) (h : Error → Io C R A) (w : W)
      → run env (catch m h) w ≡ catch_run env h (run env m w)
  run-catch env (pure a) h w = refl
  run-catch env (throw e) h w = refl
  run-catch env (call c k) h w = run-catch env (k (env c w).0) h (env c w).1

  abbrev pub finally_run : ((c : C) → W → R c × W) → Io C R (Unit {0}) → Result A × W → Result A × W
  finally_run env last (ok a, w) = run env (last >>= λ _. pure a) w
  finally_run env last (err e, w) = run env (last >>= λ _. throw e) w

  pub run-finally :
      (env : (c : C) → W → R c × W) (m : Io C R A) (last : Io C R (Unit {0})) (w : W)
      → run env (finally m last) w ≡ finally_run env last (run env m w)
  run-finally env (pure a) last w = refl
  run-finally env (throw e) last w = refl
  run-finally env (call c k) last w = run-finally env (k (env c w).0) last (env c w).1
