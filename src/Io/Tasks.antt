-- ===== src/Io/Tasks.antt =====
-- Many tasks over one world, interleaved call by call in any order: the tasks of one event loop, and
-- those of several instances of the program.
use flash_sale_lab.Base.{ℕ, zero, suc, Bool, true, false, List, [], ◌∷◌, All, if◌then◌else◌}
use flash_sale_lab.Io.{Error, Result, ok, err, Io, pure, throw, call, ◌>>=◌, catch, finally, settle}

-- Every call that the program can make, whatever the replies, has the predicate.
pub data Calls {ℓ} {C : Type 0} {R : C → Type 0} {A : Type ℓ} (P : C → Type 0)
    : Io C R A → Type ℓ where
  ends : {a : A} → Calls P (pure a)
  throws : {e : Error} → Calls P (throw e)
  calls : {c : C} {k : R c → Io C R A} → P c → ((r : R c) → Calls P (k r)) → Calls P (call c k)

module _ {ℓ κ} {C : Type 0} {R : C → Type 0} {A : Type ℓ} {B : Type κ} {P : C → Type 0} where
  pub Calls->>= :
      (m : Io C R A) (f : A → Io C R B) → Calls P m → ((a : A) → Calls P (f a)) → Calls P (m >>= f)
  Calls->>= (pure a) f h g = g a
  Calls->>= (throw e) f h g = throws
  Calls->>= (call c k) f (calls h hk) g = calls h (λ r. Calls->>= (k r) f (hk r) g)

module _ {ℓ} {C : Type 0} {R : C → Type 0} {A : Type ℓ} {P : C → Type 0} where
  pub Calls-catch :
      (m : Io C R A) (f : Error → Io C R A)
      → Calls P m
      → ((e : Error) → Calls P (f e))
      → Calls P (catch m f)
  Calls-catch (pure a) f h g = ends
  Calls-catch (throw e) f h g = g e
  Calls-catch (call c k) f (calls h hk) g = calls h (λ r. Calls-catch (k r) f (hk r) g)

  pub Calls-finally :
      (m : Io C R A) (last : Io C R (Unit {0}))
      → Calls P m
      → Calls P last
      → Calls P (finally m last)
  Calls-finally (pure a) last h g = Calls->>= last _ g (λ _. ends)
  Calls-finally (throw e) last h g = Calls->>= last _ g (λ _. throws)
  Calls-finally (call c k) last (calls h hk) g = calls h (λ r. Calls-finally (k r) last (hk r) g)

  pub Calls-map : {Q : C → Type 0} → ((c : C) → P c → Q c) → (m : Io C R A) → Calls P m → Calls Q m
  Calls-map f (pure a) h = ends
  Calls-map f (throw e) h = throws
  Calls-map f (call c k) (calls h hk) = calls (f c h) (λ r. Calls-map f (k r) (hk r))

  pub Calls-settle : (r : Result A) → Calls P (settle {C = C} {R = R} r)
  Calls-settle (ok a) = ends
  Calls-settle (err e) = throws

  pub Calls-if : (b : Bool) (p q : Io C R A) → Calls P p → Calls P q → Calls P (if b then p else q)
  Calls-if true p q hp hq = hp
  Calls-if false p q hp hq = hq

pub ruleset calls_rules =
    (ends, throws, calls, Calls->>=, Calls-catch, Calls-finally, Calls-settle, Calls-if)

module _ {ℓ} {C : Type 0} {R : C → Type 0} {W : Type 0} {A : Type ℓ} where
  -- One call of one task. A task that has ended stays as it is.
  abbrev pub advance : ((c : C) → W → R c × W) → Io C R A → W → Io C R A × W
  advance env (pure a) w = (pure a, w)
  advance env (throw e) w = (throw e, w)
  advance env (call c k) w = let (r, w') = env c w in (k r, w')

  -- One call of the task at an index; an index past the end changes nothing.
  abbrev pub step : ((c : C) → W → R c × W) → ℕ → List (Io C R A) → W → List (Io C R A) × W
  step env i [] w = ([], w)
  step env zero (p ∷ ps) w = let (p', w') = advance env p w in (p' ∷ ps, w')
  step env (suc i) (p ∷ ps) w = let (ps', w') = step env i ps w in (p ∷ ps', w')

  -- A schedule says whose turn it is.
  abbrev pub interleave :
      ((c : C) → W → R c × W) → List ℕ → List (Io C R A) → W → List (Io C R A) × W
  interleave env [] ps w = (ps, w)
  interleave env (i ∷ is) ps w = let (ps', w') = step env i ps w in interleave env is ps' w'

-- What every call of the tasks keeps, every interleaving of them keeps.
module _ {ℓ} {C : Type 0} {R : C → Type 0} {W : Type 0} {A : Type ℓ} (env : (c : C) → W → R c × W)
    (P : C → Type 0) (Inv : W → Type 0)
    (keep : (c : C) (w : W) → P c → Inv w → Inv (env c w).1) where
  abbrev Holds : List (Io C R A) × W → Type ℓ
  Holds s = All (Calls P) s.0 × Inv s.1

  advance-Holds :
      (p : Io C R A) (w : W)
      → Calls P p
      → Inv w
      → Calls P (advance env p w).0 × Inv (advance env p w).1
  advance-Holds (pure a) w h v = (h, v)
  advance-Holds (throw e) w h v = (h, v)
  advance-Holds (call c k) w (calls h hk) v = (hk (env c w).0, keep c w h v)

  step-Holds : (i : ℕ) (ps : List (Io C R A)) (w : W) → Holds (ps, w) → Holds (step env i ps w)
  step-Holds i [] w h = h
  step-Holds zero (p ∷ ps) w h =
      let (now, after) = advance-Holds p w h.0.0 h.1 in ((now, h.0.1), after)
  step-Holds (suc i) (p ∷ ps) w h =
      let (rest, after) = step-Holds i ps w (h.0.1, h.1) in ((h.0.0, rest), after)

  pub interleave_inv :
      (is : List ℕ) (ps : List (Io C R A)) (w : W)
      → All (Calls P) ps
      → Inv w
      → Inv (interleave env is ps w).1
  interleave_inv [] ps w h v = v
  interleave_inv (i ∷ is) ps w h v =
      let (rest, after) = step-Holds i ps w (h, v) in interleave_inv is _ _ rest after

-- The tasks go on making only such calls.
pub interleave-Calls {ℓ} :
    {C : Type 0} {R : C → Type 0} {W : Type 0} {A : Type ℓ} (env : (c : C) → W → R c × W)
    (P : C → Type 0) (is : List ℕ) (ps : List (Io C R A)) (w : W)
    → All (Calls P) ps
    → All (Calls P) (interleave env is ps w).0
interleave-Calls env P [] ps w h = h
interleave-Calls env P (i ∷ is) ps w h =
    let s = step-Holds env P (λ w. Unit) (λ c w p v. tt) i ps w (h, tt) in
    interleave-Calls env P is (step env i ps w).0 (step env i ps w).1 s.0
