-- ===== src/Http/Passing.antt =====
-- What the latency interceptor does to the run of a handler.
use flash_sale_lab.Base.{ℕ, ◌≡◌, refl, Option, arith}
use flash_sale_lab.Io.{Result, ok, err, pure, ◌>>=◌, ◌>>◌, settle}
use flash_sale_lab.Io.Run.{run, then_run, run->>=, catch_run, run-catch}
use flash_sale_lab.Platform.{Call, Reply, Prog, local, now}
use flash_sale_lab.Http.Latency.{Request, error_status_of, finalize, attempt, intercept}

module _ {V : Type 0} (env : (c : Call) → V → Reply c × V) where
  run-attempt :
      {A : Type 0} (handler : Prog A) (s : V)
      → run env (attempt handler) s ≡ (ok (run env handler s).0, (run env handler s).1)
  run-attempt {A} handler s =
      rw
        (
          run-catch env (handler >>= λ a. pure (ok a)) (λ e. pure (err e)) s,
          run->>= env handler (λ a. pure (ok a)) s,
        )
        (ended (run env handler s))
    where
      ended :
          (x : Result A × V)
          → catch_run env (λ e. pure (err e)) (then_run env (λ a. pure (ok a)) x) ≡ (ok x.0, x.1)
      ended (ok a, t) = refl
      ended (err e, t) = refl

  settled :
      {A : Type 0} (r : Result A) (x : Result (Unit {0}) × V)
      → x.0 ≡ ok tt
      → then_run env (λ u. settle r) x ≡ (r, x.1)
  settled (ok a) (ok u, s) e = refl
  settled (err a) (ok u, s) e = refl
  settled r (err e, s) f = cc

  module _ (request : Request) where
    finalize_ok :
        (started_at : ℕ) (error_status : Option ℕ) (s : V)
        → (run env (finalize request started_at error_status) s).0 ≡ ok tt
    unfolding finalize
    finalize_ok started_at error_status s = ground arith

    -- What follows the handler.
    abbrev rest : {A : Type 0} → ℕ → Result A → Prog A
    rest started_at r = do finalize request started_at (error_status_of r); settle r

    run-rest :
        {A : Type 0} (started_at : ℕ) (r : Result A) (s : V)
        → run env (rest started_at r) s
          ≡ (r, (run env (finalize request started_at (error_status_of r)) s).1)
    run-rest started_at r s =
        let last = finalize request started_at (error_status_of r) in
        rw (run->>= env last (λ u. settle r) s)
          (settled r (run env last s) (finalize_ok started_at (error_status_of r) s))

    -- The handler's result, and after the handler `finalize`.
    pub run-intercept :
        {A : Type 0} (handler : Prog A) (s : V)
        → let (started_at, s1) = env (local now) s in
          let x = run env handler s1 in
          run env (intercept request handler) s
          ≡ (x.0, (run env (finalize request started_at (error_status_of x.0)) x.1).1)
    unfolding intercept
    run-intercept handler s =
        let (started_at, s1) = env (local now) s in
        rw (run->>= env (attempt handler) (λ r. rest started_at r) s1, run-attempt handler s1)
          (run-rest started_at (run env handler s1).0 (run env handler s1).1)
