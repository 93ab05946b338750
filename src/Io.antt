-- ===== src/Io.antt =====
-- Asynchronous code as a program: a tree of the calls that it makes of what lies outside src/ (the
-- database, the cache, the broker, the log), each with the rest of the code as a function of the
-- reply. An `await` is a call; between two calls other tasks may run (Io/Tasks).
pub mod Run
pub mod Tasks
use flash_sale_lab.Base.{ℕ, String, Bool, true, false, ◌≡◌, refl, ◌⊎◌, inl, inr}

-- What TypeScript code throws: a Nest `HttpException` with its status, or any other error;
-- `error_at` is a message that ends in a number.
pub data Error : Type 0 where
  http : ℕ → String → Error
  error : String → Error
  error_at : String → ℕ → Error

pub data Result {ℓ} (A : Type ℓ) : Type ℓ where
  ok : A → Result A
  err : Error → Result A

abbrev pub is_ok {ℓ} : {A : Type ℓ} → Result A → Bool
is_ok (ok a) = true
is_ok (err e) = false

pub Result-cases {ℓ} :
    {A : Type ℓ} (r : Result A) → ((a : A) × (r ≡ ok a)) ⊎ ((e : Error) × (r ≡ err e))
Result-cases (ok a) = inl (a, refl)
Result-cases (err e) = inr (e, refl)

-- `C` are the calls and `R c` the replies to `c`; a call that can throw or reject replies `Result`.
pub data Io {ℓ} (C : Type 0) (R : C → Type 0) (A : Type ℓ) : Type ℓ where
  pure : A → Io C R A
  throw : Error → Io C R A
  call : (c : C) → (R c → Io C R A) → Io C R A

module _ {ℓ κ} {C : Type 0} {R : C → Type 0} {A : Type ℓ} {B : Type κ} where
  infixl 5 ◌>>=◌ ◌>>◌
  abbrev pub ◌>>=◌ : Io C R A → (A → Io C R B) → Io C R B
  pure a >>= f = f a
  throw e >>= f = throw e
  call c k >>= f = call c (λ r. k r >>= f)

  abbrev pub ◌>>◌ : Io C R A → Io C R B → Io C R B
  m >> n = m >>= λ _. n

module _ {ℓ} {C : Type 0} {R : C → Type 0} {A : Type ℓ} where
  -- `try { … } catch (e) { … }`
  abbrev pub catch : Io C R A → (Error → Io C R A) → Io C R A
  catch (pure a) h = pure a
  catch (throw e) h = h e
  catch (call c k) h = call c (λ r. catch (k r) h)

  -- `try { … } finally { … }`
  abbrev pub finally : Io C R A → Io C R (Unit {0}) → Io C R A
  finally (pure a) last = last >>= λ _. pure a
  finally (throw e) last = last >>= λ _. throw e
  finally (call c k) last = call c (λ r. finally (k r) last)

  -- A reply that may be an error, as the value or the exception that the caller sees.
  abbrev pub settle : Result A → Io C R A
  settle (ok a) = pure a
  settle (err e) = throw e
