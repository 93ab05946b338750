-- ===== src/Base/Among.antt =====
-- Lists from which one among others is taken, and what may stand in its place.
use Prim.Native.Nat.{ℕ, suc, ◌+◌, ◌≤◌}
use mathlib.Core.Path.{◌≡◌, refl}
use mathlib.Core.Logic.{◌≢◌}
use mathlib.Core.Bool.{Bool, true, false, not}
use mathlib.Core.Option.{Option, none, some}
use mathlib.Core.List.{List, [], ◌∷◌, ◌++◌}
use native.Mathlib.Omega.{arith}
use flash_sale_lab.Base.Lists.{length, All, filterb}
use flash_sale_lab.Base.Tests.{is_some, ◌==◌}

abbrev pub to_list {ℓ} : {A : Type ℓ} → Option A → List A
to_list none = []
to_list (some a) = a ∷ []

abbrev pub one_if : Bool → ℕ
one_if true = 1
one_if false = 0

-- How many there are when one among others goes on or ends.
pub length-resumed {ℓ} :
    {A : Type ℓ} (before after : List A) (o : Option A)
    → length (before ++ (to_list o ++ after)) ≡ length before + one_if (is_some o) + length after
length-resumed [] after none = omega arith
length-resumed [] after (some a) = omega arith
length-resumed (x ∷ before) after o = omega (arith, length-resumed before after o)

pub length_with {ℓ} :
    {A : Type ℓ} (before after : List A) (a : A)
    → length (before ++ (a ∷ after)) ≡ length before + 1 + length after
length_with [] after a = omega arith
length_with (x ∷ before) after a = omega (arith, length_with before after a)

pub length-started {ℓ} :
    {A : Type ℓ} (xs : List A) (o : Option A)
    → length (xs ++ to_list o) ≡ length xs + one_if (is_some o)
length-started [] none = omega arith
length-started [] (some a) = omega arith
length-started (x ∷ xs) o = omega (arith, length-started xs o)

-- One that is among at most one is the only one.
pub only_one {ℓ} :
    {A : Type ℓ} (before after : List A) (a : A) (o : Option A)
    → to_list o ≡ before ++ (a ∷ after)
    → (before ++ after ≡ []) × (o ≡ some a)
only_one [] after a none e = cc
only_one [] [] a (some d) e = (refl, cc)
only_one [] (x ∷ after) a (some d) e = cc
only_one (x ∷ before) after a none e = cc
only_one (x ∷ []) after a (some d) e = cc
only_one (x ∷ z ∷ before) after a (some d) e = cc

pub empty_of_length {ℓ} : {A : Type ℓ} (xs : List A) → length xs ≡ 0 → xs ≡ []
empty_of_length [] e = refl
empty_of_length (a ∷ xs) e = absurd (omega arith)

pub one_of_length {ℓ} : {A : Type ℓ} (xs : List A) → length xs ≡ 1 → (a : A) × (xs ≡ a ∷ [])
one_of_length [] e = absurd (omega arith)
one_of_length (a ∷ []) e = (a, refl)
one_of_length (a ∷ b ∷ xs) e = absurd (omega arith)

pub none_among {ℓ} : {A : Type ℓ} (before after : List A) (a : A) → [] ≡ before ++ (a ∷ after) → ⊥
none_among [] after a e = cc
none_among (x ∷ before) after a e = cc

-- A number that is none of a list's.
abbrev pub above : List ℕ → ℕ
above [] = 0
above (x ∷ xs) = suc (x + above xs)

pub above_fresh : (n : ℕ) (xs : List ℕ) → above xs ≤ n → All (λ d. d ≢ n) xs
above_fresh n [] h = tt
above_fresh n (x ∷ xs) h = (omega arith, above_fresh n xs (omega arith))

-- The others.
abbrev pub without : ℕ → List ℕ → List ℕ
without c xs = filterb (λ d. not (d == c)) xs

pub All-without :
    (P : ℕ → Type 0) (c : ℕ) (xs : List ℕ) → All P xs → All (λ d. P d × (d ≢ c)) (without c xs)
All-without P c [] h = tt
All-without P c (x ∷ xs) h = ground (arith, All-without P c xs h.1)
