-- ===== src/Base/Filters.antt =====
-- Facts on `filterb` that the components share.
use mathlib.Core.Path.{◌≡◌, refl}
use mathlib.Core.Bool.{Bool, true}
use mathlib.Core.List.{List, [], ◌∷◌}
use native.Mathlib.Omega.{arith}
use flash_sale_lab.Base.Lists.{filterb, allb, All}

module _ {A : Type 0} (p : A → Bool) where
  pub allb-filterb : (xs : List A) → allb p (filterb p xs) ≡ true
  allb-filterb [] = refl
  allb-filterb (x ∷ xs) = ground (arith, allb-filterb xs)

  pub filterb-filterb : (xs : List A) → filterb p (filterb p xs) ≡ filterb p xs
  filterb-filterb [] = refl
  filterb-filterb (x ∷ xs) = ground (arith, filterb-filterb xs)

  pub filterb_cong :
      (q : A → Bool) (xs : List A) → All (λ x. p x ≡ q x) xs → filterb p xs ≡ filterb q xs
  filterb_cong q [] h = refl
  filterb_cong q (x ∷ xs) (e, h) = ground (arith, e, filterb_cong q xs h)

  pub filterb_id : (xs : List A) → All (λ x. p x ≡ true) xs → filterb p xs ≡ xs
  filterb_id [] h = refl
  filterb_id (x ∷ xs) (e, h) = ground (arith, e, filterb_id xs h)

pub each {ℓ κ} : {A : Type ℓ} {P : A → Type κ} → ((a : A) → P a) → (xs : List A) → All P xs
each f [] = tt
each f (x ∷ xs) = (f x, each f xs)
