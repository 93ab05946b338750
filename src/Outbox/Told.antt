-- ===== src/Outbox/Told.antt =====
-- What the payload of an outbox event tells, and what is known of the table from rows that were read.
use mathlib.Core.List.{
  Perm, Mem, mem-cons_self, mem-cons_of_mem, eq-or-mem_of_mem-cons, not-mem-nil,
}
use mathlib.Core.List.Perm
use mathlib.Core.Logic.Or
use mathlib.Core.Bool.{Bool-set}
use flash_sale_lab.Base.{
  ℕ, zero, suc, ◌≡◌, ◌≢◌, refl, ap, String, Bool, true, false, not, ◌&&◌, ◌||◌, ◌==◌, str_eq,
  eq_iff, Option, none, some, List, [], ◌∷◌, allb, anyb, filterb, take, All, arith,
}
use flash_sale_lab.Base.Json.{Json, obj, get_field}
use flash_sale_lab.Platform.Broker.{Content, notification, malformed}
use flash_sale_lab.Platform.Database.{OutboxEvent}
use flash_sale_lab.Outbox.Repository.{as_number, as_string}

abbrev told_of : Option ℕ → Option String → Option Content
told_of (some n) (some r) = some (notification n r)
told_of _ _ = none

-- The notification that a payload tells of.
abbrev pub told : Json → Option Content
told (obj fs) = told_of (as_number (get_field "orderId" fs)) (as_string (get_field "requestId" fs))
told _ = none

abbrev same_content : Content → Content → Bool
same_content (notification n r) (notification m q) = n == m && str_eq r q
same_content _ _ = false

abbrev pub same : Option Content → Option Content → Bool
same none none = true
same (some c) (some d) = same_content c d
same _ _ = false

pub same-equal : (a b : Option Content) → same a b ≡ true → a ≡ b
same-equal none none h = refl
same-equal none (some d) h = cc
same-equal (some c) none h = cc
same-equal (some (notification n r)) (some (notification m q)) h = ground (arith, eq_iff r q)
same-equal (some (notification n r)) (some (malformed s)) h = cc
same-equal (some (malformed s)) (some d) h = cc

same-told_of : (a : Option ℕ) (b : Option String) → same (told_of a b) (told_of a b) ≡ true
same-told_of none b = refl
same-told_of (some n) none = refl
same-told_of (some n) (some r) = ground (arith, eq_iff r r)

pub same-told : (j : Json) → same (told j) (told j) ≡ true
same-told (obj fs) =
    same-told_of (as_number (get_field "orderId" fs)) (as_string (get_field "requestId" fs))
same-told _ = refl

-- Rows of the same id tell the same.
abbrev pub agrees : OutboxEvent → OutboxEvent → Bool
agrees x e = not (e.id == x.id) || same (told e.payload) (told x.payload)

-- Every row of the id tells what this one tells, and there is one.
abbrev pub is_known : List OutboxEvent → OutboxEvent → Bool
is_known es x = allb (agrees x) es && anyb (λ e. e.id == x.id) es

-- `id` is the primary key.
abbrev pub Unique : List OutboxEvent → Type 0
Unique [] = Unit
Unique (e ∷ es) = All (λ d. d.id ≢ e.id) es × Unique es

module _ {A : Type 0} (p : A → Bool) where
  allb-Mem : (xs : List A) → allb p xs ≡ true → (x : A) → Mem x xs → p x ≡ true
  allb-Mem [] h x m = absurd (not-mem-nil m)
  allb-Mem (y ∷ xs) h x m =
      Or.elim (Bool-set (p x) true) (eq-or-mem_of_mem-cons m) (λ e. ground (arith, h, ap p e))
        (λ later. allb-Mem xs (ground (arith, h)) x later)

  Mem-allb : (xs : List A) → ((x : A) → Mem x xs → p x ≡ true) → allb p xs ≡ true
  Mem-allb [] h = refl
  Mem-allb (x ∷ xs) h =
      ground (arith, h x mem-cons_self, Mem-allb xs (λ y m. h y (mem-cons_of_mem x m)))

  pub allb-Perm : (xs ys : List A) → Perm xs ys → allb p ys ≡ true → allb p xs ≡ true
  allb-Perm xs ys d h = Mem-allb xs (λ x m. allb-Mem ys h x ((Perm.mem_iff d).0 m))

  pub allb-filterb : (q : A → Bool) (xs : List A) → allb p xs ≡ true → allb p (filterb q xs) ≡ true
  allb-filterb q [] h = refl
  allb-filterb q (x ∷ xs) h = ground (arith, allb-filterb q xs)

  pub allb-take : (n : ℕ) (xs : List A) → allb p xs ≡ true → allb p (take n xs) ≡ true
  allb-take zero xs h = refl
  allb-take (suc n) [] h = refl
  allb-take (suc n) (x ∷ xs) h = ground (arith, allb-take n xs)
