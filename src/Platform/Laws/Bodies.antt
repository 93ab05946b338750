-- ===== src/Platform/Laws/Bodies.antt =====
-- How the bodies of transactions run: by their parts.
use flash_sale_lab.Base.{◌≡◌, inl, inr, refl, sym, subst}
use flash_sale_lab.Io.{ok, err, pure, throw, call, ◌>>=◌}
use flash_sale_lab.Platform.{Client, query, aside, ask}
use flash_sale_lab.Platform.Database.{Statement, Answer}
use flash_sale_lab.Platform.Laws.{Tables, Effect, Runs}

-- A sequence that ends well has run its first part well, and then the rest.
pub Runs->>= {ℓ κ} :
    {A : Type ℓ} {B : Type κ} (m : Client A) (f : A → Client B) (t : Tables) (b : B) (u : Tables)
    → Runs (m >>= f) t (ok b) u
    → (a : A) × (v : Tables) × Runs m t (ok a) v × Runs (f a) v (ok b) u
Runs->>= (pure a) f t b u h = (a, t, (refl, refl), h)
Runs->>= (throw e) f t b u h = cc (h.0)
Runs->>= (call (query s) k) f t b u (inl (x, m, did, h)) =
    let (a, v, first, rest) = Runs->>= (k (ok x)) f m b u h in (a, v, inl (x, m, did, first), rest)
Runs->>= (call (query s) k) f t b u (inr (e, h)) =
    let (a, v, first, rest) = Runs->>= (k (err e)) f t b u h in (a, v, inr (e, first), rest)
Runs->>= (call (aside l) k) f t b u (x, h) =
    let (a, v, first, rest) = Runs->>= (k x) f t b u h in (a, v, (x, first), rest)

pub ok-injective {ℓ} : {A : Type ℓ} {a b : A} → ok a ≡ ok b → a ≡ b
ok-injective e = cc

-- A statement that ends well has had its effect.
pub Runs-ask :
    (s : Statement) (t : Tables) (a : Answer s) (u : Tables)
    → Runs (ask s) t (ok a) u
    → Effect s t a u
Runs-ask s t a u (inl (x, m, did, (r, e))) =
    subst (λ v. Effect s t a v) (sym e) (subst (λ y. Effect s t y m) (sym (ok-injective r)) did)
Runs-ask s t a u (inr (x, (r, e))) = cc
