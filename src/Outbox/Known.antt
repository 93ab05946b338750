-- ===== src/Outbox/Known.antt =====
-- What is known of the outbox table from rows that were read stays true, whatever is written to it.
use flash_sale_lab.Base.{
  ℕ, ◌≡◌, ◌≢◌, refl, sym, subst, Bool, true, false, ◌==◌, List, [], ◌∷◌, allb, anyb, update_where,
  All, Any, arith, if◌then◌else◌, inl, inr,
}
use flash_sale_lab.Base.Json.{Json}
use flash_sale_lab.Platform.Database.{OutboxEvent, OutboxChange, sent}
use flash_sale_lab.Platform.Laws.{change_event}
use flash_sale_lab.Outbox.Told.{told, same-equal, same-told, agrees, is_known, Unique}

agrees_fresh :
    (x : OutboxEvent) (es : List OutboxEvent)
    → All (λ d. d.id ≢ x.id) es
    → allb (agrees x) es ≡ true
agrees_fresh x [] h = refl
agrees_fresh x (e ∷ es) h = ground (arith, h.0, agrees_fresh x es h.1)

agrees_self : (x : OutboxEvent) → agrees x x ≡ true
agrees_self x = ground (arith, same-told x.payload)

-- A new row whose id is none of those known.
known-grown :
    (e : OutboxEvent) (es xs : List OutboxEvent)
    → All (λ x. x.id ≢ e.id) xs
    → allb (is_known es) xs ≡ true
    → allb (is_known (e ∷ es)) xs ≡ true
known-grown e es [] f h = refl
known-grown e es (x ∷ xs) f h = ground (arith, f.0, h, known-grown e es xs f.1)

pub known_own : (es : List OutboxEvent) → Unique es → allb (is_known es) es ≡ true
known_own [] u = refl
known_own (e ∷ es) u =
    ground (arith, agrees_self e, agrees_fresh e es u.0, known-grown e es es u.0 (known_own es u.1))

unseen :
    (e : OutboxEvent) (es : List OutboxEvent) (n : ℕ)
    → All (λ d. d.id ≢ e.id) es
    → anyb (λ d. d.id == n) es ≡ true
    → n ≢ e.id
unseen e [] n f h = cc
unseen e (d ∷ es) n f h = ground (arith, f.0, h, unseen e es n f.1)

known_ids :
    (e : OutboxEvent) (es xs : List OutboxEvent)
    → All (λ d. d.id ≢ e.id) es
    → allb (is_known es) xs ≡ true
    → All (λ x. x.id ≢ e.id) xs
known_ids e es [] f h = tt
known_ids e es (x ∷ xs) f h =
    (unseen e es x.id f (ground (arith, h)), known_ids e es xs f (ground (arith, h)))

pub new_known :
    (e : OutboxEvent) (es xs : List OutboxEvent)
    → All (λ d. d.id ≢ e.id) es
    → allb (is_known es) xs ≡ true
    → allb (is_known (e ∷ es)) xs ≡ true
new_known e es xs f h = known-grown e es xs (known_ids e es xs f h) h

module _ (p : OutboxEvent → Bool) (c : OutboxChange) where
  changed_agrees :
      (x : OutboxEvent) (es : List OutboxEvent)
      → allb (agrees x) (update_where p (change_event c) es) ≡ allb (agrees x) es
  changed_agrees x [] = refl
  changed_agrees x (e ∷ es) = ground (arith, changed_agrees x es)

  changed_ids :
      (n : ℕ) (es : List OutboxEvent)
      → anyb (λ d. d.id == n) (update_where p (change_event c) es) ≡ anyb (λ d. d.id == n) es
  changed_ids n [] = refl
  changed_ids n (e ∷ es) = ground (arith, changed_ids n es)

  pub changed_known :
      (es xs : List OutboxEvent)
      → allb (is_known es) xs ≡ true
      → allb (is_known (update_where p (change_event c) es)) xs ≡ true
  changed_known es [] h = refl
  changed_known es (x ∷ xs) h =
      ground (arith, h, changed_agrees x es, changed_ids x.id es, changed_known es xs)

  changed_fresh :
      (n : ℕ) (es : List OutboxEvent)
      → All (λ d. d.id ≢ n) es
      → All (λ d. d.id ≢ n) (update_where p (change_event c) es)
  changed_fresh n [] h = tt
  changed_fresh n (e ∷ es) h = ground (arith, h.0, changed_fresh n es h.1)

  same_id : (e : OutboxEvent) (b : Bool) → (if b then change_event c e else e).id ≡ e.id
  same_id e true = refl
  same_id e false = refl

  pub changed-Unique :
      (es : List OutboxEvent) → Unique es → Unique (update_where p (change_event c) es)
  changed-Unique [] u = tt
  changed-Unique (e ∷ es) u = (
    subst (λ n. All (λ d. d.id ≢ n) (update_where p (change_event c) es)) (sym (same_id e (p e)))
        (changed_fresh e.id es u.0),
    changed-Unique es u.1,
  )

-- Every event that is SENT has a payload with the predicate.
abbrev pub SentAre : (Json → Type 0) → List OutboxEvent → Type 0
SentAre P es = All (λ e. e.status ≡ sent → P e.payload) es

module _ (P : Json → Type 0) (p : OutboxEvent → Bool) (c : OutboxChange) where
  abbrev Carries : OutboxEvent → Type 0
  Carries e = e.status ≡ sent → P e.payload

  changed_one :
      (e : OutboxEvent) (b : Bool)
      → Carries e
      → (c.status ≡ sent → b ≡ true → P e.payload)
      → Carries (if b then change_event c e else e)
  changed_one e true h g = λ s. g s refl
  changed_one e false h g = h

  -- A change to SENT is of events that have it too.
  pub changed-SentAre :
      (es : List OutboxEvent)
      → SentAre P es
      → All (λ e. c.status ≡ sent → p e ≡ true → P e.payload) es
      → SentAre P (update_where p (change_event c) es)
  changed-SentAre [] h g = tt
  changed-SentAre (e ∷ es) (h, hs) (g, gs) = (changed_one e (p e) h g, changed-SentAre es hs gs)

-- What a known row tells, all rows of its id tell.
pub agreeing :
    (x : OutboxEvent) (es : List OutboxEvent)
    → allb (agrees x) es ≡ true
    → All (λ e. (e.id == x.id) ≡ true → told e.payload ≡ told x.payload) es
agreeing x [] h = tt
agreeing x (e ∷ es) h = (
  λ i. same-equal (told e.payload) (told x.payload) (ground (arith, h, i)),
  agreeing x es (ground (arith, h)),
)

pub pick :
    (R : OutboxEvent → Type 0) (p : OutboxEvent → Bool) (xs : List OutboxEvent)
    → Any R xs
    → allb p xs ≡ true
    → (x : OutboxEvent) × R x × (p x ≡ true)
pick R p [] r h = elim r [ ]
pick R p (x ∷ xs) (inl r) h = (x, r, ground (arith, h))
pick R p (x ∷ xs) (inr r) h = pick R p xs r (ground (arith, h))
