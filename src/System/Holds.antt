-- ===== src/System/Holds.antt =====
-- When an outbox event counts as taken, and what a change of the table keeps of that.
use flash_sale_lab.Base.{
  ℕ, ◌≡◌, ◌≢◌, refl, Bool, true, false, ◌&&◌, ◌||◌, Option, none, some, List, [], ◌∷◌, ◌==◌,
  update_where, countb, All, Any, arith, inl, inr, ◌⊎◌,
}
use flash_sale_lab.Platform.{Call, Reply, statement}
use flash_sale_lab.Platform.Database.{
  OutboxStatus, pending, processing, OutboxEvent, OutboxWhere, OutboxChange, update_events,
}
use flash_sale_lab.Platform.Laws.{event_matches, change_event, status_eq}

abbrev pub is_id : ℕ → Option ℕ → Bool
is_id n none = false
is_id n (some m) = m == n

abbrev pub is_pending : Option OutboxStatus → Bool
is_pending none = false
is_pending (some s) = status_eq s pending

abbrev pub is_absent : Option ℕ → Bool
is_absent none = true
is_absent (some t) = false

-- A statement that takes the event of an id from PENDING to PROCESSING.
abbrev pub claims : ℕ → OutboxWhere → OutboxChange → Bool
claims n c d =
    is_id n c.id
    && (is_pending c.status && (is_absent c.started_lt && status_eq d.status processing))

-- Whether stuck events have been given back to PENDING, by this call or before.
abbrev pub enter : Call → Bool → Bool
enter (statement (update_events c d)) b = b || status_eq d.status pending
enter _ b = b

-- An environment that keeps, beside its world, whether there was a recovery.
abbrev pub kept :
    {W : Type 0} → ((c : Call) → W → Reply c × W) → (c : Call) → W × Bool → Reply c × (W × Bool)
kept env c (w, b) = let (r, w') = env c w in (r, (w', enter c b))

-- A held event is there and not PENDING.
abbrev pub Taken : ℕ → List OutboxEvent → Type 0
Taken n es = Any (λ e. e.id ≡ n) es × All (λ e. (e.id ≢ n) ⊎ (e.status ≢ pending)) es

-- Until a recovery, a claimed event stays so.
abbrev pub IsExclusive : ℕ → Bool → List OutboxEvent → Type 0
IsExclusive n b es = (b ≡ true) ⊎ Taken n es

module _ (n : ℕ) (c : OutboxWhere) (d : OutboxChange) where
  pub unclaimable :
      (es : List OutboxEvent)
      → claims n c d ≡ true
      → All (λ e. (e.id ≢ n) ⊎ (e.status ≢ pending)) es
      → countb (event_matches c) es ≡ 0
  unclaimable [] h a = refl
  unclaimable (e ∷ es) h a = ground (arith, unclaimable es h a.1)

  pub claimed-Any :
      (es : List OutboxEvent)
      → claims n c d ≡ true
      → countb (event_matches c) es ≢ 0
      → Any (λ e. e.id ≡ n) (update_where (event_matches c) (change_event d) es)
  claimed-Any [] h k = absurd (k refl)
  claimed-Any (e ∷ es) h k = ground (arith, claimed-Any es h)

  pub claimed-All :
      (es : List OutboxEvent)
      → claims n c d ≡ true
      → All
          (λ e. (e.id ≢ n) ⊎ (e.status ≢ pending))
          (update_where (event_matches c) (change_event d) es)
  claimed-All [] h = tt
  claimed-All (e ∷ es) h = ground (arith, claimed-All es h)

pub changed-Any :
    (n : ℕ) (p : OutboxEvent → Bool) (d : OutboxChange) (es : List OutboxEvent)
    → Any (λ e. e.id ≡ n) es
    → Any (λ e. e.id ≡ n) (update_where p (change_event d) es)
changed-Any n p d [] h = h
changed-Any n p d (e ∷ es) h = ground (arith, changed-Any n p d es)

pub changed-All :
    (n : ℕ) (p : OutboxEvent → Bool) (d : OutboxChange) (es : List OutboxEvent)
    → d.status ≢ pending
    → All (λ e. (e.id ≢ n) ⊎ (e.status ≢ pending)) es
    → All (λ e. (e.id ≢ n) ⊎ (e.status ≢ pending)) (update_where p (change_event d) es)
changed-All n p d [] s h = tt
changed-All n p d (e ∷ es) s h = ground (arith, changed-All n p d es s h.1)

pub fresh-Any :
    (n : ℕ) (x : OutboxEvent) (es : List OutboxEvent)
    → Any (λ e. e.id ≡ n) es
    → All (λ e. e.id ≢ x.id) es
    → x.id ≢ n
fresh-Any n x [] h f = absurd h
fresh-Any n x (e ∷ es) (inl here) f = ground arith
fresh-Any n x (e ∷ es) (inr later) f = fresh-Any n x es later f.1

-- A statement over several events.
pub update-IsExclusive :
    (n : ℕ) (c : OutboxWhere) (d : OutboxChange) (b : Bool) (es : List OutboxEvent)
    → IsExclusive n b es
    → IsExclusive n
        (b || status_eq d.status pending)
        (update_where (event_matches c) (change_event d) es)
update-IsExclusive n c d b es (inl free) = ground arith
update-IsExclusive n c d b es (inr (there, spent)) =
    ground (arith, changed-Any n (event_matches c) d es there, changed-All n (event_matches c) d es)
