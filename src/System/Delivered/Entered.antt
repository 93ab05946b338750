-- ===== src/System/Delivered/Entered.antt =====
-- What a call leaves of a task's ledger: what is confirmed in it stays so, and but for a search, what
-- was found.
use flash_sale_lab.Base.{
  Option, ℕ, ◌≡◌, refl, sym, subst, Bool, true, false, some, List, [], ◌∷◌, ◌++◌, Any, arith, inr,
}
use flash_sale_lab.Base.Json.{Json}
use flash_sale_lab.Io.{Result, ok, err}
use flash_sale_lab.Platform.{Call, Reply, statement, send_to_queue, wait_for_confirms}
use flash_sale_lab.Platform.Broker.{Content}
use flash_sale_lab.Platform.Database.{
  OutboxStatus, OutboxEvent, OutboxWhere, OutboxChange, find_events, update_events, update_event,
}
use flash_sale_lab.Outbox.Ledger.{Ledger, enter, enter_found}
use flash_sale_lab.Outbox.Told.{told}

-- The payload tells of a notification that a ledger has as confirmed.
abbrev pub ToldBy : Ledger → Json → Type 0
ToldBy l j = Any (λ c. told j ≡ some c) l.confirmed

abbrev pub is_search : Call → Bool
is_search (statement (find_events c n)) = true
is_search _ = false

pub found_same :
    (c : Call) (r : Reply c) (l : Ledger) → is_search c ≡ false → (enter c r l).found ≡ l.found
found_same (statement (find_events c n)) r l h = cc
found_same (statement (update_events c d)) r l h = ground arith
found_same (statement (update_event n d)) r l h = ground arith
found_same (send_to_queue q c h) r l f = ground arith
found_same wait_for_confirms r l h = ground arith
found_same (statement _) r l h = refl
found_same _ r l h = refl

pub confirmed_grow :
    (c : Call) (r : Reply c) (l : Ledger) (j : Json) → ToldBy l j → ToldBy (enter c r l) j
confirmed_grow (statement (find_events c n)) r l j h =
    subst (Any (λ x. told j ≡ some x)) (sym (found_confirmed c.status r l)) h
  where
    found_confirmed :
        (s : Option OutboxStatus) (r : Result (List OutboxEvent)) (l : Ledger)
        → (enter_found s r l).confirmed ≡ l.confirmed
    found_confirmed s r l = ground arith
confirmed_grow (statement (update_events c d)) r l j h =
    subst (Any (λ x. told j ≡ some x)) (sym (claim_confirmed c d r l)) h
  where
    claim_confirmed :
        (c : OutboxWhere) (d : OutboxChange) (r : Result ℕ) (l : Ledger)
        → (enter (statement (update_events c d)) r l).confirmed ≡ l.confirmed
    claim_confirmed c d r l = ground arith
confirmed_grow (statement (update_event n d)) r l j h =
    subst (Any (λ x. told j ≡ some x)) (sym (mark_confirmed n d r l)) h
  where
    mark_confirmed :
        (n : ℕ) (d : OutboxChange) (r : Result OutboxEvent) (l : Ledger)
        → (enter (statement (update_event n d)) r l).confirmed ≡ l.confirmed
    mark_confirmed n d r l = ground arith
confirmed_grow (send_to_queue q c h) (ok b) l j g = g
confirmed_grow (send_to_queue q c h) (err e) l j g = g
confirmed_grow wait_for_confirms (ok u) l j h = Any-after l.waiting l.confirmed h
  where
    Any-after :
        (cs ds : List Content)
        → Any (λ x. told j ≡ some x) ds
        → Any (λ x. told j ≡ some x) (cs ++ ds)
    Any-after [] ds h = h
    Any-after (c ∷ cs) ds h = inr (Any-after cs ds h)
confirmed_grow wait_for_confirms (err e) l j h = h
confirmed_grow (statement _) r l j h = h
confirmed_grow _ r l j h = h
