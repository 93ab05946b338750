-- ===== src/Outbox/Progress.antt =====
-- What a cycle gets done when the database and the broker serve it.
use flash_sale_lab.Base.{ℕ, ◌≡◌, Bool, true, false, List, [], ◌∷◌, map, ◌==◌}
use flash_sale_lab.Io.{Result, ok, err, is_ok}
use flash_sale_lab.Platform.{
  Call, Reply, statement, local, load_channel, send_to_queue, wait_for_confirms,
}
use flash_sale_lab.Platform.Broker.{Content}
use flash_sale_lab.Platform.Database.{update_events, update_event}
use flash_sale_lab.Outbox.Repository.{PendingOutboxEvent}
use flash_sale_lab.Outbox.Ledger.{Mark, Ledger}
use flash_sale_lab.Outbox.Sending.{notification_of}

abbrev is_one : Result ℕ → Bool
is_one (ok n) = n == 1
is_one (err e) = false

-- A reply that gives the program what it asks for: a claim that finds its event PENDING, a channel
-- that is there, and no rejection.
abbrev pub serves : (c : Call) → Reply c → Bool
serves (statement (update_events c d)) r = is_one r
serves (statement (update_event n d)) r = is_ok r
serves (local load_channel) r = r
serves (send_to_queue q c h) r = is_ok r
serves wait_for_confirms r = is_ok r
serves _ r = true

-- The entries in reverse in front of others.
abbrev pub onto : {A : Type 0} → List A → List A → List A
onto [] ys = ys
onto (x ∷ xs) ys = onto xs (x ∷ ys)

-- The mark of an event whose notification was confirmed right before, and others before that.
abbrev pub mark_after : PendingOutboxEvent → List Content → Mark
mark_after e confirmed = record { id = e.id; confirmed_before = notification_of e ∷ confirmed }

-- The marks of the events in turn, each after the confirm of its own notification and before that of
-- the next one.
abbrev pub marks_in_turn : List PendingOutboxEvent → List Content → List Mark → List Mark
marks_in_turn [] confirmed marks = marks
marks_in_turn (e ∷ es) confirmed marks =
    marks_in_turn es (notification_of e ∷ confirmed) (mark_after e confirmed ∷ marks)

module _ {W : Type 0} (env : (c : Call) → W → Reply c × W)
    (up : (c : Call) (w : W) → serves c (env c w).0 ≡ true) where
  -- The event was sent, confirmed and marked.
  abbrev Publishes : PendingOutboxEvent → Ledger → Result (Unit {0}) × (W × Ledger) → Type 0
  Publishes e l x =
      (x.0 ≡ ok tt)
      × (x.1.1.waiting ≡ [])
      × (x.1.1.confirmed ≡ notification_of e ∷ l.confirmed)
      × (x.1.1.marks ≡ mark_after e l.confirmed ∷ l.marks)

  -- All of them were, in order.
  abbrev pub PublishesAll :
      List PendingOutboxEvent → Ledger → Result (Unit {0}) × (W × Ledger) → Type 0
  PublishesAll es l x =
      (x.0 ≡ ok tt)
      × (x.1.1.confirmed ≡ onto (map notification_of es) l.confirmed)
      × (x.1.1.marks ≡ marks_in_turn es l.confirmed l.marks)
