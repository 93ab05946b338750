-- ===== src/Tests/Locking.antt =====
-- Two deliveries about one order.
use flash_sale_lab.Base.{ℕ, ◌≤◌, ◌≡◌, refl, true, none, List, [], ◌∷◌, countb, ◌==◌}
use flash_sale_lab.Io.{pure}
use flash_sale_lab.Io.Tasks.{interleave}
use flash_sale_lab.Platform.Broker.{Delivery, notification}
use flash_sale_lab.Consumer.Exclusion.{is_notifying, handlers, interleave_excludes}
use flash_sale_lab.Consumer.Racing.{unset, order_env, is_locked, order_env-IsLock, notifies_twice}

abbrev one_more_time : ℕ → Delivery
one_more_time tag = record { tag = tag; content = notification 5 "r1"; headers = none }

abbrev in_turn : List ℕ
in_turn = 0 ∷ 1 ∷ 0 ∷ 1 ∷ 0 ∷ 1 ∷ 0 ∷ 1 ∷ []

interleave_excludes_example :
    countb is_notifying
      (interleave
        (order_env (λ j. j == 5))
        in_turn
        (handlers (one_more_time 1 ∷ one_more_time 2 ∷ []))
        unset).0
    ≤ 1
interleave_excludes_example =
    interleave_excludes (order_env (λ j. j == 5)) is_locked 5 (order_env-IsLock 5)
      (one_more_time 1 ∷ one_more_time 2 ∷ []) in_turn unset (("r1", refl), (("r1", refl), tt))

notifies_twice_example :
    (schedule : List ℕ) × (let x =
        interleave
          (order_env (λ j. true))
          schedule
          (handlers (one_more_time 1 ∷ one_more_time 2 ∷ []))
          unset in
      (x.0 ≡ pure tt ∷ pure tt ∷ []) × (x.1.notified ≡ 2))
notifies_twice_example =
    notifies_twice (one_more_time 1) (one_more_time 2) 5 ("r1", refl) ("r1", refl)
