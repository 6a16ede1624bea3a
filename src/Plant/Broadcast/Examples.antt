-- ===== src/Plant/Broadcast/Examples.antt =====
-- Two subscribers, one of them slow, and a reader that waits.
use treble_tracker.Prelude.{ℕ, ◌≡◌, refl, List, [], ◌∷◌, ◌++◌, none, some, nat_eq, err, arith}
use treble_tracker.Prelude.Dict.{get}
use treble_tracker.Plant.Tick.{Tick}
use treble_tracker.Plant.Broadcast.{
  new_subscription, new_broadcaster, subscribe, offer, drain, next_batch, wait, is_waiting,
  meanwhile, fell_behind,
}
use treble_tracker.Plant.Broadcast.Fan.{
  Act, subscribes, publishes, drains, closes, history, alone, subscription_alone,
}
use treble_tracker.Plant.Broadcast.Reads.{
  Turn, comes, awaits, offers, turns, arrived, drain_all_or_error, reads_whole,
}

abbrev update_of : ℕ → Tick ℕ
update_of sequence = record {
  subject = 1 ∷ [];
  field = 7 ∷ [];
  value = 1;
  sequence = sequence;
  exchange_time = 0;
  size = none;
}

abbrev earlier : List (Act ℕ)
earlier = subscribes 1 ∷ publishes (update_of 1) ∷ []

abbrev later : List (Act ℕ)
later =
    publishes (update_of 2)
    ∷ publishes (update_of 3)
    ∷ closes 0
    ∷ publishes (update_of 4)
    ∷ drains 0
    ∷ []

subscription_alone_example :
    (let made = subscribe 5 (history earlier new_broadcaster) in
      get made.0 (history later made.1).objects)
    ≡ some (alone (history earlier new_broadcaster).made later (new_subscription 5))
unfolding subscribe
subscription_alone_example = subscription_alone earlier later 5

drain_all_or_error_case :
    (drain (offers (update_of 1 ∷ update_of 2 ∷ update_of 3 ∷ []) (new_subscription 2))).0
    ≡ err (fell_behind 1)
drain_all_or_error_case = drain_all_or_error 2 (update_of 1 ∷ update_of 2 ∷ update_of 3 ∷ [])

abbrev life : List (Turn ℕ)
life =
    comes (update_of 1)
    ∷ awaits (update_of 9 ∷ [])
    ∷ awaits (update_of 2 ∷ [])
    ∷ comes (update_of 3)
    ∷ []

-- the wait of the second turn is not entered, as there is something to read
reads_whole_example :
    ((new_subscription {F = ℕ} 2).dropped ≡ 0)
    × ((update_of 1 ∷ update_of 2 ∷ []) ++ (turns life (new_subscription 2)).queue
        ≡ [] ++ arrived life (new_subscription 2))
unfolding offer drain next_batch wait is_waiting meanwhile
reads_whole_example =
    reads_whole life (new_subscription 2) (update_of 1 ∷ update_of 2 ∷ []) (refl, omega arith) refl
      refl
