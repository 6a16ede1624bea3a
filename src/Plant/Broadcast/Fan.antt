-- ===== src/Plant/Broadcast/Fan.antt =====
-- Every subscription has its own queue: what one holds depends on no other.
use treble_tracker.Prelude.{
  ℕ, ◌+◌, ◌<◌, ◌≡◌, refl, ◌∙◌, List, [], ◌∷◌, ◌++◌, Option, none, some, true, false, ◌||◌, arith,
  nat_eq, nat_eqb, if◌then◌else◌, Option-cases, inl, inr,
}
use treble_tracker.Prelude.Dict.{Dict, get, get-put, get-put_self, get-put_ne}
use treble_tracker.Plant.Tick.{Tick}
use treble_tracker.Plant.Broadcast.{
  Subscription, TickBroadcaster, new_subscription, new_broadcaster, offer, shut, listed, unlist,
  subscribe, update, remove, close, drain, offer_all, broadcast,
}

abbrev pub IsDistinct : List ℕ → Type 0
IsDistinct [] = Unit
IsDistinct (i ∷ is) = (listed i is ≡ false) × IsDistinct is

-- Every number in the list is below `n`.
abbrev pub IsBelow : ℕ → List ℕ → Type 0
IsBelow n [] = Unit
IsBelow n (i ∷ is) = (i < n) × IsBelow n is

unlisted : (n : ℕ) (is : List ℕ) → IsBelow n is → listed n is ≡ false
unfolding listed
unlisted n [] h = refl
unlisted n (i ∷ is) h = ground (arith, h.0, unlisted n is h.1)

listed-snoc : (i n : ℕ) (is : List ℕ) → listed i (is ++ n ∷ []) ≡ (listed i is || nat_eqb n i)
unfolding listed
listed-snoc i n [] = ground arith
listed-snoc i n (j ∷ is) = ground (arith, listed-snoc i n is)

IsDistinct-snoc : (n : ℕ) (is : List ℕ) → IsDistinct is → IsBelow n is → IsDistinct (is ++ n ∷ [])
unfolding listed
IsDistinct-snoc n [] h b = (refl, tt)
IsDistinct-snoc n (i ∷ is) h b =
    (ground (arith, listed-snoc i n is, h.0, b.0), IsDistinct-snoc n is h.1 b.1)

IsBelow-suc : (n : ℕ) (is : List ℕ) → IsBelow n is → IsBelow (n + 1) is
IsBelow-suc n [] h = tt
IsBelow-suc n (i ∷ is) h = (omega (arith, h.0), IsBelow-suc n is h.1)

IsBelow-snoc : (n : ℕ) (is : List ℕ) → IsBelow n is → IsBelow (n + 1) (is ++ n ∷ [])
IsBelow-snoc n [] h = (omega arith, tt)
IsBelow-snoc n (i ∷ is) h = (omega (arith, h.0), IsBelow-snoc n is h.1)

listed-unlist : (i j : ℕ) (is : List ℕ) → listed j is ≡ false → listed j (unlist i is) ≡ false
unfolding listed unlist
listed-unlist i j [] h = refl
listed-unlist i j (k ∷ is) h = ground (arith, h, listed-unlist i j is)

IsDistinct-unlist : (i : ℕ) (is : List ℕ) → IsDistinct is → IsDistinct (unlist i is)
unfolding listed unlist
IsDistinct-unlist i [] h = tt
IsDistinct-unlist i (k ∷ is) h =
    elim (nat_eqb k i) as (λ b. IsDistinct (if b then is else k ∷ unlist i is)) [
      | true ↦ h.1
      | false ↦ (listed-unlist i k is h.0, IsDistinct-unlist i is h.1)
    ]

unlist-gone : (i : ℕ) (is : List ℕ) → IsDistinct is → listed i (unlist i is) ≡ false
unfolding listed unlist
unlist-gone i [] h = refl
unlist-gone i (k ∷ is) h = ground (arith, h.0, unlist-gone i is h.1)

unlist-other : (i j : ℕ) (is : List ℕ) → nat_eqb j i ≡ false → listed i (unlist j is) ≡ listed i is
unfolding listed unlist
unlist-other i j [] h = refl
unlist-other i j (k ∷ is) h = ground (arith, h, unlist-other i j is h)

unlist-IsBelow : (n i : ℕ) (is : List ℕ) → IsBelow n is → IsBelow n (unlist i is)
unfolding unlist
unlist-IsBelow n i [] h = tt
unlist-IsBelow n i (k ∷ is) h =
    elim (nat_eqb k i) as (λ b. IsBelow n (if b then is else k ∷ unlist i is)) [
      | true ↦ h.1
      | false ↦ (h.0, unlist-IsBelow n i is h.1)
    ]

module _ {F : Type 0} where
  abbrev pub map_some :
      (Subscription F → Subscription F) → Option (Subscription F) → Option (Subscription F)
  map_some f none = none
  map_some f (some s) = some (f s)

  get-update :
      (f : Subscription F → Subscription F) (i j : ℕ) (objects : Dict ℕ (Subscription F))
      → get j (update f i objects)
        ≡ (if nat_eqb i j then map_some f (get j objects) else get j objects)
  unfolding update
  get-update f i j objects = elim (Option-cases (get i objects)) [
    | inl e ↦ rw (e, update) (ground (arith, e))
    | inr e ↦ rw (e.1, update) (ground (arith, e.1, get-put i j (f e.0) objects))
  ]

  get-offer_all :
      (t : Tick F) (i : ℕ) (targets : List ℕ) (objects : Dict ℕ (Subscription F))
      → IsDistinct targets
      → get i (offer_all t targets objects)
        ≡ (if listed i targets then map_some (offer t) (get i objects) else get i objects)
  unfolding offer_all listed
  get-offer_all t i [] objects h = refl
  get-offer_all t i (j ∷ targets) objects h = ground (
    arith,
    h.0,
    get-offer_all t i targets (update (offer t) j objects) h.1,
    get-update (offer t) j i objects,
  )

-- One call at the broadcaster or at one of its subscriptions.
pub data Act (F : Type 0) : Type 0 where
  subscribes : ℕ → Act F
  publishes : Tick F → Act F
  drains : ℕ → Act F
  closes : ℕ → Act F

module _ {F : Type 0} where
  unfoldable pub step : Act F → TickBroadcaster F → TickBroadcaster F
  unfolding subscribe broadcast update drain close
  step (subscribes n) b = (subscribe n b).1
  step (publishes t) b = broadcast t b
  step (drains j) b = record b { objects = update (λ s. (drain s).1) j b.objects }
  step (closes j) b = close j b

  abbrev pub history : List (Act F) → TickBroadcaster F → TickBroadcaster F
  history [] b = b
  history (a ∷ acts) b = history acts (step a b)

  -- What a call means for the subscription of one number, were it the only one.
  abbrev pub alone_step : ℕ → Act F → Subscription F → Subscription F
  alone_step i (subscribes n) s = s
  alone_step i (publishes t) s = offer t s
  alone_step i (drains j) s = if nat_eqb j i then (drain s).1 else s
  alone_step i (closes j) s = if nat_eqb j i then shut s else s

  abbrev pub alone : ℕ → List (Act F) → Subscription F → Subscription F
  alone i [] s = s
  alone i (a ∷ acts) s = alone i acts (alone_step i a s)

  pub record IsFan (b : TickBroadcaster F) : Type 0 where
    pub distinct : IsDistinct b.subscribers
    pub below : IsBelow b.made b.subscribers

  pub record Tracks (i : ℕ) (s : Subscription F) (b : TickBroadcaster F) : Type 0 where
    pub known : i < b.made
    pub object : get i b.objects ≡ some s
    pub fed : listed i b.subscribers ≡ false → s.closed ≡ true

  remove-IsFan : (j : ℕ) (b : TickBroadcaster F) → IsFan b → IsFan (remove j b)
  unfolding remove
  remove-IsFan j b h =
      elim (listed j b.subscribers)
        as (λ c. IsFan (if c then record b { subscribers = unlist j b.subscribers } else b)) [
          | true ↦ record {
            distinct = IsDistinct-unlist j b.subscribers h.distinct;
            below = unlist-IsBelow b.made j b.subscribers h.below;
          }
          | false ↦ h
        ]

  subscribe-IsFan : (n : ℕ) (b : TickBroadcaster F) → IsFan b → IsFan (subscribe n b).1
  unfolding subscribe
  subscribe-IsFan n b h = record {
    distinct = IsDistinct-snoc b.made b.subscribers h.distinct h.below;
    below = IsBelow-snoc b.made b.subscribers h.below;
  }

  subscribe-new :
      (n : ℕ) (b : TickBroadcaster F) → Tracks b.made (new_subscription n) (subscribe n b).1
  unfolding subscribe
  subscribe-new n b = record {
    known = omega arith;
    object = get-put_self b.made (new_subscription n) b.objects;
    fed = λ l. ground (arith, l, listed-snoc b.made b.made b.subscribers);
  }

  step-IsFan : (a : Act F) (b : TickBroadcaster F) → IsFan b → IsFan (step a b)
  unfolding step subscribe broadcast close
  step-IsFan (subscribes n) b h = subscribe-IsFan n b h
  step-IsFan (publishes t) b h = record { distinct = h.distinct; below = h.below }
  step-IsFan (drains j) b h = record { distinct = h.distinct; below = h.below }
  step-IsFan (closes j) b h =
      remove-IsFan j (record b { objects = update shut j b.objects })
        (record { distinct = h.distinct; below = h.below })

  offer-closed : (t : Tick F) (s : Subscription F) → (offer t s).closed ≡ s.closed
  unfolding offer
  offer-closed t s = ground arith

  drain-closed : (s : Subscription F) → (drain s).1.closed ≡ s.closed
  unfolding drain
  drain-closed s = ground arith

  offer-shut : (t : Tick F) (s : Subscription F) → s.closed ≡ true → offer t s ≡ s
  unfolding offer
  offer-shut t s h = rw h refl

  subscribe-Tracks :
      (i n : ℕ) (s : Subscription F) (b : TickBroadcaster F)
      → Tracks i s b
      → Tracks i s (subscribe n b).1
  unfolding subscribe
  subscribe-Tracks i n s b h = record {
    known = omega (arith, h.known);
    object =
        get-put_ne b.made i (new_subscription n) b.objects (λ e. omega (arith, e, h.known))
        ∙ h.object;
    fed = λ l. h.fed (ground (arith, l, listed-snoc i b.made b.subscribers));
  }

  broadcast-Tracks :
      (i : ℕ) (s : Subscription F) (t : Tick F) (b : TickBroadcaster F)
      → IsFan b
      → Tracks i s b
      → Tracks i (offer t s) (broadcast t b)
  unfolding broadcast
  broadcast-Tracks i s t b f h = record {
    known = h.known;
    object = ground (
      arith,
      get-offer_all t i b.subscribers b.objects f.distinct,
      h.object,
      h.fed,
      offer-shut t s,
    );
    fed = λ l. offer-closed t s ∙ h.fed l;
  }

  drain-Tracks :
      (i j : ℕ) (s : Subscription F) (b : TickBroadcaster F)
      → Tracks i s b
      → Tracks i
          (alone_step i (drains j) s)
          (record b { objects = update (λ o. (drain o).1) j b.objects })
  drain-Tracks i j s b h = record {
    known = h.known;
    object = ground (arith, get-update (λ o. (drain o).1) j i b.objects, h.object);
    fed = λ l. ground (arith, h.fed l, drain-closed s);
  }

  remove-Tracks :
      (i j : ℕ) (s : Subscription F) (b : TickBroadcaster F)
      → Tracks i s b
      → (nat_eqb j i ≡ true → s.closed ≡ true)
      → Tracks i s (remove j b)
  unfolding remove
  remove-Tracks i j s b h c =
      elim (listed j b.subscribers)
        as (λ l. Tracks i s (if l then record b { subscribers = unlist j b.subscribers } else b)) [
          | true ↦ record {
            known = h.known;
            object = h.object;
            fed = λ l. ground (arith, l, c, h.fed, unlist-other i j b.subscribers);
          }
          | false ↦ h
        ]

  close-Tracks :
      (i j : ℕ) (s : Subscription F) (b : TickBroadcaster F)
      → Tracks i s b
      → Tracks i (alone_step i (closes j) s) (close j b)
  unfolding close shut
  close-Tracks i j s b h =
      remove-Tracks i j (alone_step i (closes j) s) (record b { objects = update shut j b.objects })
        (record {
          known = h.known;
          object = ground (arith, get-update shut j i b.objects, h.object);
          fed = λ l. ground (arith, h.fed l);
        })
        (λ e. ground (arith, e))

  step-Tracks :
      (i : ℕ) (s : Subscription F) (a : Act F) (b : TickBroadcaster F)
      → IsFan b
      → Tracks i s b
      → Tracks i (alone_step i a s) (step a b)
  unfolding step
  step-Tracks i s (subscribes n) b f h = subscribe-Tracks i n s b h
  step-Tracks i s (publishes t) b f h = broadcast-Tracks i s t b f h
  step-Tracks i s (drains j) b f h = drain-Tracks i j s b h
  step-Tracks i s (closes j) b f h = close-Tracks i j s b h

  history-Tracks :
      (i : ℕ) (acts : List (Act F)) (s : Subscription F) (b : TickBroadcaster F)
      → IsFan b
      → Tracks i s b
      → Tracks i (alone i acts s) (history acts b)
  history-Tracks i [] s b f h = h
  history-Tracks i (a ∷ acts) s b f h =
      history-Tracks i acts (alone_step i a s) (step a b) (step-IsFan a b f)
        (step-Tracks i s a b f h)

  history-IsFan : (acts : List (Act F)) (b : TickBroadcaster F) → IsFan b → IsFan (history acts b)
  history-IsFan [] b f = f
  history-IsFan (a ∷ acts) b f = history-IsFan acts (step a b) (step-IsFan a b f)

  -- At any time, what a subscription holds depends on the ticks published since it was made and on the
  -- calls at itself alone: no other subscription, slow or closed, changes what it gets.
  pub subscription_alone :
      (before after : List (Act F)) (n : ℕ)
      → let made = subscribe n (history before new_broadcaster) in
        get made.0 (history after made.1).objects ≡ some (alone made.0 after (new_subscription n))
  unfolding subscribe
  subscription_alone before after n =
      let b = history before new_broadcaster in
      let f = history-IsFan before new_broadcaster (record { distinct = tt; below = tt }) in
      (history-Tracks b.made after (new_subscription n) (subscribe n b).1 (subscribe-IsFan n b f)
        (subscribe-new n b)).object
