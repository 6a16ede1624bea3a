-- ===== src/Plant/Broadcast.antt =====
-- treble/plant/broadcast.py: every tick to every subscriber, each with a queue of its own.
pub mod Reads
pub mod Fan
mod Examples
use treble_tracker.Prelude.{
  ℕ, zero, suc, ◌+◌, ◌≡◌, List, [], ◌∷◌, ◌++◌, Option, none, some, Bool, true, false, ◌&&◌, ◌||◌,
  not, Result, ok, err, nat_eq, nat_eqb, ltb, if◌then◌else◌, length,
}
use treble_tracker.Prelude.Dict.{Dict, get, put}
use treble_tracker.Plant.Deque.{push}
use treble_tracker.Plant.Tick.{Tick}

-- `DEFAULT_QUEUE`
abbrev pub default_queue : ℕ
default_queue = 10000

-- `SubscriberOverflowError`, with the number of updates that its message states.
pub data SubscriberOverflow : Type 0 where
  fell_behind : ℕ → SubscriberOverflow

pub record Subscription (F : Type 0) : Type 0 where
  pub queue : List (Tick F)
  pub maxsize : ℕ
  pub dropped : ℕ
  pub closed : Bool

-- What another thread does to a subscription while its reader waits.
pub data Meanwhile (F : Type 0) : Type 0 where
  arrives : Tick F → Meanwhile F
  closes : Meanwhile F

module _ {F : Type 0} where
  abbrev pub new_subscription : ℕ → Subscription F
  new_subscription maxsize = record { queue = []; maxsize = maxsize; dropped = 0; closed = false }

  -- `_offer`
  unfoldable pub offer : Tick F → Subscription F → Subscription F
  offer t s = if s.closed then s else record {
    queue = push s.maxsize s.queue t;
    maxsize = s.maxsize;
    dropped = if nat_eqb (length s.queue) s.maxsize then s.dropped + 1 else s.dropped;
    closed = false;
  }

  unfoldable pub drain : Subscription F → Result SubscriberOverflow (List (Tick F)) × Subscription F
  drain s =
      if not (nat_eqb s.dropped 0)
      then (err (fell_behind s.dropped), record s { queue = []; dropped = 0 })
      else (ok s.queue, record s { queue = [] })

  -- The part of `close` that is under the subscription's lock.
  unfoldable pub shut : Subscription F → Subscription F
  shut s = record s { closed = true }

  unfoldable pub meanwhile : Meanwhile F → Subscription F → Subscription F
  unfolding offer shut
  meanwhile (arrives t) s = offer t s
  meanwhile closes s = shut s

  unfoldable pub wait : List (Meanwhile F) → Subscription F → Subscription F
  unfolding meanwhile
  wait [] s = s
  wait (e ∷ es) s = wait es (meanwhile e s)

  unfoldable pub is_waiting : Subscription F → Bool
  is_waiting s = nat_eqb (length s.queue) 0 && not s.closed && nat_eqb s.dropped 0

  -- `next_batch`, with what other threads do from its wait until it has the lock again, which is
  -- nothing where the timeout ends the wait.
  unfoldable pub next_batch :
      List (Meanwhile F)
      → Subscription F
      → Result SubscriberOverflow (List (Tick F)) × Subscription F
  unfolding is_waiting wait
  next_batch es s =
      let woken = if is_waiting s then wait es s else s in
      if not (nat_eqb woken.dropped 0)
      then (err (fell_behind woken.dropped), record woken { queue = []; dropped = 0 })
      else (ok woken.queue, record woken { queue = [] })

-- The broadcaster and every subscription that it has made, by a number for the object: a subscriber
-- keeps its subscription when the broadcaster has removed it.
pub record TickBroadcaster (F : Type 0) : Type 0 where
  pub objects : Dict ℕ (Subscription F)
  pub subscribers : List ℕ
  pub made : ℕ

-- `in` and `remove` on the list of subscribers
unfoldable pub listed : ℕ → List ℕ → Bool
listed i [] = false
listed i (j ∷ js) = nat_eqb j i || listed i js

unfoldable pub unlist : ℕ → List ℕ → List ℕ
unlist i [] = []
unlist i (j ∷ js) = if nat_eqb j i then js else j ∷ unlist i js

module _ {F : Type 0} where
  abbrev pub new_broadcaster : TickBroadcaster F
  new_broadcaster = record { objects = []; subscribers = []; made = 0 }

  unfoldable pub subscribe : ℕ → TickBroadcaster F → ℕ × TickBroadcaster F
  subscribe maxsize b = (
    b.made,
    record {
      objects = put b.made (new_subscription maxsize) b.objects;
      subscribers = b.subscribers ++ b.made ∷ [];
      made = b.made + 1;
    },
  )

  -- The object of a number changes.
  unfoldable pub update :
      (Subscription F → Subscription F) → ℕ → Dict ℕ (Subscription F) → Dict ℕ (Subscription F)
  update f i objects = elim (get i objects) [ none ↦ objects | some s ↦ put i (f s) objects ]

  -- `_remove`
  unfoldable pub remove : ℕ → TickBroadcaster F → TickBroadcaster F
  unfolding listed unlist
  remove i b =
      if listed i b.subscribers then record b { subscribers = unlist i b.subscribers } else b

  unfoldable pub close : ℕ → TickBroadcaster F → TickBroadcaster F
  unfolding update shut remove
  close i b = remove i (record b { objects = update shut i b.objects })

  unfoldable pub offer_all : Tick F → List ℕ → Dict ℕ (Subscription F) → Dict ℕ (Subscription F)
  unfolding update offer
  offer_all t [] objects = objects
  offer_all t (i ∷ targets) objects = offer_all t targets (update (offer t) i objects)

  unfoldable pub broadcast : Tick F → TickBroadcaster F → TickBroadcaster F
  unfolding offer_all
  broadcast t b = record b { objects = offer_all t b.subscribers b.objects }
