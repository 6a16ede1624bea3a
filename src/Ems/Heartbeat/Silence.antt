-- ===== src/Ems/Heartbeat/Silence.antt =====
-- What the clock does about a peer that has gone silent.
use treble_tracker.Prelude.{
  ℕ, ◌+◌, ◌*◌, ◌≤◌, ◌<◌, ◌≡◌, ◌≢◌, ◌⊎◌, refl, sym, subst, ◌∙◌, List, [], ◌∷◌, none, some, arith,
  All,
}
use treble_tracker.Prelude.Int.{pos, ◌≤ℤ◌}
use treble_tracker.Prelude.Bytes.{Bytes}
use treble_tracker.Ems.Heartbeat.{
  Monitor, Liveness, idle, send_heartbeat, send_test_request, disconnect, due, tick, received,
}

module _ (request_id : ℕ → Bytes) where
  -- The clock alone, looked at these times while nothing arrives.
  abbrev pub ticks : List ℕ → Monitor → Monitor
  ticks [] m = m
  ticks (now ∷ times) m = ticks times (tick request_id m now)

  -- What is due at each look.
  abbrev pub actions : List ℕ → Monitor → List Liveness
  actions [] m = []
  actions (now ∷ times) m = due m now ∷ actions times (tick request_id m now)

  -- However long nobody looked, one look is enough: looked at again at the same instant, the clock
  -- is idle, unless the session is to be dropped.
  pub due-tick :
      (m : Monitor) (now : ℕ) → due m now ≢ disconnect → due (tick request_id m now) now ≡ idle
  unfolding tick
  due-tick m now h = ground arith

  -- Nothing is outstanding, and the interval is `n` seconds.
  pub record IsCalm (n : ℕ) (m : Monitor) : Type 0 where
    pub interval : m.interval ≡ pos n
    pub positive : 0 < n
    pub no_request : m.outstanding ≡ none
    pub no_deadline : m.outstanding_at ≡ none

  -- A request was sent at `asked`.
  pub record IsAsking (n asked : ℕ) (m : Monitor) : Type 0 where
    pub interval : m.interval ≡ pos n
    pub positive : 0 < n
    pub request : (id : Bytes) × (m.outstanding ≡ some id)
    pub deadline : m.outstanding_at ≡ some asked

  -- The margin added, the silence that is allowed with an interval of `n` seconds.
  abbrev pub allowed : ℕ → ℕ
  allowed n = n * 1_200_000

  abbrev pub IsQuiet : Liveness → Type 0
  IsQuiet a = (a ≡ idle) ⊎ (a ≡ send_heartbeat)

  IsCalm-tick :
      (n now : ℕ) (m : Monitor)
      → IsCalm n m
      → now < m.last_received + allowed n
      → IsQuiet (due m now)
        × IsCalm n (tick request_id m now)
        × ((tick request_id m now).last_received ≡ m.last_received)
  unfolding tick
  IsCalm-tick n now m c h = ground (arith, c.interval)

  ask :
      (n now : ℕ) (m : Monitor)
      → IsCalm n m
      → m.last_received + allowed n ≤ now
      → (due m now ≡ send_test_request) × IsAsking n now (tick request_id m now)
  unfolding tick
  ask n now m c h = (
    ground (arith, c.interval, c.positive, c.no_request, c.no_deadline),
    record {
      interval = ground (arith, c.interval);
      positive = c.positive;
      request =
          (request_id now, ground (arith, c.interval, c.positive, c.no_request, c.no_deadline));
      deadline = ground (arith, c.interval, c.positive, c.no_request, c.no_deadline);
    },
  )

  IsAsking-tick :
      (n asked now : ℕ) (m : Monitor)
      → IsAsking n asked m
      → now < asked + allowed n
      → IsQuiet (due m now) × IsAsking n asked (tick request_id m now)
  unfolding tick
  IsAsking-tick n asked now m c h =
      let (id, e) = c.request in
      (
        ground (arith, c.interval, c.deadline, e),
        record {
          interval = ground (arith, c.interval, c.deadline, e);
          positive = c.positive;
          request = (id, ground (arith, c.interval, c.deadline, e));
          deadline = ground (arith, c.interval, c.deadline, e);
        },
      )

  asking_due :
      (n asked now : ℕ) (m : Monitor)
      → IsAsking n asked m
      → asked + allowed n ≤ now
      → due m now ≡ disconnect
  unfolding due
  asking_due n asked now m c h = ground (arith, c.interval, c.deadline)

  IsCalm-ticks :
      (n : ℕ) (times : List ℕ) (m : Monitor)
      → IsCalm n m
      → All (λ now. now < m.last_received + allowed n) times
      → All IsQuiet (actions times m)
        × IsCalm n (ticks times m)
        × ((ticks times m).last_received ≡ m.last_received)
  IsCalm-ticks n [] m c h = (tt, c, refl)
  IsCalm-ticks n (now ∷ times) m c (h, hs) =
      let (quiet, c', same) = IsCalm-tick n now m c h in
      let (rest, c'', same') =
        IsCalm-ticks n times (tick request_id m now) c'
          (subst (λ r. All (λ t. t < r + allowed n) times) (sym same) hs) in
      ((quiet, rest), c'', same' ∙ same)

  IsAsking-ticks :
      (n asked : ℕ) (times : List ℕ) (m : Monitor)
      → IsAsking n asked m
      → All (λ now. now < asked + allowed n) times
      → All IsQuiet (actions times m) × IsAsking n asked (ticks times m)
  IsAsking-ticks n asked [] m c h = (tt, c)
  IsAsking-ticks n asked (now ∷ times) m c (h, hs) =
      let (quiet, c') = IsAsking-tick n asked now m c h in
      let (rest, c'') = IsAsking-ticks n asked times (tick request_id m now) c' hs in
      ((quiet, rest), c'')

  -- A peer that goes silent is challenged once and then dropped, neither earlier nor later. Looks
  -- before the allowed silence has passed find nothing worse than a heartbeat due; the first look
  -- after it sends a TestRequest; looks before as long again has passed find nothing worse than a
  -- heartbeat due, and so no second request; and the first look after that disconnects.
  pub silent_peer_dropped :
      (n : ℕ) (before between : List ℕ) (asked last : ℕ) (m : Monitor)
      → IsCalm n m
      → All (λ now. now < m.last_received + allowed n) before
      → m.last_received + allowed n ≤ asked
      → All (λ now. now < asked + allowed n) between
      → asked + allowed n ≤ last
      → let waiting = ticks before m in
        let challenged = tick request_id waiting asked in
        All IsQuiet (actions before m)
        × (due waiting asked ≡ send_test_request)
        × All IsQuiet (actions between challenged)
        × (due (ticks between challenged) last ≡ disconnect)
  silent_peer_dropped n before between asked last m c hb ha hm hl =
      let (quiet, calm, same) = IsCalm-ticks n before m c hb in
      let (sends, asking) =
        ask n asked (ticks before m) calm (subst (λ r. r + allowed n ≤ asked) (sym same) ha) in
      let (quiet', asking') =
        IsAsking-ticks n asked between (tick request_id (ticks before m) asked) asking hm in
      (quiet, sends, quiet', asking_due n asked last _ asking' hl)

  -- Any message from the peer, whatever it is, ends the challenge.
  pub received-IsCalm :
      (n now : ℕ) (m : Monitor)
      → m.interval ≡ pos n
      → 0 < n
      → IsCalm n (received m now) × ((received m now).last_received ≡ now)
  unfolding received
  received-IsCalm n now m e h =
      (record { interval = e; positive = h; no_request = refl; no_deadline = refl }, refl)

  disabled_tick :
      (m : Monitor) (now : ℕ)
      → m.interval ≤ℤ pos 0
      → (due m now ≡ idle) × (tick request_id m now ≡ m)
  unfolding tick
  disabled_tick m now h = ground arith

  -- With an interval of zero, or a negative one, nothing is ever due and nothing is recorded.
  pub disabled_is_idle :
      (times : List ℕ) (m : Monitor)
      → m.interval ≤ℤ pos 0
      → All (λ a. a ≡ idle) (actions times m) × (ticks times m ≡ m)
  disabled_is_idle [] m h = (tt, refl)
  disabled_is_idle (now ∷ times) m h =
      let (none_due, same) = disabled_tick m now h in
      rw same ((none_due, (disabled_is_idle times m h).0), (disabled_is_idle times m h).1)
