-- ===== src/Ems/Heartbeat/Examples.antt =====
-- The clock at concrete times.
use treble_tracker.Prelude.{ℕ, ◌≡◌, ◌≢◌, refl, [], ◌∷◌, none, arith, All}
use treble_tracker.Prelude.Int.{pos}
use treble_tracker.Prelude.Bytes.{Bytes}
use treble_tracker.Ems.Heartbeat.{Monitor, idle, disconnect, send_test_request, due, tick}
use treble_tracker.Ems.Heartbeat.Silence.{
  ticks, actions, IsQuiet, silent_peer_dropped, due-tick, disabled_is_idle,
}

abbrev started : Monitor
started = record {
  interval = pos 10;
  last_sent = 0;
  last_received = 0;
  outstanding = none;
  outstanding_at = none;
}

abbrev name : ℕ → Bytes
name now = now ∷ []

silent_peer_dropped_example :
    let challenged = tick name (ticks name (10_000_000 ∷ []) started) 12_000_000 in
    All (IsQuiet name) (actions name (10_000_000 ∷ []) started)
    × (due (ticks name (10_000_000 ∷ []) started) 12_000_000 ≡ send_test_request)
    × All (IsQuiet name) (actions name (22_000_000 ∷ []) challenged)
    × (due (ticks name (22_000_000 ∷ []) challenged) 24_000_000 ≡ disconnect)
silent_peer_dropped_example =
    silent_peer_dropped name 10 (10_000_000 ∷ []) (22_000_000 ∷ []) 12_000_000 24_000_000 started
      (record { interval = refl; positive = omega arith; no_request = refl; no_deadline = refl })
      (omega arith, tt) (omega arith) (omega arith, tt) (omega arith)

not_dropped : due started 300_000_000 ≢ disconnect
unfolding due
not_dropped e = cc

due-tick_case : due (tick name started 300_000_000) 300_000_000 ≡ idle
due-tick_case = due-tick name started 300_000_000 not_dropped

disabled_is_idle_case :
    All (λ a. a ≡ idle) (actions name (5 ∷ 300_000_000 ∷ []) (record started { interval = pos 0 }))
    × (ticks name (5 ∷ 300_000_000 ∷ []) (record started { interval = pos 0 })
        ≡ record started { interval = pos 0 })
disabled_is_idle_case =
    disabled_is_idle name (5 ∷ 300_000_000 ∷ []) (record started { interval = pos 0 }) (omega arith)
