-- ===== src/Vault/Examples.antt =====
-- The vault with concrete records, over a stand-in for the standard library.
use treble_tracker.Prelude.{
  ◌≡◌, ◌≢◌, refl, ◌⊎◌, List, [], ◌∷◌, none, some, true, false, ok, bytes_ne, bytes_eq,
}
use treble_tracker.Prelude.Dict.{get}
use treble_tracker.Prelude.Int.{pos, ◌+ℤ◌}
use treble_tracker.Prelude.Bytes.{Bytes}
use treble_tracker.Ems.Moment.{Moment}
use treble_tracker.Store.Payloads.{Archiver, payload_hash, fetch}
use treble_tracker.Vault.Dates.{Date, date_le}
use treble_tracker.Vault.{
  ArchivedRecord, Vault, retained_until, expired, destroy, read_record, open_vault,
}
use treble_tracker.Vault.Retention.{
  retained_until_late, Destroys, destroy-Destroys, Call, archives, places_hold, lifts_hold,
  destroys, history, retention_outlasts, Keeps,
}
use treble_tracker.Vault.Holds.{hold_outranks}
use treble_tracker.Vault.Persistence.{new_vault, history_reopens}

abbrev tail : Bytes → Bytes
tail [] = []
tail (b ∷ bs) = bs

abbrev library : Archiver
library = record {
  sha256 = λ bytes. 35 ∷ bytes;
  compress = λ bytes. 31 ∷ bytes;
  decompress = λ bytes. some (tail bytes);
}

abbrev leap_day : Date
leap_day = record { year = 2024; month = 2; day = 29 }

abbrev now : Moment
now = record { year = 2026; month = 1; day = 2; hour = 3; minute = 4; second = 5; microsecond = 6 }

abbrev trade : ArchivedRecord
trade = record {
  key = 35 ∷ 1 ∷ [];
  kind = b'f' ∷ [];
  event_date = leap_day;
  archived_at = now;
  retention_years = pos 7;
  legal_hold = false;
}

abbrev held_trade : ArchivedRecord
held_trade = record trade { legal_hold = true }

abbrev holding : ArchivedRecord → Vault
holding r = record {
  payloads = record { zipped = (35 ∷ 1 ∷ [], 31 ∷ 1 ∷ []) ∷ []; plain = [] };
  index = (35 ∷ 1 ∷ [], r) ∷ [];
  disk = none;
}

retained_until_late_case :
    (date_le
        (record { year = 2031; month = 2; day = 29 })
        (record { year = 2031; month = 3; day = 1 })
      ≡ true)
    × ((◌≡◌ {A = Date}
          (record { year = 2031; month = 3; day = 1 })
          (record { year = 2031; month = 2; day = 29 }))
        ⊎ ((leap_day.month ≡ 2)
            × (leap_day.day ≡ 29)
            × (◌≡◌ {A = Date}
                (record { year = 2031; month = 3; day = 1 })
                (record { year = 2031; month = 3; day = 1 }))))
unfolding retained_until ◌+ℤ◌
retained_until_late_case =
    retained_until_late trade 7 (record { year = 2031; month = 3; day = 1 }) refl refl

destroy-Destroys_example :
    Destroys (35 ∷ 1 ∷ []) leap_day (holding trade) (destroy (35 ∷ 1 ∷ []) leap_day (holding trade))
destroy-Destroys_example = destroy-Destroys (35 ∷ 1 ∷ []) leap_day (holding trade)

-- The same bytes again with no term at all, an early call to destroy, a hold and its release.
abbrev calls : List Call
calls =
    archives (1 ∷ []) (b'x' ∷ []) leap_day (pos 0) now
    ∷ destroys (35 ∷ 1 ∷ []) (record { year = 2031; month = 2; day = 28 })
    ∷ places_hold (35 ∷ 1 ∷ [])
    ∷ lifts_hold (35 ∷ 1 ∷ [])
    ∷ []

not_yet : expired trade (record { year = 2031; month = 2; day = 28 }) ≢ some true
unfolding expired retained_until date_le ◌+ℤ◌
not_yet e = cc

retention_outlasts_example :
    Keeps library (35 ∷ 1 ∷ []) trade (history library calls (holding trade))
unfolding get
retention_outlasts_example =
    retention_outlasts library (35 ∷ 1 ∷ []) trade calls (holding trade) refl
      (tt, ((λ _. not_yet), (tt, (tt, tt))))

-- Calls to destroy a held record, long after its term.
abbrev attempts : List Call
attempts =
    destroys (35 ∷ 1 ∷ []) (record { year = 2099; month = 1; day = 1 })
    ∷ archives (2 ∷ []) [] leap_day (pos 1) now
    ∷ lifts_hold (35 ∷ 2 ∷ [])
    ∷ destroys (35 ∷ 1 ∷ []) (record { year = 2100; month = 1; day = 1 })
    ∷ []

hold_outranks_example :
    (get (35 ∷ 1 ∷ []) (history library attempts (holding held_trade)).index ≡ some held_trade)
    × (read_record library (35 ∷ 1 ∷ []) (history library attempts (holding held_trade))
        ≡ ok (1 ∷ []))
unfolding get fetch payload_hash
hold_outranks_example =
    hold_outranks library (35 ∷ 1 ∷ []) (1 ∷ []) held_trade attempts (holding held_trade) refl refl
      refl (tt, (tt, (bytes_ne _ _ refl, (tt, tt))))

history_reopens_example :
    let v = history library (archives (1 ∷ []) [] leap_day (pos 7) now ∷ calls) new_vault in
    open_vault v.payloads v.disk ≡ ok v
history_reopens_example =
    history_reopens library (archives (1 ∷ []) [] leap_day (pos 7) now ∷ calls)
