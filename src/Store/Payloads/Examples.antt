-- ===== src/Store/Payloads/Examples.antt =====
-- The archive with a stand-in for the standard library.
use treble_tracker.Prelude.{◌≡◌, refl, [], ◌∷◌, some, ok, err, ◌==◌, bytes_eq, if◌then◌else◌}
use treble_tracker.Prelude.Dict.{get}
use treble_tracker.Prelude.Bytes.{Bytes}
use treble_tracker.Store.Payloads.{
  Archiver, PayloadStore, empty_store, integrity_error, payload_hash, fetch, deposit, compress_file,
}
use treble_tracker.Store.Payloads.Laws.{
  IsRoundTrip, fetch_sound, fetch-deposit, deposit_keeps, deposit_twice,
}
use treble_tracker.Store.Payloads.Migration.{compress_file_keeps}

abbrev tail : Bytes → Bytes
tail [] = []
tail (b ∷ bs) = bs

abbrev standard : Archiver
standard = record {
  sha256 = λ bytes. 35 ∷ bytes;
  compress = λ bytes. 31 ∷ bytes;
  decompress = λ bytes. some (tail bytes);
}

trip : IsRoundTrip standard
trip = record { unzips = λ bytes. refl }

abbrev filing : Bytes
filing = 1 ∷ 2 ∷ 3 ∷ []

abbrev stocked : PayloadStore
stocked = record { zipped = (35 ∷ 9 ∷ [], 31 ∷ 9 ∷ []) ∷ []; plain = (35 ∷ filing, filing) ∷ [] }

fetch_sound_case : payload_hash standard (9 ∷ []) ≡ 35 ∷ 9 ∷ []
unfolding fetch get payload_hash
fetch_sound_case = fetch_sound standard (35 ∷ 9 ∷ []) (9 ∷ []) stocked refl

fetch-deposit_example :
    fetch standard (35 ∷ filing) (deposit standard filing empty_store).1 ≡ ok filing
unfolding deposit get payload_hash
fetch-deposit_example = fetch-deposit standard trip filing (35 ∷ filing) empty_store refl

deposit_keeps_example :
    fetch standard (35 ∷ 9 ∷ []) (deposit standard (4 ∷ []) stocked).1 ≡ ok (9 ∷ [])
unfolding fetch get payload_hash
deposit_keeps_example = deposit_keeps standard (4 ∷ []) (35 ∷ 9 ∷ []) (9 ∷ []) stocked refl

deposit_twice_case :
    deposit standard filing (deposit standard filing stocked).1
    ≡ (ok (35 ∷ filing), (deposit standard filing stocked).1)
unfolding deposit fetch get payload_hash
deposit_twice_case = deposit_twice standard trip filing (35 ∷ filing) stocked refl

compress_file_keeps_example :
    let (outcome, t) = compress_file standard (35 ∷ filing) filing stocked in
    (outcome
      ≡ (if payload_hash standard filing == (35 ∷ filing) then ok tt else err integrity_error))
    × ((key held : Bytes) → fetch standard key stocked ≡ ok held → fetch standard key t ≡ ok held)
unfolding get
compress_file_keeps_example =
    compress_file_keeps standard trip (35 ∷ filing) filing stocked refl refl
