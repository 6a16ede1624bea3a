-- ===== src/Store/Payloads/Laws.antt =====
-- What is put under a content address comes back, and nothing else ever does.
use treble_tracker.Prelude.{
  ◌≡◌, some, true, false, arith, Result, ok, err, bytes_eq, bytes_eqb_iff, inl, inr, Bool-cases,
  eqb_refl,
}
use treble_tracker.Prelude.Dict.{get, put, get-put, get-put_self}
use treble_tracker.Prelude.Bytes.{Bytes}
use treble_tracker.Store.Payloads.{
  Archiver, PayloadError, PayloadStore, payload_hash, exists_key, fetch, deposit, confirm,
}

-- `gzip` gives back what it was given, as it documents.
pub record IsRoundTrip (lib : Archiver) : Type 0 where
  pub unzips : (bytes : Bytes) → lib.decompress (lib.compress bytes) ≡ some bytes

module _ (lib : Archiver) where
  -- What a read returns has the address that was asked for, whatever lies on the disk.
  pub fetch_sound :
      (key bytes : Bytes) (s : PayloadStore)
      → fetch lib key s ≡ ok bytes
      → payload_hash lib bytes ≡ key
  unfolding fetch
  fetch_sound key bytes s h = ground (arith, bytes_eqb_iff (lib.sha256 bytes) key)

  confirm_ok :
      (key bytes k : Bytes) (r : Result PayloadError Bytes)
      → confirm lib key bytes r ≡ ok k
      → (r ≡ ok bytes) × (k ≡ key)
  unfolding confirm
  confirm_ok key bytes k (ok held) h = ground (arith, bytes_eqb_iff held bytes)
  confirm_ok key bytes k (err e) h = cc

  pub fetch_zipped :
      IsRoundTrip lib
      → (bytes : Bytes) (s : PayloadStore)
      → get (payload_hash lib bytes) s.zipped ≡ some (lib.compress bytes)
      → fetch lib (payload_hash lib bytes) s ≡ ok bytes
  unfolding fetch
  fetch_zipped trip bytes s held =
      rw held
        (ground (arith, trip.unzips bytes, bytes_eqb_iff (lib.sha256 bytes) (lib.sha256 bytes)))

  deposit_held :
      (bytes : Bytes) (s : PayloadStore)
      → exists_key lib (payload_hash lib bytes) s ≡ true
      → deposit lib bytes s
        ≡ (confirm lib (payload_hash lib bytes) bytes (fetch lib (payload_hash lib bytes) s), s)
  unfolding deposit
  deposit_held bytes s held = rw held

  abbrev pub written : Bytes → PayloadStore → PayloadStore
  written bytes s = record s { zipped = put (payload_hash lib bytes) (lib.compress bytes) s.zipped }

  pub fetch-written :
      IsRoundTrip lib
      → (bytes : Bytes) (s : PayloadStore)
      → fetch lib (payload_hash lib bytes) (written bytes s) ≡ ok bytes
  fetch-written trip bytes s = fetch_zipped trip bytes (written bytes s) (get-put_self _ _ s.zipped)

  deposit_new :
      (bytes : Bytes) (s : PayloadStore)
      → exists_key lib (payload_hash lib bytes) s ≡ false
      → deposit lib bytes s ≡ (ok (payload_hash lib bytes), written bytes s)
  unfolding deposit
  deposit_new bytes s missing = rw missing

  -- Bytes that were accepted are read back as they were, under the address that was returned.
  pub fetch-deposit :
      IsRoundTrip lib
      → (bytes key : Bytes) (s : PayloadStore) → (deposit lib bytes s).0 ≡ ok key
      → fetch lib key (deposit lib bytes s).1 ≡ ok bytes
  fetch-deposit trip bytes key s h = elim (Bool-cases (exists_key lib (payload_hash lib bytes) s)) [
    | inl held ↦
        let (r, k) =
          confirm_ok (payload_hash lib bytes) bytes key (fetch lib (payload_hash lib bytes) s)
            (rw (deposit_held bytes s held) at h) in
        rw (deposit_held bytes s held, k) r
    | inr missing ↦
        let k : key ≡ payload_hash lib bytes = cc (deposit_new bytes s missing) in
        rw (deposit_new bytes s missing, k) (fetch-written trip bytes s)
  ]

  -- What could be read before a write can be read after it, unchanged.
  pub deposit_keeps :
      (bytes key held : Bytes) (s : PayloadStore)
      → fetch lib key s ≡ ok held
      → fetch lib key (deposit lib bytes s).1 ≡ ok held
  unfolding deposit fetch
  deposit_keeps bytes key held s h = ground (
    arith,
    get-put (lib.sha256 bytes) key (lib.compress bytes) s.zipped,
    bytes_eqb_iff (lib.sha256 bytes) key,
  )

  deposit-written :
      IsRoundTrip lib
      → (bytes : Bytes) (s : PayloadStore)
      → deposit lib bytes (written bytes s) ≡ (ok (payload_hash lib bytes), written bytes s)
  unfolding confirm
  deposit-written trip bytes s = rw (
    deposit_held bytes (written bytes s) (rw get-put_self),
    fetch-written trip bytes s,
    confirm,
    eqb_refl bytes,
  )

  -- A second write of the same bytes returns the same address and changes nothing.
  pub deposit_twice :
      IsRoundTrip lib
      → (bytes key : Bytes) (s : PayloadStore) → (deposit lib bytes s).0 ≡ ok key
      → deposit lib bytes (deposit lib bytes s).1 ≡ (ok key, (deposit lib bytes s).1)
  deposit_twice trip bytes key s h = elim (Bool-cases (exists_key lib (payload_hash lib bytes) s)) [
    | inl held ↦ cc (deposit_held bytes s held)
    | inr missing ↦ cc (deposit_new bytes s missing, deposit-written trip bytes s)
  ]
