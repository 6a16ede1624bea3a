-- ===== src/Store/Payloads/Migration.antt =====
-- `PayloadStore.compress_existing`: what the migration keeps, and where it fails.
use treble_tracker.Prelude.{
  ◌≡◌, refl, ◌∙◌, subst, if◌then◌else◌, none, some, false, ok, err, bytes_eq, bytes_eqb_iff, inl,
  inr, Bool-cases, eqb_refl, ◌==◌, bytes_ne, sym,
}
use treble_tracker.Prelude.Dict.{get, erase, get-put, get-put_self, get-erase_ne}
use treble_tracker.Prelude.Bytes.{Bytes}
use treble_tracker.Store.Payloads.{
  Archiver, PayloadStore, integrity_error, payload_hash, fetch, compress_file, verify_zipped,
}
use treble_tracker.Store.Payloads.Laws.{IsRoundTrip, written, fetch-written, fetch_zipped}

module _ (lib : Archiver) where
  -- A plain file with its own address is replaced by a zipped one.
  compress_file_lem :
      IsRoundTrip lib
      → (original : Bytes) (s : PayloadStore)
      → compress_file lib (payload_hash lib original) original s ≡ (
        ok tt,
        record (written lib original s) { plain = erase (payload_hash lib original) s.plain },
      )
  unfolding compress_file
  compress_file_lem trip original s = rw (
    eqb_refl (payload_hash lib original),
    fetch-written lib trip original s,
    verify_zipped,
    eqb_refl original,
  )

  fetch_plain :
      (original : Bytes) (s : PayloadStore)
      → get (payload_hash lib original) s.plain ≡ some original
      → get (payload_hash lib original) s.zipped ≡ none
      → fetch lib (payload_hash lib original) s ≡ ok original
  unfolding fetch
  fetch_plain original s plain unzipped = rw (unzipped, plain) (rw (eqb_refl (lib.sha256 original)))

  fetch_other :
      (original key held : Bytes) (s : PayloadStore)
      → (payload_hash lib original == key) ≡ false
      → fetch lib key s ≡ ok held
      → fetch lib key
          (record (written lib original s) { plain = erase (payload_hash lib original) s.plain })
        ≡ ok held
  unfolding fetch
  fetch_other original key held s other h =
      rw (get-put, other, get-erase_ne _ key s.plain (bytes_ne _ key other)) h

  fetch_migrated :
      IsRoundTrip lib
      → (original key held : Bytes) (s : PayloadStore)
      → get (payload_hash lib original) s.plain ≡ some original
      → get (payload_hash lib original) s.zipped ≡ none
      → fetch lib key s ≡ ok held
      → fetch lib key
          (record (written lib original s) { plain = erase (payload_hash lib original) s.plain })
        ≡ ok held
  fetch_migrated trip original key held s plain unzipped h =
      elim (Bool-cases (payload_hash lib original == key)) [
        | inl same ↦
            let e = (bytes_eqb_iff (payload_hash lib original) key).0 same in
            rw (← e) (
              fetch_zipped lib trip original _ (get-put_self _ _ s.zipped)
              ∙ sym (fetch_plain original s plain unzipped)
              ∙ rw (← e) at h)
        | inr other ↦ fetch_other original key held s other h
      ]

  -- A file that lies under another name than its hash is refused, and nothing changes.
  compress_file-damaged :
      (key original : Bytes) (s : PayloadStore)
      → (payload_hash lib original == key) ≡ false
      → compress_file lib key original s ≡ (err integrity_error, s)
  unfolding compress_file
  compress_file-damaged key original s differs = rw differs refl

  -- Where decompression undoes compression: compressing a plain file in place, of which there is no
  -- zipped file yet, succeeds if the file lies under its own hash and is refused if it does not; and
  -- either way what could be read before under any address can be read after it, unchanged.
  pub compress_file_keeps :
      IsRoundTrip lib
      → (key original : Bytes) (s : PayloadStore) → get key s.plain ≡ some original
      → get key s.zipped ≡ none
      → let (outcome, t) = compress_file lib key original s in
        (outcome ≡ (if payload_hash lib original == key then ok tt else err integrity_error))
        × ((other held : Bytes) → fetch lib other s ≡ ok held → fetch lib other t ≡ ok held)
  compress_file_keeps trip key original s plain unzipped =
      elim (Bool-cases (payload_hash lib original == key)) [
        | inl own ↦
            let e = (bytes_eqb_iff (payload_hash lib original) key).0 own in
            subst
              (λ k.
                let (outcome, t) = compress_file lib k original s in
                (outcome ≡ (if payload_hash lib original == k then ok tt else err integrity_error))
                × ((other held : Bytes)
                    → fetch lib other s ≡ ok held
                    → fetch lib other t ≡ ok held))
              e
              (rw (compress_file_lem trip original s, eqb_refl (payload_hash lib original))
                (
                  refl,
                  λ other held h.
                      fetch_migrated trip original other held s (rw e plain) (rw e unzipped) h,
                ))
        | inr differs ↦
            rw (compress_file-damaged key original s differs, differs) (refl, λ other held h. h)
      ]
