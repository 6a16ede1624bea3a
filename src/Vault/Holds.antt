-- ===== src/Vault/Holds.antt =====
-- What a legal hold protects, over any history of calls.
use treble_tracker.Prelude.{
  ◌≡◌, ◌≢◌, refl, sym, ap, ◌∙◌, List, [], ◌∷◌, some, Bool, true, false, arith, Result, ok, err,
  bytes_eq, bytes_ne, bytes_eqb_iff, inl, inr, Option-cases, Result-cases, Bool-cases, All, ◌==◌,
}
use mathlib.Core.Bool.{false≢true}
use treble_tracker.Store.Payloads.Laws.{deposit_keeps}
use treble_tracker.Prelude.Dict.{get, get-put, get-erase_ne}
use treble_tracker.Prelude.Int.{ℤ}
use treble_tracker.Prelude.Bytes.{Bytes}
use treble_tracker.Ems.Moment.{Moment}
use treble_tracker.Store.Payloads.{Archiver, deposit, fetch}
use treble_tracker.Vault.Dates.{Date}
use treble_tracker.Vault.{
  ArchivedRecord, Vault, VaultError, set_hold, place_hold, lift_hold, destroy, archive, read_record,
}
use treble_tracker.Vault.Retention.{
  Destroys, destroy-Destroys, Call, archives, places_hold, lifts_hold, destroys, step, history,
  archive_held,
}

module _ (lib : Archiver) where
  -- The hold on the record is not lifted.
  abbrev pub IsHeldBy : Bytes → Call → Type 0
  IsHeldBy key (lifts_hold other) = other ≢ key
  IsHeldBy key _ = Unit

  held_set :
      (hold : Bool) (key other : Bytes) (r : ArchivedRecord) (v : Vault)
      → get key v.index ≡ some r
      → (other ≡ key → hold ≡ r.legal_hold)
      → get key (set_hold hold other v).1.index ≡ some r
  unfolding set_hold
  held_set hold key other r v e fits = elim (Option-cases (get other v.index)) [
    | inl missing ↦ rw (missing, set_hold) e
    | inr (h, found) ↦
        rw (found, set_hold)
          (elim (Bool-cases (other == key)) [
            | inl here ↦
                let k = (bytes_eqb_iff other key).0 here in
                let hr : h ≡ r = cc (sym found ∙ ap (λ j. get j v.index) k ∙ e) in
                rw (get-put, here)
                  (ap (λ (x : ArchivedRecord). some (record x { legal_hold = hold })) hr
                    ∙ ap (λ b. some (record r { legal_hold = b })) (fits k))
            | inr elsewhere ↦ rw (get-put, elsewhere) e
          ])
  ]

  held_destroyed :
      (key other : Bytes) (today : Date) (r : ArchivedRecord) (v : Vault)
      (result : Result VaultError (Unit {0}) × Vault)
      → get key v.index ≡ some r
      → r.legal_hold ≡ true
      → Destroys other today v result
      → get key result.1.index ≡ some r
  held_destroyed key other today r v (err e, w) held on d = rw d held
  held_destroyed key other today r v (ok done, w) held on (h, found, free, gone, index, _) =
      elim (Bool-cases (other == key)) [
        | inl here ↦
            let k = (bytes_eqb_iff other key).0 here in
            let hr : h ≡ r = cc (sym found ∙ ap (λ j. get j v.index) k ∙ held) in
            absurd (false≢true (sym free ∙ ap (λ (x : ArchivedRecord). x.legal_hold) hr ∙ on))
        | inr elsewhere ↦
            rw index (get-erase_ne other key v.index (bytes_ne other key elsewhere) ∙ held)
      ]

  held_step :
      (key : Bytes) (r : ArchivedRecord) (c : Call) (v : Vault)
      → get key v.index ≡ some r
      → r.legal_hold ≡ true
      → IsHeldBy key c
      → get key (step lib c v).index ≡ some r
  unfolding place_hold lift_hold
  held_step key r (archives bytes kind event_date years now) v e on h =
      archive_held lib key bytes kind r event_date years now v e
  held_step key r (places_hold other) v e on h = held_set true key other r v e (λ _. sym on)
  held_step key r (lifts_hold other) v e on h = held_set false key other r v e (λ k. absurd (h k))
  held_step key r (destroys other today) v e on h =
      held_destroyed key other today r v (destroy other today v) e on
        (destroy-Destroys other today v)

  payloads-archive :
      (bytes kind : Bytes) (event_date : Date) (years : ℤ) (now : Moment) (v : Vault)
      → (archive lib bytes kind event_date years now v).1.payloads
        ≡ (deposit lib bytes v.payloads).1
  unfolding archive
  payloads-archive bytes kind event_date years now v =
      elim (Result-cases (deposit lib bytes v.payloads).0) [
        | inl (k, done) ↦ rw (done, archive) (ground arith)
        | inr (_, failed) ↦ rw (failed, archive) refl
      ]

  payloads-set_hold :
      (hold : Bool) (other : Bytes) (v : Vault) → (set_hold hold other v).1.payloads ≡ v.payloads
  unfolding set_hold
  payloads-set_hold hold other v = ground arith

  payloads-destroy :
      (other : Bytes) (today : Date) (v : Vault) (result : Result VaultError (Unit {0}) × Vault)
      → Destroys other today v result
      → result.1.payloads ≡ v.payloads
  payloads-destroy other today v (err e, w) d = ap (λ (x : Vault). x.payloads) d
  payloads-destroy other today v (ok done, w) (_, _, _, _, _, same) = same

  readable_step :
      (c : Call) (key bytes : Bytes) (v : Vault)
      → fetch lib key v.payloads ≡ ok bytes
      → fetch lib key (step lib c v).payloads ≡ ok bytes
  unfolding place_hold lift_hold
  readable_step (archives stored kind event_date years now) key bytes v h =
      rw (payloads-archive stored kind event_date years now v)
        (deposit_keeps lib stored key bytes v.payloads h)
  readable_step (places_hold other) key bytes v h = rw (payloads-set_hold true other v) h
  readable_step (lifts_hold other) key bytes v h = rw (payloads-set_hold false other v) h
  readable_step (destroys other today) key bytes v h =
      rw (payloads-destroy other today v (destroy other today v) (destroy-Destroys other today v)) h

  -- A record under a hold is beyond destruction until somebody lifts that hold: after any calls that
  -- do not, on any dates, it is there unchanged, and its bytes are read as before.
  pub hold_outranks :
      (key bytes : Bytes) (r : ArchivedRecord) (cs : List Call) (v : Vault)
      → get key v.index ≡ some r
      → r.legal_hold ≡ true
      → fetch lib key v.payloads ≡ ok bytes
      → All (IsHeldBy key) cs
      → (get key (history lib cs v).index ≡ some r)
        × (read_record lib key (history lib cs v) ≡ ok bytes)
  unfolding read_record
  hold_outranks key bytes r [] v e on readable h = (e, rw (e, read_record) (rw readable))
  hold_outranks key bytes r (c ∷ cs) v e on readable (h, hs) =
      hold_outranks key bytes r cs (step lib c v) (held_step key r c v e on h) on
        (readable_step c key bytes v readable) hs
