-- ===== src/Vault/Retention.antt =====
-- What the vault refuses to destroy, over any history of calls.
use treble_tracker.Prelude.{
  ℕ, ◌+◌, ◌≡◌, ◌≢◌, refl, sym, ap, ◌∙◌, List, [], ◌∷◌, some, Bool, true, false, arith, Result, ok,
  err, bytes_eq, bytes_ne, bytes_eqb_iff, inl, inr, ◌⊎◌, Option-cases, Result-cases, Bool-cases,
  All, ◌==◌,
}
use treble_tracker.Prelude.Dict.{get, erase, get-put, get-put_ne, get-erase_ne}
use treble_tracker.Prelude.Int.{ℤ, pos, ◌+ℤ◌}
use treble_tracker.Prelude.Bytes.{Bytes}
use treble_tracker.Ems.Moment.{Moment}
use treble_tracker.Store.Payloads.{Archiver, deposit}
use treble_tracker.Vault.Dates.{Date, date_le}
use treble_tracker.Vault.{
  ArchivedRecord, Vault, VaultError, retained_until, expired, set_hold, place_hold, lift_hold,
  destroy, admit, archive,
}

-- A record archived with a term of `n` years is never released before the same day of the year `n`
-- years after the date that it concerns, and on that very day unless it is a 29 February that the
-- later year lacks.
pub retained_until_late :
    (r : ArchivedRecord) (n : ℕ) (until : Date)
    → r.retention_years ≡ pos n
    → retained_until r ≡ some until
    → let anniversary = record r.event_date { year = r.event_date.year + n } in
      (date_le anniversary until ≡ true)
      × ((until ≡ anniversary)
          ⊎ ((r.event_date.month ≡ 2)
              × (r.event_date.day ≡ 29)
              × (until ≡ record { year = r.event_date.year + n; month = 3; day = 1 })))
unfolding retained_until date_le ◌+ℤ◌
retained_until_late r n until years h = ground arith

-- Why `destroy` did what it did.
abbrev pub Destroys : Bytes → Date → Vault → Result VaultError (Unit {0}) × Vault → Type 0
Destroys key today v (err e, w) = w ≡ v
Destroys key today v (ok _, w) =
    (r : ArchivedRecord) × (get key v.index ≡ some r)
    × (r.legal_hold ≡ false)
    × (expired r today ≡ some true)
    × (w.index ≡ erase key v.index)
    × (w.payloads ≡ v.payloads)

-- `destroy` removes a record only if it is there, is under no hold, and has run out its term by
-- today; it removes no other, and leaves every payload. When it refuses, nothing changes.
pub destroy-Destroys :
    (key : Bytes) (today : Date) (v : Vault) → Destroys key today v (destroy key today v)
unfolding destroy
destroy-Destroys key today v = elim (Option-cases (get key v.index)) [
  | inl e ↦ rw (e, destroy) refl
  | inr (r, e) ↦ elim (Bool-cases r.legal_hold) [
    | inl held ↦ rw (e, destroy) (simp held)
    | inr free ↦ elim (Option-cases (expired r today)) [
      | inl f ↦ rw (e, destroy) (simp (free, f))
      | inr (true, f) ↦ rw (e, destroy) (simp (free, f) (r, e, free, f, refl, refl))
      | inr (false, f) ↦ rw (e, destroy) (simp (free, f))
    ]
  ]
]

pub data Call : Type 0 where
  archives : Bytes → Bytes → Date → ℤ → Moment → Call
  places_hold : Bytes → Call
  lifts_hold : Bytes → Call
  destroys : Bytes → Date → Call

module _ (lib : Archiver) where
  abbrev pub step : Call → Vault → Vault
  step (archives bytes kind event_date years now) v =
      (archive lib bytes kind event_date years now v).1
  step (places_hold key) v = (place_hold key v).1
  step (lifts_hold key) v = (lift_hold key v).1
  step (destroys key today) v = (destroy key today v).1

  abbrev pub history : List Call → Vault → Vault
  history [] v = v
  history (c ∷ cs) v = history cs (step c v)

  -- Both records are the same but for a hold.
  abbrev pub SameTerms : ArchivedRecord → ArchivedRecord → Type 0
  SameTerms r q = q ≡ record r { legal_hold = q.legal_hold }

  -- The record lies in the index under `key`, perhaps with another hold.
  abbrev pub Keeps : Bytes → ArchivedRecord → Vault → Type 0
  Keeps key r v = (q : ArchivedRecord) × (get key v.index ≡ some q) × SameTerms r q

  admit_held :
      (key k kind : Bytes) (q : ArchivedRecord) (event_date : Date) (years : ℤ) (now : Moment)
      (v : Vault)
      → get key v.index ≡ some q
      → get key (admit lib k kind event_date years now v).1.index ≡ some q
  unfolding admit
  admit_held key k kind q event_date years now v e = elim (Option-cases (get k v.index)) [
    | inl missing ↦
        rw (missing, admit)
          (get-put_ne k key _ v.index (λ same. cc (sym missing ∙ ap (λ j. get j v.index) same ∙ e))
            ∙ e)
    | inr (existing, held) ↦ rw (held, admit) e
  ]

  pub archive_held :
      (key bytes kind : Bytes) (q : ArchivedRecord) (event_date : Date) (years : ℤ) (now : Moment)
      (v : Vault)
      → get key v.index ≡ some q
      → get key (archive lib bytes kind event_date years now v).1.index ≡ some q
  unfolding archive
  archive_held key bytes kind q event_date years now v e =
      elim (Result-cases (deposit lib bytes v.payloads).0) [
        | inl (k, done) ↦
            rw (done, archive)
              (admit_held key k kind q event_date years now
                (record v { payloads = (deposit lib bytes v.payloads).1 }) e)
        | inr (_, failed) ↦ rw (failed, archive) e
      ]

  archive-Keeps :
      (key : Bytes) (r : ArchivedRecord) (bytes kind : Bytes) (event_date : Date) (years : ℤ)
      (now : Moment) (v : Vault)
      → Keeps key r v
      → Keeps key r (archive lib bytes kind event_date years now v).1
  archive-Keeps key r bytes kind event_date years now v (q, e, same) =
      (q, archive_held key bytes kind q event_date years now v e, same)

  set_hold-Keeps :
      (hold : Bool) (key other : Bytes) (r : ArchivedRecord) (v : Vault)
      → Keeps key r v
      → Keeps key r (set_hold hold other v).1
  unfolding set_hold
  set_hold-Keeps hold key other r v (q, e, same) = elim (Option-cases (get other v.index)) [
    | inl missing ↦ rw (missing, set_hold) (q, e, same)
    | inr (h, found) ↦
        rw (found, set_hold)
          (elim (Bool-cases (other == key)) [
            | inl here ↦
                let k = (bytes_eqb_iff other key).0 here in
                let hq : h ≡ q = cc (sym found ∙ ap (λ j. get j v.index) k ∙ e) in
                (record h { legal_hold = hold }, rw (get-put, here), rw (hq, same) refl)
            | inr elsewhere ↦ (q, rw (get-put, elsewhere) e, same)
          ])
  ]

  expired-SameTerms :
      (r q : ArchivedRecord) (today : Date) → SameTerms r q → expired q today ≡ expired r today
  unfolding expired retained_until
  expired-SameTerms r q today same = ap (λ (x : ArchivedRecord). expired x today) same

  Destroys-Keeps :
      (key other : Bytes) (today : Date) (r : ArchivedRecord) (v : Vault)
      (result : Result VaultError (Unit {0}) × Vault)
      → Keeps key r v
      → (other ≡ key → expired r today ≢ some true)
      → Destroys other today v result
      → Keeps key r result.1
  Destroys-Keeps key other today r v (err e, w) kept early d = rw d kept
  Destroys-Keeps key other today r v (ok done, w) (q, e, same) early
        (h, found, free, gone, index, _) =
      elim (Bool-cases (other == key)) [
        | inl here ↦
            let k = (bytes_eqb_iff other key).0 here in
            let hq : h ≡ q = cc (sym found ∙ ap (λ j. get j v.index) k ∙ e) in
            absurd (
              early k (
                sym (expired-SameTerms r q today same)
                ∙ ap (λ (x : ArchivedRecord). expired x today) (sym hq)
                ∙ gone))
        | inr elsewhere ↦
            (q, rw index (get-erase_ne other key v.index (bytes_ne other key elsewhere) ∙ e), same)
      ]

  destroy-Keeps :
      (key other : Bytes) (today : Date) (r : ArchivedRecord) (v : Vault)
      → Keeps key r v
      → (other ≡ key → expired r today ≢ some true)
      → Keeps key r (destroy other today v).1
  destroy-Keeps key other today r v (q, e, same) early =
      Destroys-Keeps key other today r v (destroy other today v) (q, e, same) early
        (destroy-Destroys other today v)

  -- No call to destroy the record comes after its term.
  abbrev pub IsEarly : Bytes → ArchivedRecord → Call → Type 0
  IsEarly key r (destroys other today) = other ≡ key → expired r today ≢ some true
  IsEarly key r _ = Unit

  step-Keeps :
      (key : Bytes) (r : ArchivedRecord) (c : Call) (v : Vault)
      → Keeps key r v
      → IsEarly key r c
      → Keeps key r (step c v)
  unfolding place_hold lift_hold
  step-Keeps key r (archives bytes kind event_date years now) v k h =
      archive-Keeps key r bytes kind event_date years now v k
  step-Keeps key r (places_hold other) v k h = set_hold-Keeps true key other r v k
  step-Keeps key r (lifts_hold other) v k h = set_hold-Keeps false key other r v k
  step-Keeps key r (destroys other today) v k h = destroy-Keeps key other today r v k h

  history-Keeps :
      (key : Bytes) (r : ArchivedRecord) (cs : List Call) (v : Vault)
      → Keeps key r v
      → All (IsEarly key r) cs
      → Keeps key r (history cs v)
  history-Keeps key r [] v k h = k
  history-Keeps key r (c ∷ cs) v k (h, hs) =
      history-Keeps key r cs (step c v) (step-Keeps key r c v k h) hs

  -- Until its term has run out a record cannot be lost or have its terms changed, whatever is
  -- archived, held, released or destroyed: archiving its bytes again with a shorter term included.
  pub retention_outlasts :
      (key : Bytes) (r : ArchivedRecord) (cs : List Call) (v : Vault)
      → get key v.index ≡ some r
      → All (IsEarly key r) cs
      → Keeps key r (history cs v)
  retention_outlasts key r cs v e h = history-Keeps key r cs v (r, e, refl) h
