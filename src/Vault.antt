-- ===== src/Vault.antt =====
-- treble/vault/worm.py: records archived under the hash of their bytes, with retention and holds.
-- The records and the methods of `class Vault`. The index lives in memory, and `_save` writes it to
-- one document, whose JSON text is not modelled.
pub mod Dates
pub mod Retention
pub mod Holds
pub mod Persistence
mod Examples
use treble_tracker.Prelude.{
  ℕ, List, [], ◌∷◌, Option, none, some, Bool, true, false, ◌&&◌, not, Result, ok, err, bytes_eq,
  nat_eqb, if◌then◌else◌, or_else, keep_if, length, map,
}
use treble_tracker.Prelude.Dict.{Dict, get, put, erase}
use treble_tracker.Prelude.Int.{ℤ, pos, ◌+ℤ◌}
use treble_tracker.Prelude.Bytes.{Bytes}
use treble_tracker.Ems.Moment.{Moment}
use treble_tracker.Store.Payloads.{Archiver, PayloadStore, PayloadError, deposit, fetch}
use Dates.{Date, date_le, replace_year, replace_first_of_march}

pub record ArchivedRecord : Type 0 where
  pub key : Bytes
  pub kind : Bytes
  pub event_date : Date
  pub archived_at : Moment
  pub retention_years : ℤ
  pub legal_hold : Bool

-- DEFAULT_RETENTION_YEARS
abbrev pub default_retention_years : ℤ
default_retention_years = pos 7

abbrev pub version : ℕ
version = 1

pub data VaultError : Type 0 where
  version_error retention_not_expired legal_hold_error record_not_found : VaultError
  payload_error : PayloadError → VaultError
  -- Python's `ValueError`: a date out of range
  value_error : VaultError

-- `ArchivedRecord.retained_until`: a year on, or the first of March where the day is missing.
unfoldable pub retained_until : ArchivedRecord → Option Date
unfolding replace_year replace_first_of_march
retained_until r =
    let target = pos r.event_date.year +ℤ r.retention_years in
    or_else (replace_year r.event_date target) (replace_first_of_march target)

unfoldable pub expired : ArchivedRecord → Date → Option Bool
expired r today = elim (retained_until r) [ none ↦ none | some until ↦ some (date_le until today) ]

-- `expired(...) and not legal_hold`
unfoldable pub deletable : ArchivedRecord → Date → Option Bool
unfolding expired
deletable r today = elim (expired r today) [
  | none ↦ none
  | some gone ↦ some (gone && not r.legal_hold)
]

-- vault-index.json
pub record Document : Type 0 where
  pub document_version : ℕ
  pub records : List ArchivedRecord

pub record Vault : Type 0 where
  pub payloads : PayloadStore
  pub index : Dict Bytes ArchivedRecord
  pub disk : Option Document

abbrev rows : Dict Bytes ArchivedRecord → List ArchivedRecord
rows [] = []
rows ((key, r) ∷ index) = r ∷ rows index

-- `_save`
unfoldable pub save : Vault → Vault
save v = record v { disk = some (record { document_version = version; records = rows v.index }) }

fill : List ArchivedRecord → Dict Bytes ArchivedRecord → Dict Bytes ArchivedRecord
fill [] index = index
fill (r ∷ rs) index = fill rs (put r.key r index)

-- `Vault(directory)`: `_load` reads the document, if there is one.
unfoldable pub open_vault : PayloadStore → Option Document → Result VaultError Vault
unfolding fill
open_vault payloads none = ok (record { payloads = payloads; index = []; disk = none })
open_vault payloads (some document) =
    if nat_eqb document.document_version version
    then ok (record { payloads = payloads; index = fill document.records []; disk = some document })
    else err version_error

unfoldable pub find_record : Bytes → Vault → Result VaultError ArchivedRecord
find_record key v = elim (get key v.index) [ none ↦ err record_not_found | some r ↦ ok r ]

set_hold : Bool → Bytes → Vault → Result VaultError ArchivedRecord × Vault
unfolding find_record save
set_hold hold key v = elim (find_record key v) [
  | err e ↦ (err e, v)
  | ok held ↦
      let r = record held { legal_hold = hold } in
      (ok r, save (record v { index = put key r v.index }))
]

unfoldable pub place_hold : Bytes → Vault → Result VaultError ArchivedRecord × Vault
unfolding set_hold
place_hold = set_hold true

unfoldable pub lift_hold : Bytes → Vault → Result VaultError ArchivedRecord × Vault
unfolding set_hold
lift_hold = set_hold false

-- The text of the hold's error prints the date, which raises where it is out of range.
refuse_held : ArchivedRecord → VaultError
refuse_held r = elim (retained_until r) [ none ↦ value_error | some until ↦ legal_hold_error ]

-- The hold is asked first, then the schedule.
unfoldable pub destroy : Bytes → Date → Vault → Result VaultError (Unit {0}) × Vault
unfolding find_record save refuse_held
destroy key today v = elim (find_record key v) [
  | err e ↦ (err e, v)
  | ok r ↦ if r.legal_hold then (err (refuse_held r), v) else elim (expired r today) [
    | none ↦ (err value_error, v)
    | some gone ↦
        if gone
        then (ok tt, save (record v { index = erase key v.index }))
        else (err retention_not_expired, v)
  ]
]

-- `due_for_destruction`; a date out of range ends it with `ValueError`.
due_among : Date → Dict Bytes ArchivedRecord → Result VaultError (List ArchivedRecord)
unfolding deletable
due_among today [] = ok []
due_among today ((key, r) ∷ index) =
    let rest = due_among today index in
    elim (deletable r today) [
      | none ↦ err value_error
      | some gone ↦ elim rest [ err e ↦ err e | ok rs ↦ ok (if gone then r ∷ rs else rs) ]
    ]

unfoldable pub due_for_destruction : Date → Vault → Result VaultError (List ArchivedRecord)
unfolding due_among
due_for_destruction today v = due_among today v.index

unfoldable pub under_hold : Vault → List ArchivedRecord
under_hold v = keep_if (λ r. r.legal_hold) (rows v.index)

module _ (lib : Archiver) where
  -- What is archived already keeps the terms that it has.
  admit : Bytes → Bytes → Date → ℤ → Moment → Vault → ArchivedRecord × Vault
  unfolding save
  admit key kind event_date years now v = elim (get key v.index) [
    | some existing ↦ (existing, v)
    | none ↦
        let r : ArchivedRecord = record {
          key = key;
          kind = kind;
          event_date = event_date;
          archived_at = now;
          retention_years = years;
          legal_hold = false;
        } in
        (r, save (record v { index = put key r v.index }))
  ]

  unfoldable pub archive :
      Bytes → Bytes → Date → ℤ → Moment → Vault → Result VaultError ArchivedRecord × Vault
  unfolding admit
  archive bytes kind event_date years now v =
      let (outcome, payloads) = deposit lib bytes v.payloads in
      let stored = record v { payloads = payloads } in
      elim outcome [
        | err e ↦ (err (payload_error e), stored)
        | ok key ↦ let (r, w) = admit key kind event_date years now stored in (ok r, w)
      ]

  unfoldable pub read_record : Bytes → Vault → Result VaultError Bytes
  read_record key v = elim (get key v.index) [
    | none ↦ err record_not_found
    | some _ ↦ elim (fetch lib key v.payloads) [
      | err e ↦ err (payload_error e)
      | ok bytes ↦ ok bytes
    ]
  ]
