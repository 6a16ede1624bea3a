-- ===== src/Store/Payloads.antt =====
-- treble/store/payloads.py: raw bytes under their own hash, gzipped or, from before, as they are.
-- A directory is two dicts from a content address to the bytes of a file. `hashlib` and `gzip` are
-- parameters.
pub mod Laws
pub mod Migration
mod Examples
use treble_tracker.Prelude.{
  ℕ, ◌+◌, ◌-◌, List, [], ◌∷◌, Option, none, some, Bool, true, false, ◌||◌, ◌&&◌, not, Result, ok,
  err, ◌==◌, bytes_eq, if◌then◌else◌, is_some, some_or, length, drop, leb, nat_eqb,
}
use treble_tracker.Prelude.Dict.{Dict, get, put, erase}
use treble_tracker.Prelude.Bytes.{Bytes, codes}

-- The standard library's part.
pub record Archiver : Type 0 where
  -- `hashlib.sha256(data).hexdigest()`
  pub sha256 : Bytes → Bytes
  -- `gzip.compress(data, compresslevel=9)`
  pub compress : Bytes → Bytes
  -- `gzip.decompress(data)`; `none` is `OSError` or `EOFError`
  pub decompress : Bytes → Option Bytes

pub data PayloadError : Type 0 where
  integrity_error file_not_found : PayloadError

pub record PayloadStore : Type 0 where
  -- root/aa/bb/<sha256>.gz
  pub zipped : Dict Bytes Bytes
  -- root/aa/bb/<sha256>
  pub plain : Dict Bytes Bytes

abbrev pub empty_store : PayloadStore
empty_store = record { zipped = []; plain = [] }

-- What `compress_existing` returns: the files, and their bytes before and after.
pub record Totals : Type 0 where
  pub files : ℕ
  pub before : ℕ
  pub after : ℕ

abbrev pub no_totals : Totals
no_totals = record { files = 0; before = 0; after = 0 }

abbrev ends_in : Bytes → Bytes → Bool
ends_in suffix name =
    leb (length suffix) (length name) && drop (length name - length suffix) name == suffix

-- A name of 64 characters that ends neither in `.gz` nor in `.tmp`
unfoldable pub is_plain_name : Bytes → Bool
is_plain_name name =
    not (ends_in (codes ".gz") name || ends_in (codes ".tmp") name) && nat_eqb (length name) 64

-- `limit is not None and files >= limit`
abbrev pub is_reached : Option ℕ → ℕ → Bool
is_reached none files = false
is_reached (some limit) files = leb limit files

module _ (lib : Archiver) where
  unfoldable pub payload_hash : Bytes → Bytes
  payload_hash bytes = lib.sha256 bytes

  abbrev pub exists_key : Bytes → PayloadStore → Bool
  exists_key key s = is_some (get key s.zipped) || is_some (get key s.plain)

  -- The file's bytes, before they are checked.
  read_file : Option Bytes → Option Bytes → Result PayloadError Bytes
  read_file (some gz) plain = elim (lib.decompress gz) [
    | none ↦ err integrity_error
    | some bytes ↦ ok bytes
  ]
  read_file none (some bytes) = ok bytes
  read_file none none = err file_not_found

  check_address : Bytes → Result PayloadError Bytes → Result PayloadError Bytes
  unfolding payload_hash
  check_address key (ok bytes) = if payload_hash bytes == key then ok bytes else err integrity_error
  check_address key (err e) = err e

  -- `PayloadStore.get`
  unfoldable pub fetch : Bytes → PayloadStore → Result PayloadError Bytes
  unfolding read_file check_address
  fetch key s = check_address key (read_file (get key s.zipped) (get key s.plain))

  confirm : Bytes → Bytes → Result PayloadError Bytes → Result PayloadError Bytes
  confirm key bytes (ok held) = if held == bytes then ok key else err integrity_error
  confirm key bytes (err e) = err e

  -- `PayloadStore.put`
  unfoldable pub deposit : Bytes → PayloadStore → Result PayloadError Bytes × PayloadStore
  unfolding payload_hash confirm
  deposit bytes s =
      let key = payload_hash bytes in
      if exists_key key s
      then (confirm key bytes (fetch key s), s)
      else (ok key, record s { zipped = put key (lib.compress bytes) s.zipped })

  -- One file of `compress_existing`: the replacement is read back before the original goes.
  verify_zipped :
      Bytes
      → Bytes
      → PayloadStore
      → Result PayloadError Bytes
      → Result PayloadError (Unit {0}) × PayloadStore
  verify_zipped key original s (ok held) =
      if held == original
      then (ok tt, record s { plain = erase key s.plain })
      else (err integrity_error, record s { zipped = erase key s.zipped })
  verify_zipped key original s (err e) = (err e, s)

  unfoldable pub compress_file :
      Bytes → Bytes → PayloadStore → Result PayloadError (Unit {0}) × PayloadStore
  unfolding payload_hash verify_zipped
  compress_file key original s =
      if not (payload_hash original == key)
      then (err integrity_error, s)
      else let written = record s { zipped = put key (lib.compress original) s.zipped } in
        verify_zipped key original written (fetch key written)

  -- The loop of `compress_existing` over files by name, in the order in which it visits them. A name
  -- that is no address of a plain file is passed over, an error or the limit ends the loop.
  unfoldable pub compress_files :
      Option ℕ
      → Dict Bytes Bytes
      → Totals
      → PayloadStore
      → Result PayloadError Totals × PayloadStore
  unfolding is_plain_name compress_file
  compress_files limit [] totals s = (ok totals, s)
  compress_files limit ((key, original) ∷ files) totals s =
      let (outcome, t) = compress_file key original s in
      let now : Totals = record {
        files = totals.files + 1;
        before = totals.before + length original;
        after = totals.after + length (some_or (get key t.zipped) []);
      } in
      let skipped = compress_files limit files totals s in
      let rest = compress_files limit files now t in
      if not (is_plain_name key) then skipped else elim outcome [
        | err e ↦ (err e, t)
        | ok _ ↦ if is_reached limit now.files then (ok now, t) else rest
      ]
