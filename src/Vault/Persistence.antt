-- ===== src/Vault/Persistence.antt =====
-- The index on disk: what a crash and a reopening bring back.
use treble_tracker.Prelude.{
  ◌≡◌, refl, sym, ap, ◌∙◌, List, [], ◌∷◌, ◌++◌, ◌⊎◌, Option, none, some, Bool, true, false, arith,
  ok, bytes_eq, bytes_eqb_iff, inl, inr, Option-cases, Result-cases, Bool-cases, ◌==◌, All,
  append-nil, append_assoc, subst,
}
use treble_tracker.Prelude.Dict.{Dict, IsDict, get, put, erase, put-IsDict, erase-IsDict}
use treble_tracker.Prelude.Int.{ℤ}
use treble_tracker.Prelude.Bytes.{Bytes}
use treble_tracker.Ems.Moment.{Moment}
use treble_tracker.Store.Payloads.{Archiver, PayloadStore, empty_store, deposit}
use treble_tracker.Vault.Dates.{Date}
use treble_tracker.Vault.{
  ArchivedRecord, Document, Vault, rows, fill, save, open_vault, set_hold, place_hold, lift_hold,
  destroy, admit, archive, expired, version,
}
use treble_tracker.Vault.Retention.{
  Call, archives, places_hold, lifts_hold, destroys, step, history,
}

abbrev pub IsKeyed : Bytes × ArchivedRecord → Type 0
IsKeyed e = e.1.key ≡ e.0

-- Each record lies under its own key, and no key stands twice.
abbrev pub IsIndex : Dict Bytes ArchivedRecord → Type 0
IsIndex index = IsDict index × All IsKeyed index

-- A vault that has never saved has an empty index; any other has its index on disk.
abbrev pub IsSaved : Vault → Type 0
IsSaved v = IsIndex v.index × (((v.disk ≡ none) × (v.index ≡ [])) ⊎ (v.disk ≡ (save v).disk))

put_new :
    (key : Bytes) (r : ArchivedRecord) (d : Dict Bytes ArchivedRecord)
    → get key d ≡ none
    → put key r d ≡ d ++ (key, r) ∷ []
unfolding get put
put_new key r [] h = refl
put_new key r ((j, w) ∷ d) h = ground (arith, put_new key r d)

later_ne :
    (j k : Bytes) (r : ArchivedRecord) (acc d : Dict Bytes ArchivedRecord)
    → get j (acc ++ (k, r) ∷ d) ≡ none
    → (k == j) ≡ false
unfolding get
later_ne j k r [] d h = ground arith
later_ne j k r ((i, w) ∷ acc) d h = ground (arith, later_ne j k r acc d)

get_before :
    (k : Bytes) (r : ArchivedRecord) (acc d : Dict Bytes ArchivedRecord)
    → IsDict (acc ++ (k, r) ∷ d)
    → get k acc ≡ none
unfolding get
get_before k r [] d h = refl
get_before k r ((i, w) ∷ acc) d (h, hs) =
    ground
      (arith, later_ne i k r acc d h, bytes_eqb_iff i k, bytes_eqb_iff k i, get_before k r acc d hs)

IsKeyed-put :
    (key : Bytes) (r : ArchivedRecord) (d : Dict Bytes ArchivedRecord)
    → r.key ≡ key
    → All IsKeyed d
    → All IsKeyed (put key r d)
unfolding put
IsKeyed-put key r [] h k = (h, tt)
IsKeyed-put key r ((j, w) ∷ d) h (k, ks) =
    ground (arith, bytes_eqb_iff j key, IsKeyed-put key r d h ks)

IsKeyed-erase :
    (key : Bytes) (d : Dict Bytes ArchivedRecord) → All IsKeyed d → All IsKeyed (erase key d)
unfolding erase
IsKeyed-erase key [] k = tt
IsKeyed-erase key ((j, w) ∷ d) (k, ks) = ground (arith, IsKeyed-erase key d ks)

keyed-get :
    (key : Bytes) (r : ArchivedRecord) (d : Dict Bytes ArchivedRecord)
    → get key d ≡ some r
    → All IsKeyed d
    → r.key ≡ key
unfolding get
keyed-get key r [] e k = cc
keyed-get key r ((j, w) ∷ d) e (k, ks) =
    ground (arith, bytes_eqb_iff j key, λ (f : get key d ≡ some r). keyed-get key r d f ks)

fill-rows :
    (d acc : Dict Bytes ArchivedRecord)
    → IsDict (acc ++ d)
    → All IsKeyed d
    → fill (rows d) acc ≡ acc ++ d
unfolding fill
fill-rows [] acc h k = sym (append-nil acc)
fill-rows ((key, r) ∷ d) acc h (k, ks) =
    let whole = append_assoc acc ((key, r) ∷ []) d in
    ap (λ j. fill (rows d) (put j r acc)) k
    ∙ ap (fill (rows d)) (put_new key r acc (get_before key r acc d h))
    ∙ fill-rows d (acc ++ (key, r) ∷ []) (subst IsDict (sym whole) h) ks
    ∙ whole

reopen_parts :
    (payloads : PayloadStore) (index : Dict Bytes ArchivedRecord) (disk : Option Document)
    → IsIndex index
    → ((disk ≡ none) × (index ≡ []))
      ⊎ (disk ≡ some (record { document_version = version; records = rows index }))
    → open_vault payloads disk ≡ ok (record { payloads = payloads; index = index; disk = disk })
unfolding open_vault
reopen_parts payloads index disk h (inl (none_saved, empty)) = rw (none_saved, empty) refl
reopen_parts payloads index disk h (inr saved) = rw saved (rw (fill-rows index [] h.0 h.1))

-- Opening the vault again, after a crash or a restart, gives the very same vault: every record with
-- its terms and its hold.
pub reopen : (v : Vault) → IsSaved v → open_vault v.payloads v.disk ≡ ok v
unfolding save
reopen v (h, saved) = reopen_parts v.payloads v.index v.disk h saved

save-IsSaved :
    (payloads : PayloadStore) (index : Dict Bytes ArchivedRecord) (disk : Option Document)
    → IsIndex index
    → IsSaved (save (record { payloads = payloads; index = index; disk = disk }))
unfolding save
save-IsSaved payloads index disk h = (h, inr refl)

put-IsIndex :
    (key : Bytes) (r : ArchivedRecord) (d : Dict Bytes ArchivedRecord)
    → r.key ≡ key
    → IsIndex d
    → IsIndex (put key r d)
put-IsIndex key r d k (h, ks) = (put-IsDict key r d h, IsKeyed-put key r d k ks)

set_hold-IsSaved :
    (hold : Bool) (key : Bytes) (v : Vault) → IsSaved v → IsSaved (set_hold hold key v).1
unfolding set_hold
set_hold-IsSaved hold key v s = elim (Option-cases (get key v.index)) [
  | inl missing ↦ rw (missing, set_hold) s
  | inr (r, found) ↦
      rw (found, set_hold)
        (save-IsSaved v.payloads _ v.disk
          (put-IsIndex key _ v.index (keyed-get key r v.index found s.0.1) s.0))
]

admit-IsSaved :
    (lib : Archiver) (key kind : Bytes) (event_date : Date) (years : ℤ) (now : Moment) (v : Vault)
    → IsSaved v
    → IsSaved (admit lib key kind event_date years now v).1
unfolding admit
admit-IsSaved lib key kind event_date years now v s = elim (Option-cases (get key v.index)) [
  | inl missing ↦
      rw (missing, admit) (save-IsSaved v.payloads _ v.disk (put-IsIndex key _ v.index refl s.0))
  | inr (r, found) ↦ rw (found, admit) s
]

archive-IsSaved :
    (lib : Archiver) (bytes kind : Bytes) (event_date : Date) (years : ℤ) (now : Moment) (v : Vault)
    → IsSaved v
    → IsSaved (archive lib bytes kind event_date years now v).1
unfolding archive save
archive-IsSaved lib bytes kind event_date years now v s =
    elim (Result-cases (deposit lib bytes v.payloads).0) [
      | inl (key, done) ↦
          rw (done, archive) (admit-IsSaved lib key kind event_date years now stored s')
      | inr (_, failed) ↦ rw (failed, archive) s'
    ]
  where
    stored : Vault
    stored = record v { payloads = (deposit lib bytes v.payloads).1 }

    s' : IsSaved stored
    s' = s

destroy-IsSaved :
    (key : Bytes) (today : Date) (v : Vault) → IsSaved v → IsSaved (destroy key today v).1
unfolding destroy
destroy-IsSaved key today v s = elim (Option-cases (get key v.index)) [
  | inl e ↦ rw (e, destroy) s
  | inr (r, e) ↦ elim (Bool-cases r.legal_hold) [
    | inl held ↦ rw (e, destroy) (simp held s)
    | inr free ↦ elim (Option-cases (expired r today)) [
      | inl f ↦ rw (e, destroy) (simp (free, f) s)
      | inr (false, f) ↦ rw (e, destroy) (simp (free, f) s)
      | inr (true, f) ↦ rw (e, destroy) (simp (free, f) (save-IsSaved v.payloads _ v.disk gone))
    ]
  ]
]
  where
    gone : IsIndex (erase key v.index)
    gone = (erase-IsDict key v.index s.0.0, IsKeyed-erase key v.index s.0.1)

step-IsSaved : (lib : Archiver) (c : Call) (v : Vault) → IsSaved v → IsSaved (step lib c v)
unfolding place_hold lift_hold
step-IsSaved lib (archives bytes kind event_date years now) v s =
    archive-IsSaved lib bytes kind event_date years now v s
step-IsSaved lib (places_hold key) v s = set_hold-IsSaved true key v s
step-IsSaved lib (lifts_hold key) v s = set_hold-IsSaved false key v s
step-IsSaved lib (destroys key today) v s = destroy-IsSaved key today v s

pub history-IsSaved :
    (lib : Archiver) (cs : List Call) (v : Vault) → IsSaved v → IsSaved (history lib cs v)
history-IsSaved lib [] v s = s
history-IsSaved lib (c ∷ cs) v s = history-IsSaved lib cs (step lib c v) (step-IsSaved lib c v s)

-- A vault in an empty directory.
abbrev pub new_vault : Vault
new_vault = record { payloads = empty_store; index = []; disk = none }

-- Whatever was called on a new vault, and however often, opening what lies on disk at that moment
-- gives the vault back: every record with its terms and its hold, and no other.
pub history_reopens :
    (lib : Archiver) (cs : List Call)
    → let v = history lib cs new_vault in open_vault v.payloads v.disk ≡ ok v
history_reopens lib cs =
    reopen (history lib cs new_vault)
      (history-IsSaved lib cs new_vault ((tt, tt), inl (refl, refl)))
