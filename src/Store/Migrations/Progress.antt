-- ===== src/Store/Migrations/Progress.antt =====
-- What a run of the migrations leaves behind, however it ends.
use kscribe.Prelude.{
  Bool-cases, Bytes, List, Option, Option-cases, [], ap, false, inl, inr, none, or_default, refl,
  some, true, ℤ, ◌++◌, ◌∷◌, ◌≡◌, ◌⊎◌,
}
use kscribe.Errors.{Error, Result, ok, err}
use kscribe.Store.Migrations.{
  Entry, Schema, Place, Run, version_of, is_migration, is_applied, sort_entries, checked, finish,
  apply, with_version, migrate, unless_failed, migrate_all, bootstrap, run_migrations, unless_fault,
}

module _ {S : Type 0} (run : Run S) where
  -- One file has been dealt with: it is no migration, its version is known, or its script has run to its end
  -- and the version is recorded with it.
  pub data Step (e : Entry) (d : Schema S) : Schema S → Type 0 where
    passed : is_migration e ≡ false → Step e d d
    known : (v : ℤ) → version_of e ≡ ok v → is_applied v d ≡ true → Step e d d
    ran :
        (v : ℤ) (tables : S)
        → is_migration e ≡ true
        → version_of e ≡ ok v
        → is_applied v d ≡ false
        → run.exec e.content d.tables ≡ ok tables
        → Step e d (record {
          tracked = some (or_default d.tracked [] ++ (v, run.applied_at v) ∷ []);
          tables = tables;
        })

  -- All files have been dealt with, one after the other.
  pub data Applied : List Entry → Schema S → Schema S → Type 0 where
    nothing : {d : Schema S} → Applied [] d d
    next :
        {e : Entry} {rest : List Entry} {d d1 d' : Schema S}
        → Step e d d1
        → Applied rest d1 d'
        → Applied (e ∷ rest) d d'

  -- An error leaves the database as it was; no error means that the file has been dealt with.
  abbrev Atomic : Entry → Schema S → Option Error × Schema S → Type 0
  Atomic e d (none, d') = Step e d d'
  Atomic e d (some x, d') = d' ≡ d

  checked-Atomic :
      (entry : Entry) (place : Place) (prefix : Bytes) (d : Schema S)
      (next_step : Option Error × Schema S)
      → Atomic entry d next_step
      → Atomic entry d (checked run place prefix d next_step)
  checked-Atomic entry place prefix d next_step h = at_fault (run.fault place)
    where
      at_fault : (fault : Option Error) → Atomic entry d (unless_fault fault prefix d next_step)
      at_fault none = h
      at_fault (some e) = refl

  finish-Atomic :
      (e : Entry) (v : ℤ) (d : Schema S) (answer : Result S)
      → is_migration e ≡ true
      → version_of e ≡ ok v
      → is_applied v d ≡ false
      → run.exec e.content d.tables ≡ answer
      → Atomic e d (finish run e v d answer)
  finish-Atomic e v d (err reason) file version pending same = refl
  finish-Atomic e v d (ok tables) file version pending same =
      checked-Atomic e _ _ d _ (checked-Atomic e _ _ d _ (ran v tables file version pending same))

  with_version-Atomic :
      (e : Entry) (d : Schema S) (version : Result ℤ)
      → is_migration e ≡ true
      → version_of e ≡ version
      → Atomic e d (with_version run e d version)
  unfolding apply
  with_version-Atomic e d (err reason) file same = refl
  with_version-Atomic e d (ok v) file same =
      checked-Atomic e _ _ d _ (elim (Bool-cases (is_applied v d)) [
        | inl applied ↦ rw applied (known v same applied)
        | inr pending ↦ rw pending (
            checked-Atomic e _ _ d _ (
              checked-Atomic e _ _ d _
                (finish-Atomic e v d (run.exec e.content d.tables) file same pending refl)))
      ])

  migrate-Atomic : (e : Entry) (d : Schema S) → Atomic e d (migrate run e d)
  unfolding migrate
  migrate-Atomic e d = elim (Bool-cases (is_migration e)) [
    | inl file ↦ rw file (with_version-Atomic e d (version_of e) file refl)
    | inr other ↦ rw other (passed other)
  ]

  -- The database after a beginning of the files, all of which have been dealt with.
  pub record IsPrefix (files : List Entry) (d d' : Schema S) : Type 0 where
    pub applied : List Entry
    pub left : List Entry
    pub in_order : files ≡ applied ++ left
    pub succeeded : Applied applied d d'

  -- a beginning of the files, and all of them where there was no error
  abbrev Ends : List Entry → Schema S → Option Error × Schema S → Type 0
  Ends files d (none, d') = Applied files d d'
  Ends files d (some x, d') = IsPrefix files d d'

  Step-Ends :
      (e : Entry) (rest : List Entry) (d d1 : Schema S) (p : Option Error × Schema S)
      → Step e d d1
      → Ends rest d1 p
      → Ends (e ∷ rest) d p
  Step-Ends e rest d d1 (none, d') step h = next step h
  Step-Ends e rest d d1 (some x, d') step h = record {
    applied = e ∷ h.applied;
    left = h.left;
    in_order = ap (λ es. e ∷ es) h.in_order;
    succeeded = next step h.succeeded;
  }

  none-IsPrefix : (files : List Entry) (d d' : Schema S) → d' ≡ d → IsPrefix files d d'
  none-IsPrefix files d d' same =
      rw same (record { applied = []; left = files; in_order = refl; succeeded = nothing })

  migrate_all-Ends : (files : List Entry) (d : Schema S) → Ends files d (migrate_all run files d)
  unfolding migrate_all
  migrate_all-Ends [] d = nothing
  migrate_all-Ends (e ∷ rest) d =
      after (migrate run e d) (migrate-Atomic e d) (migrate_all-Ends rest)
    where
      after :
          (p : Option Error × Schema S)
          → Atomic e d p
          → ((d1 : Schema S) → Ends rest d1 (migrate_all run rest d1))
          → Ends (e ∷ rest) d (unless_failed (migrate_all run rest) p)
      after (some x, d1) unchanged later = none-IsPrefix (e ∷ rest) d d1 unchanged
      after (none, d1) step later = Step-Ends e rest d d1 _ step (later d1)

  -- What a whole run may come to.
  abbrev pub Finished : List Entry → Schema S → Option Error × Schema S → Type 0
  Finished entries d (none, d') = Applied (sort_entries entries) (bootstrap d) d'
  Finished entries d (some x, d') = (d' ≡ d) ⊎ IsPrefix (sort_entries entries) (bootstrap d) d'

  Ends-Finished :
      (entries : List Entry) (d : Schema S) (p : Option Error × Schema S)
      → Ends (sort_entries entries) (bootstrap d) p
      → Finished entries d p
  Ends-Finished entries d (none, d') h = h
  Ends-Finished entries d (some x, d') h = inr h

  -- A run without an error has dealt with every file in the sorted order: it is no migration, its version
  -- was known, or its script ran to its end and its version is recorded. A run with an error has done so
  -- for a beginning of the sorted files and has left no trace of any other, or has changed nothing.
  pub run_stops_at_failure :
      (entries : List Entry) (d : Schema S) → Finished entries d (run_migrations run entries d)
  unfolding run_migrations
  run_stops_at_failure entries d = elim (Option-cases (run.fault Place.at_bootstrap)) [
    | inr (e, failed) ↦ rw failed (inl refl)
    | inl calm ↦ rw calm (elim (Option-cases (run.fault Place.at_read_dir)) [
      | inr (e, failed) ↦ rw failed (inr (none-IsPrefix _ _ _ refl))
      | inl listed ↦
          rw listed
            (Ends-Finished entries d _ (migrate_all-Ends (sort_entries entries) (bootstrap d)))
    ])
  ]
