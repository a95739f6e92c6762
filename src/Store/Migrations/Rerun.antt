-- ===== src/Store/Migrations/Rerun.antt =====
-- A migration is applied once: a second run changes nothing, and no version is recorded twice.
use mathlib.Core.Path.{subst}
use kscribe.Prelude.{
  All, Bool-cases, Bytes, List, Option, [], arith, false, if◌then◌else◌, inl, inr, none, or_default,
  refl, some, true, ℤ, ◌++◌, ◌||◌, ◌∷◌, ◌≡◌, ◌⊎◌,
}
use mathlib.Core.Bool.{false≢true}
use kscribe.Errors.{Error, Result, ok, err}
use kscribe.Store.Migrations.{
  Entry, Schema, Place, Run, same_version, version_of, is_migration, tracks, is_applied,
  sort_entries, unless_fault, unless_failed, checked, record_version, finish, apply, with_version,
  migrate, migrate_all, bootstrap, run_migrations, open_with_fs,
}

same_version_refl : (v : ℤ) → same_version v v ≡ true
same_version_refl (ℤ.pos n) = ground arith
same_version_refl (ℤ.negsuc n) = ground arith

tracks-append :
    (v : ℤ) (rows : List (ℤ × Bytes)) (row : ℤ × Bytes)
    → tracks v (rows ++ row ∷ []) ≡ (tracks v rows || same_version row.0 v)
tracks-append v [] row = ground arith
tracks-append v (first ∷ rest) row = ground (arith, tracks-append v rest row)

module _ {S : Type 0} where
  record_version-applied :
      (run : Run S) (v : ℤ) (d : Schema S) → is_applied v (record_version run v d) ≡ true
  record_version-applied run v d =
      ground (
        arith,
        tracks-append v (or_default d.tracked []) (v, run.applied_at v),
        same_version_refl v,
      )

  -- Nothing is left to do for a file: it is no migration, or its version is recorded.
  abbrev pub Settled : Entry → Schema S → Type 0
  Settled e d =
      (is_migration e ≡ false) ⊎ ((v : ℤ) × (version_of e ≡ ok v) × (is_applied v d ≡ true))

  abbrev KeepsApplied : Schema S → Schema S → Type 0
  KeepsApplied d d' = (v : ℤ) → is_applied v d ≡ true → is_applied v d' ≡ true

  Settled-grow : (e : Entry) (d d' : Schema S) → KeepsApplied d d' → Settled e d → Settled e d'
  Settled-grow e d d' keeps (inl other) = inl other
  Settled-grow e d d' keeps (inr (v, version, applied)) = inr (v, version, keeps v applied)

  record_version-KeepsApplied :
      (run : Run S) (v : ℤ) (d : Schema S) (tables : S)
      → KeepsApplied d (record_version run v (record d { tables = tables }))
  record_version-KeepsApplied run v d tables w h = kept d.tracked h
    where
      kept :
          (tracked : Option (List (ℤ × Bytes)))
          → elim tracked [ none ↦ false | some rows ↦ tracks w rows ] ≡ true
          → tracks w (or_default tracked [] ++ (v, run.applied_at v) ∷ []) ≡ true
      kept none h = absurd (false≢true h)
      kept (some rows) h = ground (arith, tracks-append w rows (v, run.applied_at v), h)

  -- What a turn of the loop without an error has done.
  unfoldable pub Done : Entry → Schema S → Option Error × Schema S → Type 0
  Done e d (some x, d') = Unit
  Done e d (none, d') = Settled e d' × KeepsApplied d d' × (bootstrap d ≡ d → bootstrap d' ≡ d')

  unless_fault-Done :
      (e : Entry) (fault : Option Error) (prefix : Bytes) (d : Schema S)
      (next : Option Error × Schema S)
      → Done e d next
      → Done e d (unless_fault fault prefix d next)
  unfolding Done
  unless_fault-Done e none prefix d next h = h
  unless_fault-Done e (some x) prefix d next h = tt

  failed-Done : (e : Entry) (x : Error) (d d' : Schema S) → Done e d (some x, d')
  unfolding Done
  failed-Done e x d d' = tt

  Settled-Done : (e : Entry) (d : Schema S) → Settled e d → Done e d (none, d)
  unfolding Done
  Settled-Done e d h = (h, λ v applied. applied, λ there. there)

  recorded-Done :
      (run : Run S) (e : Entry) (v : ℤ) (d : Schema S) (tables : S)
      → version_of e ≡ ok v
      → Done e d (none, record_version run v (record d { tables = tables }))
  unfolding Done bootstrap
  recorded-Done run e v d tables version = (
    inr (v, version, record_version-applied run v (record d { tables = tables })),
    record_version-KeepsApplied run v d tables,
    λ there. refl,
  )

module _ {S : Type 0} (run : Run S) where
  checked-Done :
      (e : Entry) (place : Place) (prefix : Bytes) (d : Schema S) (next : Option Error × Schema S)
      → Done e d next
      → Done e d (checked run place prefix d next)
  checked-Done e place prefix d next h = unless_fault-Done e (run.fault place) prefix d next h

  finish-Done :
      (e : Entry) (v : ℤ) (d : Schema S) (answer : Result S)
      → version_of e ≡ ok v
      → Done e d (finish run e v d answer)
  finish-Done e v d (err reason) version = failed-Done e _ d d
  finish-Done e v d (ok tables) version =
      checked-Done e _ _ d _ (checked-Done e _ _ d _ (recorded-Done run e v d tables version))

  apply-Done : (e : Entry) (v : ℤ) (d : Schema S) → version_of e ≡ ok v → Done e d (apply run e v d)
  unfolding apply
  apply-Done e v d version =
      checked-Done e _ _ d _
        (checked-Done e _ _ d _ (finish-Done e v d (run.exec e.content d.tables) version))

  with_version-Done :
      (e : Entry) (d : Schema S) (version : Result ℤ)
      → version_of e ≡ version
      → Done e d (with_version run e d version)
  with_version-Done e d (err reason) version = failed-Done e _ d d
  with_version-Done e d (ok v) version =
      checked-Done e _ _ d _
        (elim (Bool-cases (is_applied v d))
          as (λ _. Done e d (if is_applied v d then (none, d) else apply run e v d)) [
            | inl applied ↦ rw applied (Settled-Done e d (inr (v, version, applied)))
            | inr pending ↦ rw pending (apply-Done e v d version)
          ])

  migrate-Done : (e : Entry) (d : Schema S) → Done e d (migrate run e d)
  unfolding migrate
  migrate-Done e d = elim (Bool-cases (is_migration e)) [
    | inl file ↦ rw file (with_version-Done e d (version_of e) refl)
    | inr other ↦ rw other (Settled-Done e d (inl other))
  ]

  -- What the loop without an error has done.
  abbrev AllDone : List Entry → Schema S → Option Error × Schema S → Type 0
  AllDone files d (some x, d') = Unit
  AllDone files d (none, d') =
      All (λ e. Settled e d') files × KeepsApplied d d' × (bootstrap d ≡ d → bootstrap d' ≡ d')

  AllDone-step :
      (e : Entry) (rest : List Entry) (d d1 : Schema S) (p : Option Error × Schema S)
      → Done e d (none, d1)
      → AllDone rest d1 p
      → AllDone (e ∷ rest) d p
  unfolding Done
  AllDone-step e rest d d1 (some x, d') h k = tt
  AllDone-step e rest d d1 (none, d') h k = (
    (Settled-grow e d1 d' k.1 h.0, k.0),
    λ v applied. k.1 v (h.1 v applied),
    λ there. k.2 (h.2 there),
  )

  migrate_all-AllDone :
      (files : List Entry) (d : Schema S) → AllDone files d (migrate_all run files d)
  unfolding migrate_all
  migrate_all-AllDone [] d = (tt, λ v h. h, λ there. there)
  migrate_all-AllDone (e ∷ rest) d =
      after (migrate run e d) (migrate-Done e d) (migrate_all-AllDone rest)
    where
      after :
          (p : Option Error × Schema S)
          → Done e d p
          → ((d1 : Schema S) → AllDone rest d1 (migrate_all run rest d1))
          → AllDone (e ∷ rest) d (unless_failed (migrate_all run rest) p)
      after (some x, d1) h later = tt
      after (none, d1) h later = AllDone-step e rest d d1 _ h (later d1)

  -- What a run without an error leaves.
  abbrev Ended : List Entry → Option Error × Schema S → Type 0
  Ended files (some x, d') = Unit
  Ended files (none, d') = All (λ e. Settled e d') files × (bootstrap d' ≡ d')

  AllDone-Ended :
      (files : List Entry) (d : Schema S) (p : Option Error × Schema S)
      → bootstrap d ≡ d
      → AllDone files d p
      → Ended files p
  AllDone-Ended files d (some x, d') there h = tt
  AllDone-Ended files d (none, d') there h = (h.0, h.2 there)

  unless_fault-Ended :
      (files : List Entry) (fault : Option Error) (prefix : Bytes) (d : Schema S)
      (next : Option Error × Schema S)
      → Ended files next
      → Ended files (unless_fault fault prefix d next)
  unless_fault-Ended files none prefix d next h = h
  unless_fault-Ended files (some x) prefix d next h = tt

  run_migrations-Ended :
      (entries : List Entry) (d : Schema S)
      → Ended (sort_entries entries) (run_migrations run entries d)
  unfolding run_migrations bootstrap
  run_migrations-Ended entries d = unless_fault-Ended files (run.fault Place.at_bootstrap) _ d _ (
      unless_fault-Ended files (run.fault Place.at_read_dir) _ (bootstrap d)
        (migrate_all run files (bootstrap d))
        (AllDone-Ended files (bootstrap d) _ refl (migrate_all-AllDone files (bootstrap d))))
    where
      files : List Entry
      files = sort_entries entries

  open_with_fs-Ended :
      (db_path : Bytes) (entries : List Entry) (d : Schema S)
      → Ended (sort_entries entries) (open_with_fs run db_path entries d)
  unfolding open_with_fs
  open_with_fs-Ended db_path entries d = unless_fault-Ended files (run.fault Place.at_open) _ d _ (
      unless_fault-Ended files (run.fault Place.at_journal_mode) _ d _ (
        unless_fault-Ended files (run.fault Place.at_busy_timeout) _ d
          (run_migrations run entries d) (run_migrations-Ended entries d)))
    where
      files : List Entry
      files = sort_entries entries

  -- A store opens only when each of its migrations has its version recorded: it fails closed.
  pub opened_is_migrated :
      (db_path : Bytes) (entries : List Entry) (d d' : Schema S)
      → open_with_fs run db_path entries d ≡ (none, d')
      → All (λ e. Settled e d') (sort_entries entries)
  opened_is_migrated db_path entries d d' opened =
      (subst (Ended (sort_entries entries)) opened (open_with_fs-Ended db_path entries d)).0

module _ {S : Type 0} (run again : Run S) (calm : (place : Place) → again.fault place ≡ none) where
  migrate-Settled : (e : Entry) (d : Schema S) → Settled e d → migrate again e d ≡ (none, d)
  unfolding migrate
  migrate-Settled e d (inl other) = rw other refl
  migrate-Settled e d (inr (v, version, applied)) = elim (Bool-cases (is_migration e)) [
    | inl file ↦ rw (file, version, calm (Place.at_check v), applied) refl
    | inr other ↦ rw other refl
  ]

  migrate_all-Settled :
      (files : List Entry) (d : Schema S)
      → All (λ e. Settled e d) files
      → migrate_all again files d ≡ (none, d)
  unfolding migrate_all
  migrate_all-Settled [] d h = refl
  migrate_all-Settled (e ∷ rest) d h = rw (migrate-Settled e d h.0) (migrate_all-Settled rest d h.1)

  -- After a run that succeeded, a run over the same files, with any other scripts behind their names and
  -- no fault, succeeds and changes nothing: no script is executed twice.
  pub rerun_changes_nothing :
      (entries : List Entry) (d d' : Schema S)
      → run_migrations run entries d ≡ (none, d')
      → run_migrations again entries d' ≡ (none, d')
  unfolding run_migrations
  rerun_changes_nothing entries d d' succeeded =
      rw
        (
          calm Place.at_bootstrap,
          calm Place.at_read_dir,
          ended.1,
          migrate_all-Settled (sort_entries entries) d' ended.0,
        )
        refl
    where
      ended : All (λ e. Settled e d') (sort_entries entries) × (bootstrap d' ≡ d')
      ended =
          subst (Ended run (sort_entries entries)) succeeded (run_migrations-Ended run entries d)
