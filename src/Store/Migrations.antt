-- ===== src/Store/Migrations.antt =====
-- internal/store/migrations.go: the schema's migrations, applied in the order of their file names, and
-- openWithFS of internal/store/sqlite.go, which opens a store only after them.
--
-- `S` is what the scripts change: every table but schema_migrations, which they leave to this code.
-- `exec` runs a script in a transaction, and `torn` is what a script that fails leaves there. Where the driver or the file system can fail for reasons of
-- its own, the run is given a fault for that place. The files are listed with their contents. The %q
-- verb is written for names that need no escapes.
pub mod Progress
pub mod Rerun
mod Tests
use kscribe.Prelude.{
  Bool, Bytes, List, Option, Parsed, [], any_of, bad_syntax, bytes, decimal, drop, eqb, false,
  if◌then◌else◌, in_range, leb, length, none, not, or_default, out_of_range, parse_int, same_bytes,
  some, ℤ, ◌&&◌, ◌++◌, ◌-◌, ◌∷◌,
}
use kscribe.Store.Transaction.{Session, idle, begin_tx, exec, rollback, commit}
use kscribe.Errors.{Error, other, wrap, Result, ok, err}
use kscribe.Store.Schema.{text_before}

-- A file or a directory of migrations.
pub record Entry : Type 0 where
  pub name : Bytes
  pub is_dir : Bool
  pub content : Bytes

-- `tracked` is the table schema_migrations, where it exists: the versions with their instants.
pub record Schema (S : Type 0) : Type 0 where
  pub tracked : Option (List (ℤ × Bytes))
  pub tables : S

-- Where the database or the file system can fail on its own.
pub data Place : Type 0 where
  at_open : Place
  at_journal_mode : Place
  at_busy_timeout : Place
  at_bootstrap : Place
  at_read_dir : Place
  at_check : ℤ → Place
  at_read_file : Bytes → Place
  at_begin : ℤ → Place
  at_record : ℤ → Place
  at_commit : ℤ → Place

-- One run: what a script makes of the tables, and what one that fails has made of them until then, the
-- faults that the run meets, and the text of the instant that it records for a version.
pub record Run (S : Type 0) : Type 0 where
  pub exec : Bytes → S → Result S
  pub torn : Bytes → S → S
  pub fault : Place → Option Error
  pub applied_at : ℤ → Bytes

abbrev pub same_version : ℤ → ℤ → Bool
same_version (ℤ.pos n) (ℤ.pos m) = eqb n m
same_version (ℤ.negsuc n) (ℤ.negsuc m) = eqb n m
same_version _ _ = false

-- strings.HasSuffix
abbrev pub has_suffix : Bytes → Bytes → Bool
has_suffix s suffix =
    leb (length suffix) (length s) && same_bytes (drop (length s - length suffix) s) suffix

-- the part that strings.Cut finds before "_": everything, where there is none
abbrev pub before_underscore : Bytes → Bytes
before_underscore [] = []
before_underscore (c ∷ rest) = let p = before_underscore rest in if eqb c b'_' then [] else c ∷ p

abbrev pub atoi_result : Bytes → Parsed → Result ℤ
atoi_result s (in_range z) = ok z
atoi_result s bad_syntax =
    err (other (bytes "strconv.Atoi: parsing \"" ++ s ++ bytes "\": invalid syntax"))
atoi_result s (out_of_range z) =
    err (other (bytes "strconv.Atoi: parsing \"" ++ s ++ bytes "\": value out of range"))

-- strconv.Atoi
unfoldable pub atoi : Bytes → Result ℤ
atoi s = atoi_result s (parse_int s)

unfoldable pub version_of : Entry → Result ℤ
version_of e = atoi (before_underscore e.name)

unfoldable pub is_migration : Entry → Bool
is_migration e = not e.is_dir && has_suffix e.name (bytes ".sql")

-- sort.Slice by name; the names in a directory differ.
abbrev pub insert_entry : Entry → List Entry → List Entry
insert_entry e [] = e ∷ []
insert_entry e (f ∷ rest) =
    let others = insert_entry e rest in
    if text_before f.name e.name then f ∷ others else e ∷ f ∷ rest

unfoldable pub sort_entries : List Entry → List Entry
sort_entries [] = []
sort_entries (e ∷ rest) = insert_entry e (sort_entries rest)

abbrev pub tracks : ℤ → List (ℤ × Bytes) → Bool
tracks v rows = any_of (λ (row : ℤ × Bytes). same_version row.0 v) rows

-- SELECT COUNT(*) … > 0
abbrev pub is_applied : {S : Type 0} → ℤ → Schema S → Bool
is_applied v d = elim d.tracked [ none ↦ false | some rows ↦ tracks v rows ]

abbrev pub quoted : Bytes → Bytes
quoted name = bytes "\"" ++ name ++ bytes "\""

module _ {S : Type 0} where
  -- a place that can fail: the error, wrapped, with the database as it was, or what follows
  abbrev pub unless_fault :
      Option Error → Bytes → Schema S → Option Error × Schema S → Option Error × Schema S
  unless_fault none prefix d next = next
  unless_fault (some e) prefix d next = (some (wrap prefix e), d)

  -- the rest of a loop, where a turn had no error
  abbrev pub unless_failed :
      (Schema S → Option Error × Schema S) → Option Error × Schema S → Option Error × Schema S
  unless_failed rest (some e, d) = (some e, d)
  unless_failed rest (none, d) = rest d

  -- CREATE TABLE IF NOT EXISTS
  unfoldable pub bootstrap : Schema S → Schema S
  bootstrap d = record d { tracked = some (or_default d.tracked []) }

module _ {S : Type 0} (run : Run S) where
  abbrev pub checked : Place → Bytes → Schema S → Option Error × Schema S → Option Error × Schema S
  checked place prefix d next = unless_fault (run.fault place) prefix d next

  -- INSERT INTO schema_migrations
  abbrev pub record_version : ℤ → Schema S → Schema S
  record_version v d = record d {
    tracked = some (or_default d.tracked [] ++ (v, run.applied_at v) ∷ []);
  }

  -- the transaction of one file, with the script's statements
  abbrev pub script_ran : S → Schema S → Session (Schema S)
  script_ran tables d = exec (λ seen. record seen { tables = tables }) (begin_tx (idle d))

  -- What follows the script: the record and the commit, or the rollback.
  abbrev pub finish : Entry → ℤ → Schema S → Result S → Option Error × Schema S
  finish e v d (err reason) = (
    some (
        wrap (bytes "migration " ++ decimal v ++ bytes " (" ++ e.name ++ bytes ") failed: ")
          reason),
    (rollback (script_ran (run.torn e.content d.tables) d)).stored,
  )
  finish e v d (ok tables) =
      let s = script_ran tables d in
      let recorded = exec (record_version v) s in
      checked (at_record v) (bytes "record migration " ++ decimal v ++ bytes ": ")
        (rollback s).stored
        (checked (at_commit v) (bytes "commit migration " ++ decimal v ++ bytes ": ")
          recorded.stored (none, (commit recorded).stored))

  unfoldable pub apply : Entry → ℤ → Schema S → Option Error × Schema S
  apply e v d =
      checked (at_read_file e.name) (bytes "read migration " ++ quoted e.name ++ bytes ": ") d (
        checked (at_begin v) (bytes "begin tx for migration " ++ decimal v ++ bytes ": ") d
          (finish e v d (run.exec e.content d.tables)))

  abbrev pub with_version : Entry → Schema S → Result ℤ → Option Error × Schema S
  with_version e d (err reason) = (
    some (wrap (bytes "migration " ++ quoted e.name ++ bytes ": non-numeric prefix: ") reason),
    d,
  )
  with_version e d (ok v) =
      checked (at_check v) (bytes "check applied migration " ++ decimal v ++ bytes ": ") d
        (if is_applied v d then (none, d) else apply e v d)

  -- One turn of the loop; no error is `continue` or the end of the turn.
  unfoldable pub migrate : Entry → Schema S → Option Error × Schema S
  migrate e d = if is_migration e then with_version e d (version_of e) else (none, d)

  unfoldable pub migrate_all : List Entry → Schema S → Option Error × Schema S
  migrate_all [] d = (none, d)
  migrate_all (e ∷ rest) d = unless_failed (migrate_all rest) (migrate e d)

  unfoldable pub run_migrations : List Entry → Schema S → Option Error × Schema S
  run_migrations entries d = checked at_bootstrap (bytes "bootstrap schema_migrations: ") d (
      checked at_read_dir (bytes "read migrations dir: ") (bootstrap d)
        (migrate_all (sort_entries entries) (bootstrap d)))

  -- openWithFS: no error is an open store. The pragmas change no table; the error of the migrations is
  -- passed on as it is.
  unfoldable pub open_with_fs : Bytes → List Entry → Schema S → Option Error × Schema S
  open_with_fs db_path entries d =
      checked Place.at_open (bytes "open sqlite " ++ quoted db_path ++ bytes ": ") d (
        checked Place.at_journal_mode (bytes "pragma journal_mode: ") d (
          checked Place.at_busy_timeout (bytes "pragma busy_timeout: ") d
            (run_migrations entries d)))
