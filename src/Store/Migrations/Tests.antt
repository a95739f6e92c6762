-- ===== src/Store/Migrations/Tests.antt =====
-- The theorems of the migrations at two files, of which the second fails at first.
use kscribe.Prelude.{
  Bytes, List, String, [], bytes, encode_rune, false, if◌then◌else◌, none, parse_int, refl,
  same_bytes, some, ℤ, ◌++◌, ◌∷◌, ◌≡◌,
}
use kscribe.Errors.{other, ok, err}
use kscribe.Store.Migrations.{
  Entry, Schema, Run, sort_entries, bootstrap, run_migrations, version_of, is_migration, migrate,
  migrate_all, apply, atoi,
}
use kscribe.Store.Migrations.Progress.{Finished, run_stops_at_failure}
use kscribe.Store.Migrations.Rerun.{rerun_changes_nothing}
use kscribe.Store.Schema.{text_before}

abbrev file : String → String → Entry
file name content = record { name = bytes name; is_dir = false; content = bytes content }

abbrev two_files : List Entry
two_files = file "0002_chat.sql" "B" ∷ file "0001_init.sql" "A" ∷ file "README.md" "" ∷ []

-- The tables are the scripts that have run.
abbrev empty_db : Schema Bytes
empty_db = record { tracked = none; tables = [] }

abbrev sound : Run Bytes
sound = record {
  torn = λ script tables. tables ++ script;
  exec = λ script tables. ok (tables ++ script);
  fault = λ place. none;
  applied_at = λ version. bytes "now";
}

abbrev broken : Run Bytes
broken = record {
  torn = λ script tables. tables ++ script;
  exec = λ script tables.
      if same_bytes script (bytes "B") then err (other (bytes "syntax")) else ok (tables ++ script);
  fault = λ place. none;
  applied_at = λ version. bytes "now";
}

abbrev migrated : Schema Bytes
migrated = record {
  tracked = some ((ℤ.pos 1, bytes "now") ∷ (ℤ.pos 2, bytes "now") ∷ []);
  tables = bytes "AB";
}

first_run : run_migrations sound two_files empty_db ≡ (none, migrated)
unfolding run_migrations bootstrap migrate migrate_all apply version_of is_migration atoi parse_int
    sort_entries text_before bytes encode_rune
first_run = refl

stopped_run :
    (run_migrations broken two_files empty_db).1
    ≡ record { tracked = some ((ℤ.pos 1, bytes "now") ∷ []); tables = bytes "A" }
unfolding run_migrations bootstrap migrate migrate_all apply version_of is_migration atoi parse_int
    sort_entries text_before bytes encode_rune
stopped_run = refl

run_stops_at_failure_example :
    Finished broken two_files empty_db (run_migrations broken two_files empty_db)
run_stops_at_failure_example = run_stops_at_failure broken two_files empty_db

rerun_changes_nothing_example : run_migrations broken two_files migrated ≡ (none, migrated)
rerun_changes_nothing_example =
    rerun_changes_nothing sound broken (λ place. refl) two_files empty_db migrated first_run
