-- ===== src/Store/Tests.antt =====
-- The theorems of the store at a concrete table.
use kscribe.Prelude.{
  Bool, Bytes, String, [], arith, bytes, false, if◌then◌else◌, keep_if, none, refl, some, true, ℕ,
  ℤ, ◌*◌, ◌∷◌, ◌≡◌, ◌≤◌,
}
use kscribe.Errors.{Error, other, err}
use kscribe.Store.Schema.{Incident, IncidentFilter, Db, second}
use kscribe.Store.{
  upsert_incident, new_row, find_incident, is_incident, is_diagnosis, list_chat_messages,
  count_incidents, matches,
}
use kscribe.Store.Pruning.{PruneFaults, no_faults, prune, prune_tx}
use kscribe.Store.Transaction.{idle}
use kscribe.Store.Upsert.{UniqueKeys, Mirrors, stored, find-upsert_incident, upsert-Mirrors}
use kscribe.Store.Prune.{old_found, prune_exact, prune_atomic}

abbrev row_of : String → String → ℕ → Incident
row_of name phase updated = record {
  namespace = "shop";
  name = name;
  event_uid = "uid-1";
  involved_object_kind = "Pod";
  involved_object_name = "cart";
  involved_object_namespace = "shop";
  reason = "BackOff";
  message = bytes "restarting";
  phase = phase;
  started_at = none;
  completed_at = none;
  llm_provider = "";
  llm_model = "";
  tokens_used = ℤ.pos 0;
  prompt_redacted = false;
  persisted = false;
  created_at = some 1;
  updated_at = some updated;
}

abbrev old_row : Incident
old_row = row_of "a" "Pending" (1 * second)

abbrev new_one : Incident
new_one = row_of "a" "Done" (9 * second)

abbrev two_rows : Db
two_rows = record {
  incidents = old_row ∷ row_of "b" "Done" (9 * second) ∷ [];
  diagnoses = [];
  chat_messages = [];
  last_diagnosis = 0;
  last_message = 0;
}

two_rows-UniqueKeys : UniqueKeys two_rows.incidents
unfolding find_incident
two_rows-UniqueKeys = (refl, (refl, tt))

old_found_first : find_incident "shop" "a" two_rows.incidents ≡ some old_row
unfolding find_incident
old_found_first = refl

find-upsert_incident_example :
    find_incident "shop" "b" (upsert_incident none 5 new_one two_rows).1.incidents ≡ (
      if is_incident "shop" "b" new_one
      then some (stored (find_incident "shop" "a" two_rows.incidents) (new_row 5 new_one))
      else find_incident "shop" "b" two_rows.incidents)
find-upsert_incident_example = find-upsert_incident "shop" "b" 5 new_one two_rows

upsert-Mirrors_example :
    (row : Incident) × (find_incident "shop" "a"
        (upsert_incident none 5 new_one two_rows).1.incidents
      ≡ some row)
    × Mirrors old_row new_one row 5
upsert-Mirrors_example = upsert-Mirrors 5 new_one old_row two_rows old_found_first

abbrev cutoff : ℕ
cutoff = 5 * second

prune_exact_example :
    (find_incident "shop" "a" (prune no_faults cutoff two_rows).1.incidents ≡ (
      if old_found cutoff (find_incident "shop" "a" two_rows.incidents)
      then none
      else find_incident "shop" "a" two_rows.incidents))
    × (list_chat_messages "shop" "a" (prune no_faults cutoff two_rows).1 ≡ (
        if old_found cutoff (find_incident "shop" "a" two_rows.incidents)
        then []
        else list_chat_messages "shop" "a" two_rows))
    × (keep_if (is_diagnosis "shop" "a") (prune no_faults cutoff two_rows).1.diagnoses ≡ (
        if old_found cutoff (find_incident "shop" "a" two_rows.incidents)
        then []
        else keep_if (is_diagnosis "shop" "a") two_rows.diagnoses))
prune_exact_example = prune_exact cutoff two_rows two_rows-UniqueKeys "shop" "a"

abbrev no_commit : PruneFaults
no_commit = record no_faults { commit = some (other (bytes "disk full")) }

prune_atomic_example :
    let (answer, s) = prune_tx no_commit cutoff (idle two_rows) in
    (s.tx ≡ none) × ((e : Error) → answer ≡ err e → s.stored ≡ two_rows)
prune_atomic_example = prune_atomic no_commit cutoff two_rows

abbrev like_all : Bytes → Bytes → Bool
like_all w text = true

abbrev done_only : IncidentFilter
done_only = record { phase = "Done"; namespace = ""; reason = ""; query = "" }

room : count_incidents like_all done_only two_rows ≤ 2 * 1
unfolding count_incidents matches
room = omega arith
