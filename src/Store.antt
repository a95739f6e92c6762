-- ===== src/Store.antt =====
-- internal/store/sqlite.go: the history mirror. Each method is a function on the tables (`Db`) that
-- does what its SQL says. SQLite and its driver are not part of this repository: a statement that the
-- driver refuses is a `fault` given to the method, and the LIKE operator and the order among incidents
-- with equal stored times are parameters.
pub mod Schema
pub mod Transaction
pub mod Upsert
pub mod Pruning
pub mod Prune
pub mod Sorting
pub mod Pages
pub mod Order
pub mod Migrations
mod Tests
use kscribe.Prelude.{
  Bool, Bytes, List, Option, String, StringMap, [], bytes, count_if, drop, false, if◌then◌else◌,
  insert, is_empty, keep_if, ltb, none, not, or_default, some, suc, take, true, ℕ, ◌&&◌, ◌++◌, ◌==◌,
  ◌||◌, ◌∷◌,
}
use mathlib.Core.Option
use kscribe.Errors.{Error, wrap, Result, ok, err}
use Schema.{
  Incident, Diagnosis, ChatMessage, IncidentFilter, IncidentDetail, Db, fmt_time_ptr, stored_before,
}

-- COALESCE(NULLIF(new, ''), old)
abbrev pub coalesce : String → String → String
coalesce new old = if new == "" then old else new

abbrev pub coalesce_bytes : Bytes → Bytes → Bytes
coalesce_bytes new old = if is_empty new then old else new

abbrev pub is_incident : String → String → Incident → Bool
is_incident namespace name row = row.namespace == namespace && row.name == name

-- The row that is inserted: the timestamps that are not given are those of now.
unfoldable pub new_row : ℕ → Incident → Incident
new_row now inc = record inc {
  started_at = fmt_time_ptr inc.started_at;
  completed_at = fmt_time_ptr inc.completed_at;
  created_at = some (or_default inc.created_at now);
  updated_at = some (or_default inc.updated_at now);
}

-- DO UPDATE SET: `old` is the stored row, `new` is `excluded`.
unfoldable pub merge_row : Incident → Incident → Incident
merge_row old new = record {
  namespace = old.namespace;
  name = old.name;
  event_uid = coalesce new.event_uid old.event_uid;
  involved_object_kind = coalesce new.involved_object_kind old.involved_object_kind;
  involved_object_name = coalesce new.involved_object_name old.involved_object_name;
  involved_object_namespace = coalesce new.involved_object_namespace old.involved_object_namespace;
  reason = coalesce new.reason old.reason;
  message = coalesce_bytes new.message old.message;
  phase = new.phase;
  started_at = new.started_at;
  completed_at = new.completed_at;
  llm_provider = coalesce new.llm_provider old.llm_provider;
  llm_model = coalesce new.llm_model old.llm_model;
  tokens_used = new.tokens_used;
  prompt_redacted = new.prompt_redacted;
  persisted = new.persisted;
  created_at = old.created_at;
  updated_at = new.updated_at;
}

-- INSERT … ON CONFLICT(namespace, name) DO UPDATE
unfoldable pub upsert_row : Incident → List Incident → List Incident
upsert_row new [] = new ∷ []
upsert_row new (old ∷ rest) =
    if is_incident new.namespace new.name old
    then merge_row old new ∷ rest
    else old ∷ upsert_row new rest

-- A method that may be refused by the driver leaves the tables alone when it is.
unfoldable pub upsert_incident : Option Error → ℕ → Incident → Db → Option Error × Db
unfolding new_row upsert_row
upsert_incident (some e) now inc db = (some e, db)
upsert_incident none now inc db =
    (none, record db { incidents = upsert_row (new_row now inc) db.incidents })

-- `payload` is the marshalled RCA, or the error of marshalling it.
unfoldable pub insert_diagnosis :
    Option Error → ℕ → Diagnosis → Result Bytes → Db → Option Error × Db
insert_diagnosis fault now d (err e) db = (some (wrap (bytes "marshal rca payload: ") e), db)
insert_diagnosis (some e) now d (ok payload) db = (some e, db)
insert_diagnosis none now d (ok payload) db = (
  none,
  record db {
    last_diagnosis = suc db.last_diagnosis;
    diagnoses =
        db.diagnoses
        ++ record d {
          id = suc db.last_diagnosis;
          rca_json = payload;
          created_at = now;
          context_json = if is_empty d.context_json then bytes "{}" else d.context_json;
          trace_json = if is_empty d.trace_json then bytes "[]" else d.trace_json;
        }
          ∷ [];
  },
)

unfoldable pub append_chat_message :
    Option Error → ℕ → String → String → String → Bytes → Db → Option Error × Db
append_chat_message (some e) now namespace name role content db = (some e, db)
append_chat_message none now namespace name role content db = (
  none,
  record db {
    last_message = suc db.last_message;
    chat_messages =
        db.chat_messages
        ++ record {
          id = suc db.last_message;
          namespace = namespace;
          name = name;
          role = role;
          content = content;
          created_at = now;
        }
          ∷ [];
  },
)

abbrev pub is_message : String → String → ChatMessage → Bool
is_message namespace name m = m.namespace == namespace && m.name == name

abbrev pub is_diagnosis : String → String → Diagnosis → Bool
is_diagnosis namespace name d = d.namespace == namespace && d.name == name

-- rows are kept in the order of their ids
unfoldable pub list_chat_messages : String → String → Db → List ChatMessage
list_chat_messages namespace name db = keep_if (is_message namespace name) db.chat_messages

-- the row of a key
unfoldable pub find_incident : String → String → List Incident → Option Incident
find_incident namespace name [] = none
find_incident namespace name (row ∷ rest) =
    if is_incident namespace name row then some row else find_incident namespace name rest

-- ORDER BY: rows by a test of which of two comes first.
unfoldable pub insert_by {ℓ} : {A : Type ℓ} → (A → A → Bool) → A → List A → List A
insert_by first x [] = x ∷ []
insert_by first x (y ∷ rest) =
    let others = insert_by first x rest in if first y x then y ∷ others else x ∷ y ∷ rest

unfoldable pub order_by {ℓ} : {A : Type ℓ} → (A → A → Bool) → List A → List A
order_by first [] = []
order_by first (x ∷ rest) = insert_by first x (order_by first rest)

-- created_at ASC, as the stored texts compare; rows with the same text stand by their ids.
abbrev pub created_first : Diagnosis → Diagnosis → Bool
created_first a b =
    stored_before a.created_at b.created_at
    || (not (stored_before b.created_at a.created_at) && ltb a.id b.id)

-- The diagnoses of an incident, and the incident; `none` is sql.ErrNoRows.
unfoldable pub get_incident : String → String → Db → Option IncidentDetail
get_incident namespace name db =
    Option.map
      (λ inc. record {
        incident = inc;
        diagnoses = order_by created_first (keep_if (is_diagnosis namespace name) db.diagnoses);
      })
      (find_incident namespace name db.incidents)

-- updated last, as the stored texts compare
abbrev pub is_newer : Incident → Incident → Bool
is_newer a b = stored_before (or_default b.updated_at 0) (or_default a.updated_at 0)

-- `tie` is the order of rows with the same text.
abbrev pub updated_last : (Incident → Incident → Bool) → Incident → Incident → Bool
updated_last tie a b = is_newer a b || (not (is_newer b a) && tie a b)

-- The rows that a filter lets through; `like` is SQL's operator, of a text and a pattern.
module _ (like : Bytes → Bytes → Bool) where
  abbrev unset_or : String → String → Bool
  unset_or wanted value = wanted == "" || value == wanted

  abbrev matches_query : Bytes → Incident → Bool
  matches_query w row = like (bytes row.name) w || like row.message w || like (bytes row.reason) w

  -- buildWhere
  unfoldable pub matches : IncidentFilter → Bool → Incident → Bool
  matches f include_phase row =
      (not include_phase || unset_or f.phase row.phase)
      && unset_or f.namespace row.namespace
      && unset_or f.reason row.reason
      && (f.query == "" || matches_query (bytes "%" ++ (bytes f.query ++ bytes "%")) row)

  unfoldable pub count_incidents : IncidentFilter → Db → ℕ
  count_incidents f db = count_if (matches f true) db.incidents

  -- the count of one phase, over the rows that the rest of the filter lets through
  abbrev pub count_of_phase : IncidentFilter → String → List Incident → ℕ
  count_of_phase f phase rows =
      count_if (λ row. row.phase == phase) (keep_if (matches f false) rows)

  abbrev add_phase : IncidentFilter → List Incident → List Incident → StringMap ℕ
  add_phase f all [] = []
  add_phase f all (row ∷ rest) =
      insert row.phase (count_of_phase f row.phase all) (add_phase f all rest)

  -- SELECT phase, COUNT(*) … GROUP BY phase: an entry for each phase that occurs
  unfoldable pub count_incidents_by_phase : IncidentFilter → Db → StringMap ℕ
  count_incidents_by_phase f db = add_phase f db.incidents (keep_if (matches f false) db.incidents)

  module _ (tie : Incident → Incident → Bool) where
    -- updated_at DESC, as the stored texts compare
    -- ORDER BY updated_at DESC LIMIT ? OFFSET ?
    unfoldable pub list_incidents_page : IncidentFilter → ℕ → ℕ → Db → List Incident
    list_incidents_page f limit offset db =
        take limit
          (drop offset (order_by (updated_last tie) (keep_if (matches f true) db.incidents)))

    unfoldable pub list_incidents : ℕ → Db → List Incident
    unfolding list_incidents_page
    list_incidents limit db =
        list_incidents_page (record { phase = ""; namespace = ""; reason = ""; query = "" }) limit 0
          db
