-- ===== src/Store/Upsert.antt =====
-- The incidents table under upserts: one row for each key, and what a lookup finds.
use kscribe.Prelude.{
  Bool-cases, Bytes, List, Option, String, [], arith, eq_iff, eq_refl, false, if◌then◌else◌, inl,
  inr, none, or_default, refl, some, true, ℕ, ◌∙◌, ◌∷◌, ◌≡◌, ◌≢◌,
}
use kscribe.Errors.{Error}
use kscribe.Store.Schema.{Incident, Db, fmt_time_ptr}
use kscribe.Store.{
  is_incident, coalesce, coalesce_bytes, new_row, merge_row, upsert_row, upsert_incident,
  find_incident,
}

-- Two keys of rows, by their tests.
pub key_same :
    (ns name : String) (row : Incident)
    → is_incident ns name row ≡ true
    → (row.namespace ≡ ns) × (row.name ≡ name)
key_same ns name row h = (
  ground (arith, eq_iff row.namespace ns),
  ground (arith, eq_iff row.namespace ns, eq_iff row.name name),
)

-- What an upsert stores for its key.
abbrev pub stored : Option Incident → Incident → Incident
stored none new = new
stored (some old) new = merge_row old new

-- a merged row keeps its key
is_incident-merge_row :
    (ns name : String) (old new : Incident)
    → is_incident ns name (merge_row old new) ≡ is_incident ns name old
unfolding merge_row
is_incident-merge_row ns name old new = refl

-- the tests of a row and of a new row with its key agree
is_incident-same :
    (ns name : String) (old new : Incident)
    → is_incident new.namespace new.name old ≡ true
    → is_incident ns name old ≡ is_incident ns name new
is_incident-same ns name old new h =
    let (e, e') = key_same new.namespace new.name old h in rw (e, e')

-- a row with another key than the new one is not found where the new one is
other_key :
    (ns name : String) (old new : Incident)
    → is_incident new.namespace new.name old ≡ false
    → is_incident ns name new ≡ true
    → is_incident ns name old ≡ false
other_key ns name old new miss hit = let (e, e') = key_same ns name new hit in rw (← e, ← e') miss

pub find-upsert_row :
    (ns name : String) (new : Incident) (rows : List Incident)
    → find_incident ns name (upsert_row new rows) ≡ (
        if is_incident ns name new
        then some (stored (find_incident new.namespace new.name rows) new)
        else find_incident ns name rows)
unfolding find_incident upsert_row
find-upsert_row ns name new [] = ground arith
find-upsert_row ns name new (old ∷ rest) =
    elim (Bool-cases (is_incident new.namespace new.name old)) [
      | inl hit ↦ rw hit (
          rw (is_incident-merge_row ns name old new, is_incident-same ns name old new hit)
            (ground arith))
      | inr miss ↦
          rw miss (ground (arith, find-upsert_row ns name new rest, other_key ns name old new miss))
    ]

-- Every key stands in one row.
abbrev pub UniqueKeys : List Incident → Type 0
UniqueKeys [] = Unit
UniqueKeys (row ∷ rest) = (find_incident row.namespace row.name rest ≡ none) × UniqueKeys rest

-- A successful upsert: the row of the incident's own key is the new row, merged into the old one if
-- there was one, and every other key is as before.
pub find-upsert_incident :
    (ns name : String) (now : ℕ) (inc : Incident) (db : Db)
    → find_incident ns name (upsert_incident none now inc db).1.incidents ≡ (
        if is_incident ns name inc
        then some (stored (find_incident inc.namespace inc.name db.incidents) (new_row now inc))
        else find_incident ns name db.incidents)
unfolding upsert_incident
find-upsert_incident ns name now inc db = find-upsert_row ns name (new_row now inc) db.incidents

-- An empty text in the incident never erases what the mirror knows.
abbrev Filled : String → String → String → Type 0
Filled given known result = (given ≢ "" → result ≡ given) × (given ≡ "" → result ≡ known)

pub record Mirrors (old inc row : Incident) (now : ℕ) : Type 0 where
  phase : row.phase ≡ inc.phase
  event_uid : Filled inc.event_uid old.event_uid row.event_uid
  object_kind : Filled inc.involved_object_kind old.involved_object_kind row.involved_object_kind
  object_name : Filled inc.involved_object_name old.involved_object_name row.involved_object_name
  reason : Filled inc.reason old.reason row.reason
  object_namespace :
      Filled inc.involved_object_namespace old.involved_object_namespace
        row.involved_object_namespace
  message :
      (inc.message ≢ [] → row.message ≡ inc.message)
      × (inc.message ≡ [] → row.message ≡ old.message)
  provider : Filled inc.llm_provider old.llm_provider row.llm_provider
  model : Filled inc.llm_model old.llm_model row.llm_model
  created : row.created_at ≡ old.created_at
  updated : row.updated_at ≡ some (or_default inc.updated_at now)
  persisted : row.persisted ≡ inc.persisted
  prompt_redacted : row.prompt_redacted ≡ inc.prompt_redacted
  tokens : row.tokens_used ≡ inc.tokens_used
  started : row.started_at ≡ fmt_time_ptr inc.started_at
  completed : row.completed_at ≡ fmt_time_ptr inc.completed_at

coalesce-Filled : (given known : String) → Filled given known (coalesce given known)
coalesce-Filled given known =
    (λ set. ground (arith, eq_iff given ""), λ unset. ground (arith, eq_iff given ""))

coalesce_bytes-filled :
    (given known : Bytes)
    → (given ≢ [] → coalesce_bytes given known ≡ given)
      × (given ≡ [] → coalesce_bytes given known ≡ known)
coalesce_bytes-filled [] known = (λ set. absurd (set refl), λ unset. refl)
coalesce_bytes-filled (c ∷ given) known = (λ set. refl, λ unset. cc)

-- When a key is known already, its row takes the phase, the two flags, the tokens and the times of the
-- incident (start and completion cut to seconds, the update now where none is given), fills each text
-- that the incident leaves empty from the old row, and keeps the time of its creation.
pub upsert-Mirrors :
    (now : ℕ) (inc old : Incident) (db : Db)
    → find_incident inc.namespace inc.name db.incidents ≡ some old
    → (row : Incident) × (find_incident inc.namespace inc.name
          (upsert_incident none now inc db).1.incidents
        ≡ some row)
      × Mirrors old inc row now
unfolding new_row merge_row
upsert-Mirrors now inc old db known = (
  merge_row old (new_row now inc),
  find-upsert_incident inc.namespace inc.name now inc db
      ∙ ground (arith, eq_refl inc.namespace, eq_refl inc.name, known),
  record {
    phase = refl;
    event_uid = coalesce-Filled inc.event_uid old.event_uid;
    object_kind = coalesce-Filled inc.involved_object_kind old.involved_object_kind;
    object_name = coalesce-Filled inc.involved_object_name old.involved_object_name;
    reason = coalesce-Filled inc.reason old.reason;
    object_namespace = coalesce-Filled inc.involved_object_namespace old.involved_object_namespace;
    message = coalesce_bytes-filled inc.message old.message;
    provider = coalesce-Filled inc.llm_provider old.llm_provider;
    model = coalesce-Filled inc.llm_model old.llm_model;
    created = refl;
    updated = refl;
    persisted = refl;
    prompt_redacted = refl;
    tokens = refl;
    started = refl;
    completed = refl;
  },
)

-- two rows with different keys miss one another either way
unmatched :
    (old new : Incident)
    → is_incident new.namespace new.name old ≡ false
    → is_incident old.namespace old.name new ≡ false
unmatched old new miss = ground (
  arith,
  eq_iff old.namespace new.namespace,
  eq_iff new.namespace old.namespace,
  eq_iff old.name new.name,
  eq_iff new.name old.name,
)

upsert_row-UniqueKeys :
    (new : Incident) (rows : List Incident) → UniqueKeys rows → UniqueKeys (upsert_row new rows)
unfolding upsert_row find_incident
upsert_row-UniqueKeys new [] u = (refl, tt)
upsert_row-UniqueKeys new (old ∷ rest) u =
    elim (Bool-cases (is_incident new.namespace new.name old)) [
      | inl hit ↦ rw hit (unfold merge_row in u)
      | inr miss ↦ rw miss (
        rw (find-upsert_row old.namespace old.name new rest)
            (ground (arith, u.0, unmatched old new miss)),
        upsert_row-UniqueKeys new rest u.1,
      )
    ]

-- The constraint UNIQUE(namespace, name) is kept by every upsert, refused or not.
pub upsert-UniqueKeys :
    (fault : Option Error) (now : ℕ) (inc : Incident) (db : Db)
    → UniqueKeys db.incidents
    → UniqueKeys (upsert_incident fault now inc db).1.incidents
unfolding upsert_incident
upsert-UniqueKeys (some e) now inc db u = u
upsert-UniqueKeys none now inc db u = upsert_row-UniqueKeys (new_row now inc) db.incidents u
