-- ===== src/Watcher.antt =====
-- internal/controller/event_watcher.go: from a Warning event to one KscribeDiagnosis.
--
-- The state of the watcher is its `Deduper`; the API server is the `Client` over `W`. A method
-- returns its error, if any, with the next states.
mod Names
pub mod Backfill
pub mod Events
mod Tests
unfoldable pub use Names.{event_key, fnv32a, hex8, diagnosis_name}
use kscribe.Prelude.{
  Bool, Bytes, List, Option, String, [], any_of, bytes, false, if◌then◌else◌, is_empty, is_zero,
  none, not, some, true, ℕ, ℤ, ◌&&◌, ◌==◌, ◌||◌, ◌∷◌,
}
use kscribe.Api.{KscribeDiagnosisSpec, KscribeDiagnosis, pending, empty_status}
use kscribe.Config.{Config}
use kscribe.Cluster.{
  Error, wrap, is_already_exists, ignore_not_found, Result, ok, err, Event, event_type_warning,
  Client,
}
use kscribe.Dedup.{Deduper, should_process}
use kscribe.Policy.{ResolvedPolicy, resolve_policy}

-- EventWatcherDeps, less the client and the deduper
pub record Deps : Type 0 where
  pub operator_namespace : String
  pub cfg : Config

-- true if `reason` stands in the list, or the list is empty
unfoldable pub reason_allowed : String → List String → Bool
reason_allowed reason [] = true
reason_allowed reason (a ∷ rest) = any_of (λ x. x == reason) (a ∷ rest)

-- The object that `createDiagnosis` builds.
unfoldable pub diagnosis_of_event : Deps → Event → ResolvedPolicy → KscribeDiagnosis
diagnosis_of_event deps ev policy = record {
  namespace = if deps.operator_namespace == "" then ev.namespace else deps.operator_namespace;
  name = diagnosis_name ev;
  generation = 0;
  creation_timestamp = 0;
  labels =
      ("kscribe.amjadjibon.dev/event-namespace", ev.namespace)
      ∷ ("kscribe.amjadjibon.dev/reason", ev.reason)
      ∷ [];
  spec = record {
    involved_object_name = ev.involved_object.name;
    involved_object_namespace = ev.involved_object.namespace;
    involved_object_kind = ev.involved_object.kind;
    reason = ev.reason;
    message = ev.message;
    event_uid = ev.uid;
    count = ev.count;
    first_timestamp = ev.first_timestamp;
    last_timestamp = ev.last_timestamp;
    policy_ref = policy.policy_ref;
    llm_provider = policy.llm_provider;
    llm_model = policy.llm_model;
    llm_base_url = policy.llm_base_url;
    max_iterations = policy.max_iterations;
    redact = policy.redact;
  };
  status = record empty_status { phase = pending };
}

-- setString: an empty field takes a value that is not empty, and the flag records the change.
abbrev pub fill_string : String → String → String × Bool
fill_string field value = if field == "" && not (value == "") then (value, true) else (field, false)

abbrev pub fill_bytes : Bytes → Bytes → Bytes × Bool
fill_bytes field value =
    if is_empty field && not (is_empty value) then (value, true) else (field, false)

abbrev pub fill_count : ℤ → ℤ → ℤ × Bool
fill_count field value =
    if is_zero field && not (is_zero value) then (value, true) else (field, false)

abbrev pub fill_option {ℓ} : {A : Type ℓ} → Option A → Option A → Option A × Bool
fill_option none none = (none, false)
fill_option none (some value) = (some value, true)
fill_option (some field) value = (some field, false)

-- The spec with its missing fields filled, and whether any changed.
unfoldable pub backfill_spec :
    KscribeDiagnosisSpec → Event → ResolvedPolicy → KscribeDiagnosisSpec × Bool
backfill_spec s ev policy =
    let (object_name, c1) = fill_string s.involved_object_name ev.involved_object.name in
    let (object_ns, c2) = fill_string s.involved_object_namespace ev.involved_object.namespace in
    let (object_kind, c3) = fill_string s.involved_object_kind ev.involved_object.kind in
    let (reason, c4) = fill_string s.reason ev.reason in
    let (message, c5) = fill_bytes s.message ev.message in
    let (uid, c6) = fill_string s.event_uid ev.uid in
    let (ref, c7) = fill_string s.policy_ref policy.policy_ref in
    let (provider, c8) = fill_string s.llm_provider policy.llm_provider in
    let (model, c9) = fill_string s.llm_model policy.llm_model in
    let (url, c10) = fill_string s.llm_base_url policy.llm_base_url in
    let (count, c11) = fill_count s.count ev.count in
    let (first, c12) = fill_option s.first_timestamp ev.first_timestamp in
    let (last, c13) = fill_option s.last_timestamp ev.last_timestamp in
    let (max, c14) = fill_option s.max_iterations policy.max_iterations in
    let (redact, c15) = fill_option s.redact policy.redact in
    (
      record {
        involved_object_name = object_name;
        involved_object_namespace = object_ns;
        involved_object_kind = object_kind;
        reason = reason;
        message = message;
        event_uid = uid;
        count = count;
        first_timestamp = first;
        last_timestamp = last;
        policy_ref = ref;
        llm_provider = provider;
        llm_model = model;
        llm_base_url = url;
        max_iterations = max;
        redact = redact;
      },
      c1 || c2 || c3 || c4 || c5 || c6 || c7 || c8 || c9 || c10 || c11 || c12 || c13 || c14 || c15,
    )

module _ {W : Type 0} (client : Client W) (deps : Deps) where
  abbrev after_refetch : Event → ResolvedPolicy → Result KscribeDiagnosis → W → Option Error × W
  after_refetch ev policy (err e) w = (ignore_not_found e, w)
  after_refetch ev policy (ok existing) w =
      let (spec, changed) = backfill_spec existing.spec ev policy in
      if changed then client.update_diagnosis (record existing { spec = spec }) w else (none, w)

  unfoldable pub backfill_existing_diagnosis :
      String → String → Event → ResolvedPolicy → W → Option Error × W
  backfill_existing_diagnosis namespace name ev policy w =
      let (answer, w') = client.get_diagnosis namespace name w in after_refetch ev policy answer w'

  abbrev after_create :
      Event → ResolvedPolicy → KscribeDiagnosis → Option Error → W → Option Error × W
  after_create ev policy ksd none w = (none, w)
  after_create ev policy ksd (some e) w =
      if is_already_exists e
      then backfill_existing_diagnosis ksd.namespace ksd.name ev policy w
      else (some e, w)

  unfoldable pub create_diagnosis : Event → ResolvedPolicy → W → Option Error × W
  create_diagnosis ev policy w =
      let ksd = diagnosis_of_event deps ev policy in
      let (failure, w') = client.create_diagnosis ksd w in after_create ev policy ksd failure w'

  abbrev after_policy : Event → Result ResolvedPolicy → W → Option Error × W
  after_policy ev (err e) w = (some (wrap (bytes "resolve policy: ") e), w)
  after_policy ev (ok policy) w =
      if policy.enabled
      then (if reason_allowed ev.reason policy.event_reasons
          then create_diagnosis ev policy w
          else (none, w))
      else (none, w)

  -- The part behind the type and duplicate checks.
  unfoldable pub ingest : Event → W → Option Error × W
  ingest ev w =
      let (policy, w') = resolve_policy client ev.namespace deps.operator_namespace deps.cfg w in
      after_policy ev policy w'

  unfoldable pub process_event : Event → ℕ → Deduper → W → Option Error × (Deduper × W)
  process_event ev now d w =
      if ev.kind == event_type_warning
      then (let (d', fresh) = should_process d (event_key ev) now in
          if fresh
          then (let (failure, w') = ingest ev w in (failure, (d', w')))
          else (none, (d', w)))
      else (none, (d, w))

  abbrev after_get : Result Event → ℕ → Deduper → W → Option Error × (Deduper × W)
  after_get (err e) now d w = (ignore_not_found e, (d, w))
  after_get (ok ev) now d w = process_event ev now d w

  -- eventWatcher.Reconcile, for a request with its namespace and name
  unfoldable pub reconcile_event : String → String → ℕ → Deduper → W → Option Error × (Deduper × W)
  reconcile_event namespace name now d w =
      let (answer, w') = client.get_event namespace name w in after_get answer now d w'

-- warningEventPredicate: which watch notifications pass. `none` stands for an object that is not an
-- event.
pub data Notice : Type 0 where
  created updated deleted generic : Option Event → Notice

abbrev is_warning : Option Event → Bool
is_warning none = false
is_warning (some ev) = ev.kind == event_type_warning

unfoldable pub warning_event_predicate : Notice → Bool
warning_event_predicate (created o) = is_warning o
warning_event_predicate (updated o) = is_warning o
warning_event_predicate (deleted o) = false
warning_event_predicate (generic o) = is_warning o
