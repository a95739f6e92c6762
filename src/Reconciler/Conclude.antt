-- ===== src/Reconciler/Conclude.antt =====
-- The second half of `Reconcile` of internal/controller/kscribediagnosis_controller.go: the context, the
-- run of the agent, and what is written of its outcome.
use kscribe.Prelude.{
  Bool, Bytes, Option, String, [], bytes, false, if◌then◌else◌, is_empty, none, some, true, ℕ, ℤ,
  ◌*◌,
}
use kscribe.Api.{DiagnosisPhase, failed, phase_string, KscribeDiagnosis}
use kscribe.Errors.{Error, Result, ok, err}
use kscribe.Agent.{Outcome, DiagnosisAgent, run}
use kscribe.Enricher.{ObjectRef, Snapshot, encode_snapshot}
use kscribe.Store.Schema.{Incident, Diagnosis}
use kscribe.Reconciler.{
  diagnoses_total, llm_request_seconds, llm_tokens_total, RcaPayload, rca_payload, error_payload,
  Reconciler, Readings, Reply, reply_with, remediation_steps, join_steps, notify_terminal,
  publish_phase, patch_status,
}
use kscribe.Reconciler.Marks.{
  rca_summary, rca_root_cause, mark_failed, mark_storage_error, mark_finished,
}

-- The incident of a run in progress; `completed_at`, the tokens and the flag are set at its end.
abbrev pub run_incident :
    KscribeDiagnosis → DiagnosisPhase → ℕ → Option ℕ → String → String → ℤ → Bool → Incident
run_incident kd phase started completed provider model tokens persisted = record {
  namespace = kd.namespace;
  name = kd.name;
  event_uid = kd.spec.event_uid;
  involved_object_kind = kd.spec.involved_object_kind;
  involved_object_name = kd.spec.involved_object_name;
  involved_object_namespace = kd.spec.involved_object_namespace;
  reason = kd.spec.reason;
  message = kd.spec.message;
  phase = phase_string phase;
  started_at = some started;
  completed_at = completed;
  llm_provider = provider;
  llm_model = model;
  tokens_used = tokens;
  prompt_redacted = false;
  persisted = persisted;
  created_at = none;
  updated_at = none;
}

-- The snapshot with nothing but the spec.
abbrev pub minimal_snapshot : KscribeDiagnosis → Snapshot
minimal_snapshot kd = record {
  event_uid = kd.spec.event_uid;
  reason = kd.spec.reason;
  message = kd.spec.message;
  namespace = kd.spec.involved_object_namespace;
  object_kind = kd.spec.involved_object_kind;
  object_name = kd.spec.involved_object_name;
  pod_contexts = [];
  related_events = [];
  node_conditions = [];
  deployment_status = none;
  replica_set_status = none;
  partly = [];
}

module _ {W : Type 0} (r : Reconciler W) where
  -- the row of the final write, and its payload
  abbrev confidence_of : Outcome → ℕ
  confidence_of outcome = elim outcome.rca [ none ↦ 0 | some rca ↦ rca.confidence ]

  abbrev remediation_of : Outcome → Bytes
  remediation_of outcome = elim outcome.rca [
    | none ↦ []
    | some rca ↦ join_steps rca.remediation_steps
  ]

  unfoldable pub diagnosis_row : KscribeDiagnosis → Bytes → Outcome → Diagnosis
  diagnosis_row kd snapshot outcome =
      let trace = r.marshal_trace outcome.trace in
      record {
        id = 0;
        namespace = kd.namespace;
        name = kd.name;
        event_uid = kd.spec.event_uid;
        rca_json = [];
        summary = rca_summary outcome [];
        root_cause = rca_root_cause outcome [];
        remediation = remediation_of outcome;
        confidence = confidence_of outcome;
        created_at = 0;
        context_json = snapshot;
        reasoning = outcome.reasoning;
        trace_json = if is_empty trace then bytes "[]" else trace;
      }

  abbrev pub payload_of : Outcome → RcaPayload
  payload_of outcome = elim outcome.rca [
    | none ↦ error_payload outcome.raw_error
    | some rca ↦ rca_payload rca
  ]

  -- `namespace` and `name` are those of the request.
  module _ (t : Readings) (namespace name : String) (kd : KscribeDiagnosis)
      (provider model : String) where
    -- a provider failure: the audit fields and the phase Failed
    unfoldable pub record_failure : Outcome → W → Reply × W
    record_failure outcome w =
        let (ignored, w1) =
          r.upsert_incident
            (run_incident kd failed t.started_at (some t.completed_at) provider model
              outcome.tokens_used false)
            w in
        let w2 = r.observe (diagnoses_total "failed") w1 in
        let w3 = notify_terminal r kd failed [] outcome.raw_error [] w2 in
        let w4 = publish_phase r namespace name failed w3 in
        let (failure, w5) =
          patch_status r namespace name (mark_failed r t.completed_at provider model outcome) w4 in
        (reply_with failure, w5)

    -- strings.ToLower(phase)
    abbrev outcome_label : DiagnosisPhase → String
    outcome_label DiagnosisPhase.done = "done"
    outcome_label DiagnosisPhase.partial = "partial"
    outcome_label DiagnosisPhase.failed = "failed"
    outcome_label DiagnosisPhase.pending = "pending"
    outcome_label DiagnosisPhase.diagnosing = "diagnosing"
    outcome_label DiagnosisPhase.unset = ""

    -- steps 3 and 4: the row is written before the status says so
    unfoldable pub after_insert : Diagnosis → Outcome → Option Error → W → Reply × W
    after_insert d outcome (some e) w =
        let (ignored, w1) = patch_status r namespace name (mark_storage_error r e) w in
        (record { requeue_after = 30 * 1000000000; error = some e }, w1)
    after_insert d outcome none w =
        let (ignored, w1) =
          r.upsert_incident
            (run_incident kd outcome.phase t.started_at (some t.completed_at) provider model
              outcome.tokens_used true)
            w in
        let w2 = r.observe (diagnoses_total (outcome_label outcome.phase)) w1 in
        let w3 =
          notify_terminal r kd outcome.phase d.summary d.root_cause (remediation_steps outcome)
            w2 in
        let w4 = publish_phase r namespace name outcome.phase w3 in
        let (failure, w5) =
          patch_status r namespace name (mark_finished r t.completed_at provider model outcome)
            w4 in
        (reply_with failure, w5)

    unfoldable pub persist : Bytes → Outcome → W → Reply × W
    persist snapshot outcome w =
        let d = diagnosis_row kd snapshot outcome in
        let (failure, w1) = r.insert_diagnosis d (payload_of outcome) w in
        after_insert d outcome failure w1

    abbrev pub is_failed : DiagnosisPhase → Bool
    is_failed DiagnosisPhase.failed = true
    is_failed _ = false

    unfoldable pub conclude : Bytes → Outcome → W → Reply × W
    conclude snapshot outcome w =
        if is_failed outcome.phase then record_failure outcome w else persist snapshot outcome w

    abbrev iterations : Option ℤ → ℤ
    iterations none = r.max_iter
    iterations (some n) = n

    unfoldable pub agent_of : DiagnosisAgent W
    agent_of = record {
      provider = r.agent_provider;
      executor = r.tool_executor;
      tools = r.tools;
      max_iter = iterations kd.spec.max_iterations;
      unmarshal = r.unmarshal_rca;
    }

    -- step 2: the run, its metrics, and what follows
    unfoldable pub diagnose : Bytes → W → Reply × W
    diagnose snapshot w =
        let (outcome, w1) = run agent_of snapshot w in
        let w2 = r.observe (llm_request_seconds provider t.elapsed) w1 in
        let w3 = r.observe (llm_tokens_total provider model outcome.tokens_used) w2 in
        conclude snapshot outcome w3

    abbrev pub or_braces : Result Bytes → Bytes
    or_braces (ok json) = json
    or_braces (err e) = bytes "{}"

    abbrev or_minimal : Result Snapshot → Snapshot
    or_minimal (ok s) = s
    or_minimal (err e) = minimal_snapshot kd

    abbrev pub built : Option (ObjectRef → W → Result Snapshot × W) → W → Snapshot × W
    built none w = (minimal_snapshot kd, w)
    built (some build) w =
        let (answer, w') =
          build
            (record {
              kind = kd.spec.involved_object_kind;
              namespace = kd.spec.involved_object_namespace;
              name = kd.spec.involved_object_name;
              event_uid = kd.spec.event_uid;
              reason = kd.spec.reason;
              message = kd.spec.message;
            })
            w in
        (or_minimal answer, w')

    unfoldable pub enrich_and_diagnose : W → Reply × W
    enrich_and_diagnose w =
        let (snapshot, w1) = built r.build_snapshot w in
        diagnose (or_braces (encode_snapshot r.patterns r.marshal_snapshot snapshot)) w1
