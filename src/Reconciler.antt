-- ===== src/Reconciler.antt =====
-- internal/controller/kscribediagnosis_controller.go: one diagnosis from Pending to its end.
--
-- `Reconciler` holds what the reconciler is given: the API client, the store, the agent's parts, the
-- snapshot builder (none without a clientset), and, for the libraries that it calls, the parameters
-- `set_condition` (apimeta.SetStatusCondition), `retry_on_conflict` (client-go) and the JSON encoders.
-- The outside world is `W`. The instants that one call reads, and its random jitter, are `Readings`.
-- Notifications are sent from a goroutine of their own: `notify` starts one.
pub mod Marks
pub mod Conclude
pub mod Flow
pub mod Ordering
pub mod Durable
pub mod Due
pub mod Gate
mod Tests
use kscribe.Prelude.{
  Bool, Bytes, List, Option, String, [], any_of, bytes, if◌then◌else◌, leb, none, not, some, true,
  ℕ, ℤ, ◌&&◌, ◌*◌, ◌++◌, ◌+◌, ◌==◌, ◌∷◌,
}
use Prim.Native.String.{◌++◌ as append}
use kscribe.Api.{
  DiagnosisPhase, unset, pending, diagnosing, done, partial, failed, phase_string, Condition,
  condition_persisted, KscribeDiagnosis,
}
use kscribe.Errors.{Error, wrap, Result, ok, err}
use kscribe.Cluster.{Client}
use kscribe.Agent.Schema.{RcaResult, ToolDefinition, Provider, ToolExecutor}
use kscribe.Agent.{TraceStep, Outcome}
use kscribe.Enricher.{ObjectRef, Snapshot, Patterns}
use kscribe.Notify.{Notification}
use kscribe.Store.Schema.{Incident, Diagnosis}

-- The collectors of internal/metrics that this file feeds.
pub data Metric : Type 0 where
  diagnoses_total : String → Metric
  diagnoses_throttled_total : Metric
  llm_request_seconds : String → ℕ → Metric
  llm_tokens_total : String → String → ℤ → Metric

-- What InsertDiagnosis encodes: the RCA, or a map with the error.
pub data RcaPayload : Type 0 where
  rca_payload : RcaResult → RcaPayload
  error_payload : Bytes → RcaPayload

pub record Reconciler (W : Type 0) : Type 0 where
  pub client : Client W
  pub upsert_incident : Incident → W → Option Error × W
  pub insert_diagnosis : Diagnosis → RcaPayload → W → Option Error × W
  pub agent_provider : Provider W
  pub tool_executor : Option (ToolExecutor W)
  pub tools : List ToolDefinition
  pub unmarshal_rca : Bytes → Result RcaResult
  pub build_snapshot : Option (ObjectRef → W → Result Snapshot × W)
  pub patterns : Patterns
  pub marshal_snapshot : Snapshot → Result Bytes
  pub marshal_trace : List TraceStep → Bytes
  pub publish : Option (String → Bytes → W → W)
  pub notify : Option (Notification → W → W)
  pub observe : Metric → W → W
  pub set_condition : List Condition → Condition → List Condition
  pub retry_on_conflict : (W → Option Error × W) → W → Option Error × W
  pub llm_provider : String
  pub llm_model : String
  pub max_iter : ℤ

pub record Readings : Type 0 where
  pub checked_at : ℕ
  pub allowed_at : ℕ
  pub started_at : ℕ
  pub elapsed : ℕ
  pub completed_at : ℕ
  pub jitter : ℕ

-- ctrl.Result with the error
pub record Reply : Type 0 where
  pub requeue_after : ℕ
  pub error : Option Error

abbrev pub minute : ℕ
minute = 60 * 1000000000

abbrev pub diagnosing_recovery_after : ℕ
diagnosing_recovery_after = 10 * minute

abbrev pub reply_with : Option Error → Reply
reply_with e = record { requeue_after = 0; error = e }

-- fmt.Errorf with a prefix, where there is an error
abbrev pub wrapped : String → Option Error → Option Error
wrapped prefix none = none
wrapped prefix (some e) = some (wrap (bytes prefix) e)

unfoldable pub incident_from_diagnosis : KscribeDiagnosis → Incident
incident_from_diagnosis kd = record {
  namespace = kd.namespace;
  name = kd.name;
  event_uid = kd.spec.event_uid;
  involved_object_kind = kd.spec.involved_object_kind;
  involved_object_name = kd.spec.involved_object_name;
  involved_object_namespace = kd.spec.involved_object_namespace;
  reason = kd.spec.reason;
  message = kd.spec.message;
  phase = phase_string kd.status.phase;
  started_at = kd.status.started_at;
  completed_at = kd.status.completed_at;
  llm_provider = kd.status.llm_provider;
  llm_model = kd.status.llm_model;
  tokens_used = kd.status.tokens_used;
  prompt_redacted = kd.status.prompt_redacted;
  persisted = kd.status.persisted;
  created_at = none;
  updated_at = kd.status.completed_at;
}

abbrev pub is_storage_error : Condition → Bool
is_storage_error c = c.kind == condition_persisted && not c.status && c.reason == "StorageError"

unfoldable pub has_storage_error : KscribeDiagnosis → Bool
has_storage_error kd = any_of is_storage_error kd.status.conditions

-- now.Sub(startedAt) >= 10 minutes
abbrev pub stale_since : Option ℕ → ℕ → Bool
stale_since none now = true
stale_since (some t) now = leb (t + diagnosing_recovery_after) now

unfoldable pub diagnosis_is_stale : KscribeDiagnosis → ℕ → Bool
diagnosis_is_stale kd now = stale_since kd.status.started_at now

-- What the switch on the phase decides.
pub data Decision : Type 0 where
  proceed mirror skip : Decision

abbrev pub decide_phase : DiagnosisPhase → KscribeDiagnosis → ℕ → Decision
decide_phase unset kd now = proceed
decide_phase pending kd now = proceed
decide_phase diagnosing kd now =
    if kd.status.persisted
    then mirror
    else if not (has_storage_error kd) && not (diagnosis_is_stale kd now)
    then skip
    else proceed
decide_phase done kd now = mirror
decide_phase partial kd now = mirror
decide_phase failed kd now = mirror

unfoldable pub decide : KscribeDiagnosis → ℕ → Decision
decide kd now = decide_phase kd.status.phase kd now

abbrev pub remediation_steps : Outcome → List Bytes
remediation_steps o = elim o.rca [ none ↦ [] | some rca ↦ rca.remediation_steps ]

-- strings.Join(steps, "; ")
unfoldable pub join_steps : List Bytes → Bytes
join_steps [] = []
join_steps (s ∷ []) = s
join_steps (s ∷ (t ∷ rest)) = s ++ (bytes "; " ++ join_steps (t ∷ rest))

abbrev pub span_of : String → Bytes
span_of phase =
    bytes "<span data-phase=\""
    ++ (bytes phase ++ (bytes "\">" ++ (bytes phase ++ bytes "</span>")))

module _ {W : Type 0} (r : Reconciler W) where
  abbrev pub effective_llm_provider : KscribeDiagnosis → String
  effective_llm_provider kd =
      if kd.spec.llm_provider == "" then r.llm_provider else kd.spec.llm_provider

  abbrev pub effective_llm_model : KscribeDiagnosis → String
  effective_llm_model kd = if kd.spec.llm_model == "" then r.llm_model else kd.spec.llm_model

  -- publish and notifyTerminal do nothing where nothing is wired
  abbrev pub publish_if : Option (String → Bytes → W → W) → String → Bytes → W → W
  publish_if none id html w = w
  publish_if (some send) id html w = send id html w

  abbrev pub notify_if : Option (Notification → W → W) → Notification → W → W
  notify_if none n w = w
  notify_if (some send) n w = send n w

  unfoldable pub notify_terminal :
      KscribeDiagnosis → DiagnosisPhase → Bytes → Bytes → List Bytes → W → W
  notify_terminal kd phase summary root_cause remediation w =
      notify_if r.notify
        (record {
          phase = phase_string phase;
          reason = kd.spec.reason;
          namespace = kd.spec.involved_object_namespace;
          object = kd.spec.involved_object_name;
          summary = summary;
          root_cause = root_cause;
          remediation = remediation;
        })
        w

  unfoldable pub publish_phase : String → String → DiagnosisPhase → W → W
  publish_phase namespace name phase w =
      publish_if r.publish (append namespace (append "/" name)) (span_of (phase_string phase)) w

  -- one attempt: re-fetch, mutate, update
  abbrev pub after_fetch :
      (KscribeDiagnosis → KscribeDiagnosis) → Result KscribeDiagnosis → W → Option Error × W
  after_fetch mutate (err e) w = (some e, w)
  after_fetch mutate (ok cur) w = r.client.update_status (mutate cur) w

  unfoldable pub patch_once :
      String → String → (KscribeDiagnosis → KscribeDiagnosis) → W → Option Error × W
  patch_once namespace name mutate w =
      let (answer, w') = r.client.get_diagnosis namespace name w in after_fetch mutate answer w'

  unfoldable pub patch_status :
      String → String → (KscribeDiagnosis → KscribeDiagnosis) → W → Option Error × W
  patch_status namespace name mutate = r.retry_on_conflict (patch_once namespace name mutate)
