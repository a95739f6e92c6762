-- ===== src/Api.antt =====
-- api/v1alpha1: the custom resources. `*metav1.Time` and `*T` are options; an instant is a number of
-- nanoseconds. Names, keys and reasons are `String`, free text is `Bytes`. Of `metav1.ObjectMeta` and
-- `metav1.Condition` the fields that the program sets or reads are kept.
use kscribe.Prelude.{Bool, Bytes, List, Option, String, StringMap, [], false, none, ℕ, ℤ}

-- The values that the CRD's enum admits, and the unset phase.
pub data DiagnosisPhase : Type 0 where
  unset pending diagnosing done partial failed : DiagnosisPhase

-- string(phase)
unfoldable pub phase_string : DiagnosisPhase → String
phase_string unset = ""
phase_string pending = "Pending"
phase_string diagnosing = "Diagnosing"
phase_string done = "Done"
phase_string partial = "Partial"
phase_string failed = "Failed"

abbrev pub condition_diagnosing : String
condition_diagnosing = "Diagnosing"

abbrev pub condition_diagnosed : String
condition_diagnosed = "Diagnosed"

abbrev pub condition_persisted : String
condition_persisted = "Persisted"

-- metav1.Condition; `status` is true for ConditionTrue and false for ConditionFalse.
pub record Condition : Type 0 where
  pub kind : String
  pub status : Bool
  pub reason : String
  pub message : Bytes
  pub observed_generation : ℕ

pub record KscribeDiagnosisSpec : Type 0 where
  pub involved_object_name : String
  pub involved_object_namespace : String
  pub involved_object_kind : String
  pub reason : String
  pub message : Bytes
  pub event_uid : String
  pub count : ℤ
  pub first_timestamp : Option ℕ
  pub last_timestamp : Option ℕ
  pub policy_ref : String
  pub llm_provider : String
  pub llm_model : String
  pub llm_base_url : String
  pub max_iterations : Option ℤ
  pub redact : Option Bool

pub record KscribeDiagnosisStatus : Type 0 where
  pub phase : DiagnosisPhase
  pub conditions : List Condition
  pub observed_generation : ℕ
  pub started_at : Option ℕ
  pub completed_at : Option ℕ
  pub summary : Bytes
  pub root_cause : Bytes
  pub llm_provider : String
  pub llm_model : String
  pub tokens_used : ℤ
  pub prompt_redacted : Bool
  pub persisted : Bool

pub record KscribeDiagnosis : Type 0 where
  pub namespace : String
  pub name : String
  pub generation : ℕ
  pub creation_timestamp : ℕ
  pub labels : StringMap String
  pub spec : KscribeDiagnosisSpec
  pub status : KscribeDiagnosisStatus

pub record DiagnosisPolicySpec : Type 0 where
  pub enabled : Option Bool
  pub event_reasons : List String
  pub llm_provider : String
  pub llm_model : String
  pub llm_base_url : String
  pub max_iterations : Option ℤ
  pub redact : Option Bool

pub record DiagnosisPolicy : Type 0 where
  pub namespace : String
  pub name : String
  pub spec : DiagnosisPolicySpec

-- The zero status of a new object.
abbrev pub empty_status : KscribeDiagnosisStatus
empty_status = record {
  phase = unset;
  conditions = [];
  observed_generation = 0;
  started_at = none;
  completed_at = none;
  summary = [];
  root_cause = [];
  llm_provider = "";
  llm_model = "";
  tokens_used = ℤ.pos 0;
  prompt_redacted = false;
  persisted = false;
}
