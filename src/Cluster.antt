-- ===== src/Cluster.antt =====
-- The Kubernetes API as the program uses it: its errors, core v1 events, and the client's operations.
-- The server and its client library are not part of this repository: they are the record `Client`
-- over a state `W` of the outside world, whose operations return an answer and the next state.
pub mod Objects
use kscribe.Prelude.{Bytes, List, Option, String, ℕ, ℤ}
pub use kscribe.Errors.{
  Error, not_found, already_exists, conflict, other, wrap, is_not_found, is_already_exists,
  is_conflict, ignore_not_found, Result, ok, err,
}
unfoldable pub use kscribe.Errors.{error_text}
use kscribe.Api.{KscribeDiagnosis, DiagnosisPolicy}

pub record ObjectReference : Type 0 where
  pub kind : String
  pub namespace : String
  pub name : String

-- corev1.Event; a zero timestamp is `none`.
pub record Event : Type 0 where
  pub namespace : String
  pub name : String
  pub uid : String
  pub kind : String
  pub reason : String
  pub message : Bytes
  pub count : ℤ
  pub first_timestamp : Option ℕ
  pub last_timestamp : Option ℕ
  pub involved_object : ObjectReference

abbrev pub event_type_warning : String
event_type_warning = "Warning"

pub record Client (W : Type 0) : Type 0 where
  pub get_event : String → String → W → Result Event × W
  pub list_policies : String → W → Result (List DiagnosisPolicy) × W
  pub get_policy : String → String → W → Result DiagnosisPolicy × W
  pub get_diagnosis : String → String → W → Result KscribeDiagnosis × W
  pub list_diagnoses : W → Result (List KscribeDiagnosis) × W
  pub create_diagnosis : KscribeDiagnosis → W → Option Error × W
  pub update_diagnosis : KscribeDiagnosis → W → Option Error × W
  pub update_status : KscribeDiagnosis → W → Option Error × W
  pub delete_diagnosis : KscribeDiagnosis → W → Option Error × W
