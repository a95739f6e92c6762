-- ===== src/Enricher.antt =====
-- internal/enricher/payload.go and redactor.go: the context collected for a diagnosis, and its
-- redaction before it is serialized.
--
-- The regular expressions are the parameter `replace_all`, one function for each rule, and
-- `sensitive_key`; JSON is the parameter `marshal`. The redaction in place is a function to the new
-- snapshot; a map's values are redacted key by key.
pub mod Redaction
pub mod Parts
pub mod Builder
mod Tests
use kscribe.Prelude.{
  Bool, Bytes, List, Option, String, StringMap, [], bytes, if◌then◌else◌, map, ℤ, ◌∷◌,
}
use mathlib.Core.Option
use kscribe.Errors.{Result}

pub record EnvVar : Type 0 where
  pub name : String
  pub value : Bytes

pub record PodLog : Type 0 where
  pub container_name : String
  pub lines : Bytes

pub record PodContext : Type 0 where
  pub pod_name : String
  pub node_name : String
  pub phase : String
  pub annotations : StringMap Bytes
  pub env_vars : List EnvVar
  pub logs : List PodLog

pub record EventSummary : Type 0 where
  pub name : String
  pub reason : String
  pub message : Bytes
  pub count : ℤ

pub record NodeCondition : Type 0 where
  pub node_name : String
  pub kind : String
  pub status : String
  pub message : Bytes

pub record DeploymentStatus : Type 0 where
  pub name : String
  pub replicas : ℤ
  pub ready_replicas : ℤ
  pub available_replicas : ℤ
  pub conditions : List Bytes

pub record ReplicaSetStatus : Type 0 where
  pub name : String
  pub replicas : ℤ
  pub ready_replicas : ℤ
  pub conditions : List Bytes

-- `partly` is the list `Partial` of collection failures.
pub record Snapshot : Type 0 where
  pub event_uid : String
  pub reason : String
  pub message : Bytes
  pub namespace : String
  pub object_kind : String
  pub object_name : String
  pub pod_contexts : List PodContext
  pub related_events : List EventSummary
  pub node_conditions : List NodeCondition
  pub deployment_status : Option DeploymentStatus
  pub replica_set_status : Option ReplicaSetStatus
  pub partly : List Bytes

-- The involved object of an event, from which a snapshot is built.
pub record ObjectRef : Type 0 where
  pub kind : String
  pub namespace : String
  pub name : String
  pub event_uid : String
  pub reason : String
  pub message : Bytes

unfoldable pub redacted_placeholder : Bytes
redacted_placeholder = bytes "***REDACTED***"

-- The rules, in the order in which they are applied.
pub data Rule : Type 0 where
  bearer_token aws_access_key pem_block connection_string basic_auth_url key_value json_quoted jwt
        github_token google_api_key slack_token aws_secret_key :
      Rule

unfoldable pub rules : List Rule
rules =
    bearer_token ∷ aws_access_key ∷ pem_block ∷ connection_string ∷ basic_auth_url ∷ key_value
    ∷ json_quoted ∷ jwt ∷ github_token ∷ google_api_key ∷ slack_token ∷ aws_secret_key ∷ []

-- regexp: ReplaceAllLiteralString at each rule, and MatchString of the sensitive names
pub record Patterns : Type 0 where
  pub replace_all : Rule → Bytes → Bytes → Bytes
  pub sensitive_key : String → Bool

module _ (x : Patterns) where
  unfoldable pub redact_with : List Rule → Bytes → Bytes
  redact_with [] s = s
  redact_with (r ∷ rest) s = redact_with rest (x.replace_all r s redacted_placeholder)

  unfoldable pub redact : Bytes → Bytes
  redact s = redact_with rules s

  unfoldable pub redact_env_value : String → Bytes → Bytes
  redact_env_value name value = if x.sensitive_key name then redacted_placeholder else redact value

  unfoldable pub redact_pod : PodContext → PodContext
  redact_pod pc = record pc {
    annotations = map (λ (a : String × Bytes). (a.0, redact a.1)) pc.annotations;
    env_vars =
        map (λ (e : EnvVar). record e { value = redact_env_value e.name e.value }) pc.env_vars;
    logs = map (λ (l : PodLog). record l { lines = redact l.lines }) pc.logs;
  }

  unfoldable pub redact_deployment : DeploymentStatus → DeploymentStatus
  redact_deployment d = record d { conditions = map redact d.conditions }

  unfoldable pub redact_replica_set : ReplicaSetStatus → ReplicaSetStatus
  redact_replica_set r = record r { conditions = map redact r.conditions }

  unfoldable pub redact_snapshot : Snapshot → Snapshot
  unfolding redact_pod redact_deployment redact_replica_set
  redact_snapshot s = record s {
    message = redact s.message;
    pod_contexts = map redact_pod s.pod_contexts;
    related_events =
        map (λ (e : EventSummary). record e { message = redact e.message }) s.related_events;
    node_conditions =
        map (λ (c : NodeCondition). record c { message = redact c.message }) s.node_conditions;
    deployment_status = Option.map redact_deployment s.deployment_status;
    replica_set_status = Option.map redact_replica_set s.replica_set_status;
  }

  unfoldable pub encode_snapshot : (Snapshot → Result Bytes) → Snapshot → Result Bytes
  encode_snapshot marshal s = marshal (redact_snapshot s)
