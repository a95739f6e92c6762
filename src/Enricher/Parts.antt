-- ===== src/Enricher/Parts.antt =====
-- internal/enricher/context_builder.go: the parts of a snapshot, each made from an object that the API
-- server returned, and the notes on failed reads.
use kscribe.Prelude.{
  Bool, Bytes, List, String, [], bytes, eqb, if◌then◌else◌, keep_if, leb, map, none, same_bytes,
  some, ℕ, ◌&&◌, ◌++◌, ◌+◌, ◌==◌, ◌∷◌,
}
use Prim.Native.Char.{code}
use kscribe.Cluster.{Event}
use kscribe.Cluster.Objects.{
  Container, ContainerEnv, Pod, ObjectCondition, Workload, LogStream, Opening, opened, refused,
  panicked,
}
use kscribe.Enricher.{
  EnvVar, PodContext, EventSummary, NodeCondition, DeploymentStatus, ReplicaSetStatus, Snapshot,
  redacted_placeholder, ObjectRef,
}
use kscribe.Errors.{Error, other, error_text, Result, ok, err}

-- The case folding of strings.EqualFold, as far as a text can become an ASCII one by it: the letters,
-- the long s and the Kelvin sign.
abbrev fold_code : ℕ → ℕ
fold_code c =
    if leb 65 c && leb c 90
    then c + 32
    else if eqb c 0x17f
    then 115
    else if eqb c 0x212a
    then 107
    else c

abbrev pub folded : String → Bytes
folded String.[] = []
folded (String.◌∷◌ c s) = fold_code (code c) ∷ folded s

-- strings.EqualFold of a text with an ASCII one
unfoldable pub equal_fold : String → String → Bool
equal_fold s t = same_bytes (folded s) (folded t)

-- s.Partial = append(s.Partial, text)
unfoldable pub note : Bytes → Snapshot → Snapshot
note text s = record s { partly = s.partly ++ text ∷ [] }

abbrev pub note_error : Bytes → Error → Snapshot → Snapshot
note_error what e s = note (what ++ bytes ": " ++ error_text e) s

abbrev pub env_var_of : ContainerEnv → EnvVar
env_var_of e = record {
  name = e.name;
  value = if e.from then redacted_placeholder ++ bytes " (from valueFrom)" else e.value;
}

unfoldable pub env_vars_of : List Container → List EnvVar
env_vars_of [] = []
env_vars_of (c ∷ rest) = map env_var_of c.env ++ env_vars_of rest

abbrev pub pod_context_from : Pod → PodContext
pod_context_from pod = record {
  pod_name = pod.name;
  node_name = pod.node_name;
  phase = pod.phase;
  annotations = pod.annotations;
  env_vars = env_vars_of pod.containers;
  logs = [];
}

abbrev pub event_summary : Event → EventSummary
event_summary ev = record {
  name = ev.name;
  reason = ev.reason;
  message = ev.message;
  count = ev.count;
}

abbrev pub node_condition : String → ObjectCondition → NodeCondition
node_condition name c = record {
  node_name = name;
  kind = c.kind;
  status = c.status;
  message = c.message;
}

abbrev pub condition_text : ObjectCondition → Bytes
condition_text c = bytes c.kind ++ bytes "=" ++ bytes c.status ++ bytes ": " ++ c.message

abbrev pub deployment_status_of : Workload → DeploymentStatus
deployment_status_of d = record {
  name = d.name;
  replicas = d.replicas;
  ready_replicas = d.ready_replicas;
  available_replicas = d.available_replicas;
  conditions = map condition_text d.conditions;
}

abbrev pub replica_set_status_of : Workload → ReplicaSetStatus
replica_set_status_of r = record {
  name = r.name;
  replicas = r.replicas;
  ready_replicas = r.ready_replicas;
  conditions = map condition_text r.conditions;
}

abbrev pub object_name : String → String → Bytes
object_name ns name = bytes ns ++ bytes "/" ++ bytes name

-- io.ReadAll
abbrev pub read_all : LogStream → Result Bytes
read_all s = elim s.failure [ none ↦ ok s.content | some e ↦ err e ]

-- A panic of the client is recovered and becomes an error.
abbrev pub logs_of : Opening → Result Bytes
logs_of (opened s) = read_all s
logs_of (refused e) = err e
logs_of (panicked value) = err (other (bytes "log stream panic: " ++ value))

abbrev pub after_logs :
    String → String → String → Snapshot → PodContext → Result Bytes → Snapshot × PodContext
after_logs ns pod container s pc (err e) = (
  note_error (bytes "logs " ++ object_name ns pod ++ bytes "[" ++ bytes container ++ bytes "]") e s,
  pc,
)
after_logs ns pod container s pc (ok lines) =
    (s, record pc { logs = pc.logs ++ (record { container_name = container; lines = lines }) ∷ [] })

abbrev pub new_snapshot : ObjectRef → Snapshot
new_snapshot ref = record {
  event_uid = ref.event_uid;
  reason = ref.reason;
  message = ref.message;
  namespace = ref.namespace;
  object_kind = ref.kind;
  object_name = ref.name;
  pod_contexts = [];
  related_events = [];
  node_conditions = [];
  deployment_status = none;
  replica_set_status = none;
  partly = [];
}

abbrev pub after_related :
    {W : Type 0} → ObjectRef → Snapshot → Result (List Event) × W → Snapshot × W
after_related ref s (err e, w) = (note_error (bytes "related events") e s, w)
after_related ref s (ok events, w) = (
  record s {
    related_events =
        s.related_events
        ++ map event_summary (keep_if (λ ev. ev.involved_object.name == ref.name) events);
  },
  w,
)

abbrev pub add_pod : {W : Type 0} → (Snapshot × PodContext) × W → Snapshot × W
add_pod ((s, pc), w) = (record s { pod_contexts = s.pod_contexts ++ pc ∷ [] }, w)
