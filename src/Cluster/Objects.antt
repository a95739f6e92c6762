-- ===== src/Cluster/Objects.antt =====
-- The Kubernetes objects from which the context of a diagnosis is collected, with the fields that the
-- program reads, and the reads themselves: those of controller-runtime's client and the log streams of
-- client-go, as operations on a state `W` of the outside world.
use kscribe.Prelude.{Bool, Bytes, List, Option, String, StringMap, ℤ}
use kscribe.Errors.{Error, Result}
use kscribe.Cluster.{Event}

-- corev1.EnvVar; `from` is whether ValueFrom is set.
pub record ContainerEnv : Type 0 where
  pub name : String
  pub value : Bytes
  pub from : Bool

pub record Container : Type 0 where
  pub name : String
  pub env : List ContainerEnv

pub record Pod : Type 0 where
  pub name : String
  pub node_name : String
  pub phase : String
  pub annotations : StringMap Bytes
  pub containers : List Container

-- A condition of a node, a deployment or a replica set.
pub record ObjectCondition : Type 0 where
  pub kind : String
  pub status : String
  pub message : Bytes

-- `capacity` is in the order in which a loop over the map visits it.
pub record Node : Type 0 where
  pub conditions : List ObjectCondition
  pub capacity : StringMap Bytes

-- metav1.LabelSelectorRequirement
pub record LabelSelectorRequirement : Type 0 where
  pub key : String
  pub operator : String
  pub values : List String

-- metav1.LabelSelector, and the selector that is made from it
pub record LabelSelector : Type 0 where
  pub match_labels : StringMap String
  pub match_expressions : List LabelSelectorRequirement

pub record Workload : Type 0 where
  pub name : String
  pub replicas : ℤ
  pub ready_replicas : ℤ
  pub available_replicas : ℤ
  pub conditions : List ObjectCondition
  pub selector : Option LabelSelector

-- corev1.PodLogOptions with the pod
pub record LogOptions : Type 0 where
  pub namespace : String
  pub pod : String
  pub container : String
  pub tail_lines : ℤ

-- The bytes that an open stream gives, and the error in which it then ends, if any.
pub record LogStream : Type 0 where
  pub content : Bytes
  pub failure : Option Error

-- A stream is opened or refused; a misbehaving client panics with a value, here its text.
pub data Opening : Type 0 where
  opened : LogStream → Opening
  refused : Error → Opening
  panicked : Bytes → Opening

pub record Reader (W : Type 0) : Type 0 where
  pub list_events : String → W → Result (List Event) × W
  pub get_pod : String → String → W → Result Pod × W
  pub get_deployment : String → String → W → Result Workload × W
  pub get_replica_set : String → String → W → Result Workload × W
  pub list_pods : String → LabelSelector → W → Result (List Pod) × W
  pub get_node : String → W → Result Node × W
  pub open_logs : LogOptions → W → Opening × W
