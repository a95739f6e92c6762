-- ===== src/Enricher/Builder.antt =====
-- internal/enricher/context_builder.go: the collection of a diagnosis's context.
--
-- The snapshot under construction and the state of the outside world are passed on. A failed read is a
-- text in the snapshot's list `partly` and does not stop the collection. Enricher/Parts has the parts of
-- a snapshot and the notes. `as_selector` is
-- metav1.LabelSelectorAsSelector, whose result is here the label selector it was made from.
pub mod Accounts
pub mod Extent
use kscribe.Prelude.{
  Bytes, List, Option, String, [], bytes, if◌then◌else◌, is_positive, map, none, pos_part, some,
  suc, zero, ℕ, ℤ, ◌++◌, ◌==◌, ◌∷◌,
}
use kscribe.Cluster.Objects.{Container, Pod, Node, LabelSelector, Workload, Reader}
use kscribe.Enricher.{PodContext, Snapshot, ObjectRef}
use kscribe.Errors.{Result, ok, err}
use kscribe.Enricher.Parts.{
  equal_fold, note, note_error, pod_context_from, node_condition, deployment_status_of,
  replica_set_status_of, object_name, logs_of, after_logs, new_snapshot, after_related, add_pod,
}

abbrev pub default_tail_lines : ℕ
default_tail_lines = 100

abbrev pub default_max_pods_per_workload : ℕ
default_max_pods_per_workload = 3

-- a setting, or its default where it is not positive
abbrev pub or_positive : ℤ → ℕ → ℕ
or_positive n default = if is_positive n then pos_part n else default

module _ {W : Type 0} (r : Reader W) (as_selector : LabelSelector → Result LabelSelector) where
  unfoldable pub stream_pod_logs : String → String → String → ℕ → W → Result Bytes × W
  stream_pod_logs ns pod container tail w =
      let (opening, w') =
        r.open_logs
          (record { namespace = ns; pod = pod; container = container; tail_lines = ℤ.pos tail })
          w in
      (logs_of opening, w')

  unfoldable pub fetch_logs_into_pod_context :
      String → String → ℕ → List Container → Snapshot → PodContext → W → (Snapshot × PodContext) × W
  fetch_logs_into_pod_context ns pod tail [] s pc w = ((s, pc), w)
  fetch_logs_into_pod_context ns pod tail (c ∷ rest) s pc w =
      let (answer, w') = stream_pod_logs ns pod c.name tail w in
      let (s', pc') = after_logs ns pod c.name s pc answer in
      fetch_logs_into_pod_context ns pod tail rest s' pc' w'

  abbrev pub after_node : String → Snapshot → Result Node × W → Snapshot × W
  after_node name s (err e, w) = (note_error (bytes "node " ++ bytes name) e s, w)
  after_node name s (ok node, w) = (
    record s { node_conditions = s.node_conditions ++ map (node_condition name) node.conditions },
    w,
  )

  unfoldable pub collect_node_conditions : String → Snapshot → W → Snapshot × W
  collect_node_conditions name s w = after_node name s (r.get_node name w)

  abbrev pub node_if_named : String → Snapshot × W → Snapshot × W
  node_if_named name (s, w) = if name == "" then (s, w) else collect_node_conditions name s w

  -- one pod: its static context, its logs and its node
  unfoldable pub collect_pod : String → ℕ → Pod → Snapshot → W → Snapshot × W
  collect_pod ns tail pod s w = node_if_named pod.node_name (
      add_pod
        (fetch_logs_into_pod_context ns pod.name tail pod.containers s (pod_context_from pod) w))

  abbrev pub after_pod : String → String → ℕ → Snapshot → Result Pod × W → Snapshot × W
  after_pod ns name tail s (err e, w) = (note_error (bytes "pod " ++ object_name ns name) e s, w)
  after_pod ns name tail s (ok pod, w) = collect_pod ns tail pod s w

  unfoldable pub collect_single_pod : String → String → ℕ → Snapshot → W → Snapshot × W
  collect_single_pod ns name tail s w = after_pod ns name tail s (r.get_pod ns name w)

  -- The loop over the pods, which stops after as many as are left.
  unfoldable pub collect_pods : String → ℕ → ℕ → List Pod → Snapshot → W → Snapshot × W
  collect_pods ns tail left [] s w = (s, w)
  collect_pods ns tail zero (pod ∷ rest) s w = (s, w)
  collect_pods ns tail (suc left) (pod ∷ rest) s w =
      let (s', w') = collect_pod ns tail pod s w in collect_pods ns tail left rest s' w'

  abbrev pub after_pods : String → ℕ → ℕ → Snapshot → Result (List Pod) × W → Snapshot × W
  after_pods ns tail max_pods s (err e, w) = (note_error (bytes "pods for selector") e s, w)
  after_pods ns tail max_pods s (ok pods, w) = collect_pods ns tail max_pods pods s w

  abbrev pub after_selector : String → ℕ → ℕ → Snapshot → W → Result LabelSelector → Snapshot × W
  after_selector ns tail max_pods s w (err e) = (note_error (bytes "label selector") e s, w)
  after_selector ns tail max_pods s w (ok selector) =
      after_pods ns tail max_pods s (r.list_pods ns selector w)

  unfoldable pub collect_pods_for_selector :
      String → ℕ → ℕ → LabelSelector → Snapshot → W → Snapshot × W
  collect_pods_for_selector ns tail max_pods selector s w =
      after_selector ns tail max_pods s w (as_selector selector)

  abbrev pub pods_if_selected : String → ℕ → ℕ → Option LabelSelector → Snapshot → W → Snapshot × W
  pods_if_selected ns tail max_pods none s w = (s, w)
  pods_if_selected ns tail max_pods (some selector) s w =
      collect_pods_for_selector ns tail max_pods selector s w

  abbrev pub after_deployment :
      String → String → ℕ → ℕ → Snapshot → Result Workload × W → Snapshot × W
  after_deployment ns name tail max_pods s (err e, w) =
      (note_error (bytes "deployment " ++ object_name ns name) e s, w)
  after_deployment ns name tail max_pods s (ok d, w) =
      pods_if_selected ns tail max_pods d.selector
        (record s { deployment_status = some (deployment_status_of d) }) w

  unfoldable pub collect_deployment : String → String → ℕ → ℕ → Snapshot → W → Snapshot × W
  collect_deployment ns name tail max_pods s w =
      after_deployment ns name tail max_pods s (r.get_deployment ns name w)

  abbrev pub after_replica_set :
      String → String → ℕ → ℕ → Snapshot → Result Workload × W → Snapshot × W
  after_replica_set ns name tail max_pods s (err e, w) =
      (note_error (bytes "replicaset " ++ object_name ns name) e s, w)
  after_replica_set ns name tail max_pods s (ok d, w) =
      pods_if_selected ns tail max_pods d.selector
        (record s { replica_set_status = some (replica_set_status_of d) }) w

  unfoldable pub collect_replica_set : String → String → ℕ → ℕ → Snapshot → W → Snapshot × W
  collect_replica_set ns name tail max_pods s w =
      after_replica_set ns name tail max_pods s (r.get_replica_set ns name w)

  unfoldable pub collect_related_events : ObjectRef → Snapshot → W → Snapshot × W
  collect_related_events ref s w = after_related ref s (r.list_events ref.namespace w)

  -- the switch on the kind; %q quotes it, for a kind with no quote or control character
  unfoldable pub collect_object : ObjectRef → ℕ → ℕ → Snapshot × W → Snapshot × W
  collect_object ref tail max_pods (s, w) =
      if equal_fold ref.kind "Pod"
      then collect_single_pod ref.namespace ref.name tail s w
      else if equal_fold ref.kind "Deployment"
      then collect_deployment ref.namespace ref.name tail max_pods s w
      else if equal_fold ref.kind "ReplicaSet"
      then collect_replica_set ref.namespace ref.name tail max_pods s w
      else (
        note (bytes "pod context: unsupported object kind \"" ++ bytes ref.kind ++ bytes "\"") s,
        w,
      )

  -- The error that BuildSnapshot returns is always nil.
  unfoldable pub build_snapshot : ObjectRef → ℤ → ℤ → W → Result Snapshot × W
  build_snapshot ref tail_lines max_pods w =
      let (s, w') =
        collect_object ref (or_positive tail_lines default_tail_lines)
          (or_positive max_pods default_max_pods_per_workload)
          (collect_related_events ref (new_snapshot ref) w) in
      (ok s, w')
