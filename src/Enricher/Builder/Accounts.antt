-- ===== src/Enricher/Builder/Accounts.antt =====
-- Every failure of the collection is noted in the snapshot, and nothing else is.
use kscribe.Prelude.{
  Bool-cases, Bytes, List, Option, String, [], arith, if◌then◌else◌, inl, inr, length,
  length-append, none, refl, some, suc, zero, ℕ, ℤ, ◌+◌, ◌==◌, ◌∷◌, ◌≡◌,
}
use kscribe.Cluster.{Event}
use kscribe.Cluster.Objects.{Container, Pod, Node, LabelSelector, Workload, Opening, Reader}
use kscribe.Enricher.{PodContext, Snapshot, ObjectRef}
use kscribe.Errors.{Result, ok, err}
use kscribe.Enricher.Parts.{
  logs_of, note, pod_context_from, new_snapshot, after_logs, add_pod, after_related, equal_fold,
}
use kscribe.Enricher.Builder.{
  stream_pod_logs, fetch_logs_into_pod_context, after_node, collect_node_conditions, node_if_named,
  collect_pod, after_pod, collect_single_pod, collect_pods, after_pods, after_selector,
  collect_pods_for_selector, pods_if_selected, after_deployment, collect_deployment,
  after_replica_set, collect_replica_set, collect_related_events, collect_object, build_snapshot,
}

abbrev count_failure : {A : Type 0} → Result A → ℕ → ℕ
count_failure (ok a) n = n
count_failure (err e) n = suc n

-- the number of failed reads so far, beside the state
abbrev tally : {A W : Type 0} → ℕ → Result A × W → Result A × (ℕ × W)
tally n (answer, w) = (answer, (count_failure answer n, w))

abbrev tally_logs : {W : Type 0} → ℕ → Opening × W → Opening × (ℕ × W)
tally_logs n (opening, w) = (opening, (count_failure (logs_of opening) n, w))

-- The same cluster, with a counter of the reads that failed.
abbrev pub counting : {W : Type 0} → Reader W → Reader (ℕ × W)
counting r = record {
  list_events = λ ns c. tally c.0 (r.list_events ns c.1);
  get_pod = λ ns name c. tally c.0 (r.get_pod ns name c.1);
  get_deployment = λ ns name c. tally c.0 (r.get_deployment ns name c.1);
  get_replica_set = λ ns name c. tally c.0 (r.get_replica_set ns name c.1);
  list_pods = λ ns selector c. tally c.0 (r.list_pods ns selector c.1);
  get_node = λ name c. tally c.0 (r.get_node name c.1);
  open_logs = λ o c. tally_logs c.0 (r.open_logs o c.1);
}

module _ {W : Type 0} (r : Reader W) (as_selector : LabelSelector → Result LabelSelector) where
  -- one for a workload whose label selector is refused
  abbrev pub refused_selector : Option LabelSelector → ℕ
  refused_selector none = 0
  refused_selector (some selector) = count_failure (as_selector selector) 0

  abbrev pub refused_of : Result Workload → ℕ
  refused_of (err e) = 0
  refused_of (ok d) = refused_selector d.selector

  -- What is to be noted besides failed reads, where the object is read in the state `w`: a selector that is
  -- refused, or a kind of object that the collection does not know.
  abbrev pub uncollected : ObjectRef → W → ℕ
  uncollected ref w =
      if equal_fold ref.kind "Pod"
      then 0
      else if equal_fold ref.kind "Deployment"
      then refused_of (r.get_deployment ref.namespace ref.name w).0
      else if equal_fold ref.kind "ReplicaSet"
      then refused_of (r.get_replica_set ref.namespace ref.name w).0
      else 1

  -- As many notes as failed reads, and `k` more.
  abbrev Balanced : ℕ → Snapshot × (ℕ × W) → Type 0
  Balanced k (s, (n, w)) = length s.partly ≡ k + n

  noted :
      (k n : ℕ) (text : Bytes) (s : Snapshot)
      → length s.partly ≡ k + n
      → length (note text s).partly ≡ k + suc n
  unfolding note
  noted k n text s h = omega (arith, length-append s.partly (text ∷ []))

  after_logs-noted :
      (k n : ℕ) (ns pod container : String) (s : Snapshot) (pc : PodContext) (answer : Result Bytes)
      → length s.partly ≡ k + n
      → length (after_logs ns pod container s pc answer).0.partly ≡ k + count_failure answer n
  after_logs-noted k n ns pod container s pc (err e) h = noted k n _ s h
  after_logs-noted k n ns pod container s pc (ok lines) h = h

  fetch_logs-Balanced :
      (k : ℕ) (ns pod : String) (tail : ℕ) (cs : List Container) (s : Snapshot) (pc : PodContext)
      (c : ℕ × W)
      → Balanced k (s, c)
      → Balanced k
          (add_pod (fetch_logs_into_pod_context (counting r) as_selector ns pod tail cs s pc c))
  unfolding fetch_logs_into_pod_context stream_pod_logs
  fetch_logs-Balanced k ns pod tail [] s pc c h = h
  fetch_logs-Balanced k ns pod tail (container ∷ rest) s pc (n, w) h =
      fetch_logs-Balanced k ns pod tail rest _ _ _
        (after_logs-noted k n ns pod container.name s pc _ h)

  after_node-Balanced :
      (k n : ℕ) (name : String) (s : Snapshot) (answer : Result Node × W)
      → length s.partly ≡ k + n
      → Balanced k (after_node (counting r) as_selector name s (tally n answer))
  after_node-Balanced k n name s (err e, w) h = noted k n _ s h
  after_node-Balanced k n name s (ok node, w) h = h

  node_if_named-Balanced :
      (k : ℕ) (name : String) (p : Snapshot × (ℕ × W))
      → Balanced k p
      → Balanced k (node_if_named (counting r) as_selector name p)
  unfolding collect_node_conditions
  node_if_named-Balanced k name (s, (n, w)) h = elim (Bool-cases (name == "")) [
    | inl unnamed ↦ rw unnamed h
    | inr named ↦ rw named (after_node-Balanced k n name s (r.get_node name w) h)
  ]

  collect_pod-Balanced :
      (k : ℕ) (ns : String) (tail : ℕ) (pod : Pod) (s : Snapshot) (c : ℕ × W)
      → Balanced k (s, c)
      → Balanced k (collect_pod (counting r) as_selector ns tail pod s c)
  unfolding collect_pod
  collect_pod-Balanced k ns tail pod s c h =
      node_if_named-Balanced k pod.node_name _
        (fetch_logs-Balanced k ns pod.name tail pod.containers s (pod_context_from pod) c h)

  after_pod-Balanced :
      (k n : ℕ) (ns name : String) (tail : ℕ) (s : Snapshot) (answer : Result Pod × W)
      → length s.partly ≡ k + n
      → Balanced k (after_pod (counting r) as_selector ns name tail s (tally n answer))
  after_pod-Balanced k n ns name tail s (err e, w) h = noted k n _ s h
  after_pod-Balanced k n ns name tail s (ok pod, w) h =
      collect_pod-Balanced k ns tail pod s (n, w) h

  collect_pods-Balanced :
      (k : ℕ) (ns : String) (tail left : ℕ) (pods : List Pod) (s : Snapshot) (c : ℕ × W)
      → Balanced k (s, c)
      → Balanced k (collect_pods (counting r) as_selector ns tail left pods s c)
  unfolding collect_pods
  collect_pods-Balanced k ns tail left [] s c h = h
  collect_pods-Balanced k ns tail zero (pod ∷ rest) s c h = h
  collect_pods-Balanced k ns tail (suc left) (pod ∷ rest) s c h =
      collect_pods-Balanced k ns tail left rest _ _ (collect_pod-Balanced k ns tail pod s c h)

  after_pods-Balanced :
      (k n : ℕ) (ns : String) (tail max_pods : ℕ) (s : Snapshot) (answer : Result (List Pod) × W)
      → length s.partly ≡ k + n
      → Balanced k (after_pods (counting r) as_selector ns tail max_pods s (tally n answer))
  after_pods-Balanced k n ns tail max_pods s (err e, w) h = noted k n _ s h
  after_pods-Balanced k n ns tail max_pods s (ok pods, w) h =
      collect_pods-Balanced k ns tail max_pods pods s (n, w) h

  pods_if_selected-Balanced :
      (n : ℕ) (ns : String) (tail max_pods : ℕ) (selector : Option LabelSelector) (s : Snapshot)
      (w : W)
      → length s.partly ≡ 0 + n
      → Balanced
          (refused_selector selector)
          (pods_if_selected (counting r) as_selector ns tail max_pods selector s (n, w))
  unfolding collect_pods_for_selector
  pods_if_selected-Balanced n ns tail max_pods none s w h = h
  pods_if_selected-Balanced n ns tail max_pods (some selector) s w h = made (as_selector selector)
    where
      made :
          (answer : Result LabelSelector)
          → Balanced
              (count_failure answer 0)
              (after_selector (counting r) as_selector ns tail max_pods s (n, w) answer)
      made (err e) = omega (arith, noted 0 n _ s h)
      made (ok selector') =
          after_pods-Balanced 0 n ns tail max_pods s (r.list_pods ns selector' w) h

  after_deployment-Balanced :
      (n : ℕ) (ns name : String) (tail max_pods : ℕ) (s : Snapshot) (answer : Result Workload × W)
      → length s.partly ≡ 0 + n
      → Balanced
          (refused_of answer.0)
          (after_deployment (counting r) as_selector ns name tail max_pods s (tally n answer))
  after_deployment-Balanced n ns name tail max_pods s (err e, w) h = noted 0 n _ s h
  after_deployment-Balanced n ns name tail max_pods s (ok d, w) h =
      pods_if_selected-Balanced n ns tail max_pods d.selector _ w h

  after_replica_set-Balanced :
      (n : ℕ) (ns name : String) (tail max_pods : ℕ) (s : Snapshot) (answer : Result Workload × W)
      → length s.partly ≡ 0 + n
      → Balanced
          (refused_of answer.0)
          (after_replica_set (counting r) as_selector ns name tail max_pods s (tally n answer))
  after_replica_set-Balanced n ns name tail max_pods s (err e, w) h = noted 0 n _ s h
  after_replica_set-Balanced n ns name tail max_pods s (ok d, w) h =
      pods_if_selected-Balanced n ns tail max_pods d.selector _ w h

  after_related-Balanced :
      (k n : ℕ) (ref : ObjectRef) (s : Snapshot) (answer : Result (List Event) × W)
      → length s.partly ≡ k + n
      → Balanced k (after_related ref s (tally n answer))
  after_related-Balanced k n ref s (err e, w) h = noted k n _ s h
  after_related-Balanced k n ref s (ok events, w) h = h

  collect_object-Balanced :
      (ref : ObjectRef) (tail max_pods : ℕ) (p : Snapshot × (ℕ × W))
      → Balanced 0 p
      → Balanced
          (uncollected ref p.1.1)
          (collect_object (counting r) as_selector ref tail max_pods p)
  unfolding collect_object collect_single_pod collect_deployment collect_replica_set note
  collect_object-Balanced ref tail max_pods (s, (n, w)) h =
      elim (Bool-cases (equal_fold ref.kind "Pod")) [
        | inl pod ↦ rw pod (after_pod-Balanced 0 n ref.namespace ref.name tail s _ h)
        | inr no_pod ↦ rw no_pod (elim (Bool-cases (equal_fold ref.kind "Deployment")) [
          | inl deployment ↦
              rw deployment (after_deployment-Balanced n ref.namespace ref.name tail max_pods s _ h)
          | inr no_deployment ↦
              rw no_deployment (elim (Bool-cases (equal_fold ref.kind "ReplicaSet")) [
                | inl set ↦
                    rw set (after_replica_set-Balanced n ref.namespace ref.name tail max_pods s _ h)
                | inr other ↦ rw other (omega (arith, length-append s.partly, h))
              ])
        ])
      ]

  from_related :
      (ref : ObjectRef) (tail max_pods : ℕ) (answer : Result (List Event) × W)
      → Balanced (uncollected ref answer.1) (
          collect_object
            (counting r)
            as_selector
            ref
            tail
            max_pods
            (after_related ref (new_snapshot ref) (tally 0 answer)))
  from_related ref tail max_pods (err e, w) =
      collect_object-Balanced ref tail max_pods (_, (1, w))
        (after_related-Balanced 0 0 ref (new_snapshot ref) (err e, w) refl)
  from_related ref tail max_pods (ok events, w) =
      collect_object-Balanced ref tail max_pods (_, (0, w))
        (after_related-Balanced 0 0 ref (new_snapshot ref) (ok events, w) refl)

  -- A snapshot is always built, and it has one note for each read of the cluster that failed, a refused
  -- or broken log stream included, and one more where the kind of object is unknown or the selector of
  -- the workload is refused: no failure is lost.
  pub failures_noted :
      (ref : ObjectRef) (tail_lines max_pods : ℤ) (w : W)
      → let (answer, (failures, w')) =
          build_snapshot (counting r) as_selector ref tail_lines max_pods (0, w) in
        (s : Snapshot) × (answer ≡ ok s)
        × (length s.partly ≡ uncollected ref (r.list_events ref.namespace w).1 + failures)
  unfolding build_snapshot collect_related_events
  failures_noted ref tail_lines max_pods w =
      (_, refl, from_related ref _ _ (r.list_events ref.namespace w))
