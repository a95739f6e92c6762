-- ===== src/Enricher/Builder/Extent.antt =====
-- What a built snapshot is about, and how many pods it holds.
use kscribe.Prelude.{
  Bool-cases, Bytes, List, Option, String, [], arith, inl, inr, length, length-append, none, refl,
  some, suc, zero, ℕ, ℤ, ◌+◌, ◌==◌, ◌∷◌, ◌≡◌, ◌≤◌,
}
use kscribe.Cluster.{Event}
use kscribe.Cluster.Objects.{Container, Pod, Node, LabelSelector, Workload, Reader}
use kscribe.Enricher.{PodContext, Snapshot, ObjectRef}
use kscribe.Errors.{Result, ok, err}
use kscribe.Enricher.Parts.{
  note, pod_context_from, new_snapshot, after_logs, add_pod, after_related, equal_fold,
}
use kscribe.Enricher.Builder.{
  or_positive, fetch_logs_into_pod_context, after_node, collect_node_conditions, node_if_named,
  collect_pod, after_pod, collect_single_pod, collect_pods, after_pods, after_selector,
  collect_pods_for_selector, pods_if_selected, after_deployment, collect_deployment,
  after_replica_set, collect_replica_set, collect_related_events, collect_object, build_snapshot,
}

-- The event and the object that a snapshot is about.
abbrev pub about_of : Snapshot → ObjectRef
about_of s = record {
  kind = s.object_kind;
  namespace = s.namespace;
  name = s.object_name;
  event_uid = s.event_uid;
  reason = s.reason;
  message = s.message;
}

-- A snapshot of a subject with at most `n` pods.
pub record IsWithin (ref : ObjectRef) (n : ℕ) (s : Snapshot) : Type 0 where
  pub about : about_of s ≡ ref
  pub pods : length s.pod_contexts ≤ n

module _ {W : Type 0} (r : Reader W) (as_selector : LabelSelector → Result LabelSelector)
    (ref : ObjectRef) where
  note-IsWithin :
      (n : ℕ) (text : Bytes) (s : Snapshot) → IsWithin ref n s → IsWithin ref n (note text s)
  unfolding note
  note-IsWithin n text s h = record { about = h.about; pods = h.pods }

  more : (n m : ℕ) (s : Snapshot) → n ≤ m → IsWithin ref n s → IsWithin ref m s
  more n m s le h = record { about = h.about; pods = omega (arith, h.pods) }

  after_logs-IsWithin :
      (n : ℕ) (ns pod container : String) (s : Snapshot) (pc : PodContext) (answer : Result Bytes)
      → IsWithin ref n s
      → IsWithin ref n (after_logs ns pod container s pc answer).0
  after_logs-IsWithin n ns pod container s pc (err e) h = note-IsWithin n _ s h
  after_logs-IsWithin n ns pod container s pc (ok lines) h = h

  fetch_logs-IsWithin :
      (n : ℕ) (ns pod : String) (tail : ℕ) (cs : List Container) (s : Snapshot) (pc : PodContext)
      (w : W)
      → IsWithin ref n s
      → IsWithin ref n (fetch_logs_into_pod_context r as_selector ns pod tail cs s pc w).0.0
  unfolding fetch_logs_into_pod_context
  fetch_logs-IsWithin n ns pod tail [] s pc w h = h
  fetch_logs-IsWithin n ns pod tail (c ∷ rest) s pc w h =
      fetch_logs-IsWithin n ns pod tail rest _ _ _ (after_logs-IsWithin n ns pod c.name s pc _ h)

  after_node-IsWithin :
      (n : ℕ) (name : String) (s : Snapshot) (answer : Result Node × W)
      → IsWithin ref n s
      → IsWithin ref n (after_node r as_selector name s answer).0
  after_node-IsWithin n name s (err e, w) h = note-IsWithin n _ s h
  after_node-IsWithin n name s (ok node, w) h = record { about = h.about; pods = h.pods }

  node_if_named-IsWithin :
      (n : ℕ) (name : String) (p : Snapshot × W)
      → IsWithin ref n p.0
      → IsWithin ref n (node_if_named r as_selector name p).0
  unfolding collect_node_conditions
  node_if_named-IsWithin n name (s, w) h = elim (Bool-cases (name == "")) [
    | inl unnamed ↦ rw unnamed h
    | inr named ↦ rw named (after_node-IsWithin n name s (r.get_node name w) h)
  ]

  add_pod-IsWithin :
      (n : ℕ) (p : (Snapshot × PodContext) × W)
      → IsWithin ref n p.0.0
      → IsWithin ref (suc n) (add_pod p).0
  add_pod-IsWithin n ((s, pc), w) h = record {
    about = h.about;
    pods = omega (arith, length-append s.pod_contexts (pc ∷ []), h.pods);
  }

  collect_pod-IsWithin :
      (n : ℕ) (ns : String) (tail : ℕ) (pod : Pod) (s : Snapshot) (w : W)
      → IsWithin ref n s
      → IsWithin ref (suc n) (collect_pod r as_selector ns tail pod s w).0
  unfolding collect_pod
  collect_pod-IsWithin n ns tail pod s w h = node_if_named-IsWithin (suc n) pod.node_name _ (
      add_pod-IsWithin n
        (fetch_logs_into_pod_context r as_selector ns pod.name tail pod.containers s
          (pod_context_from pod) w)
        (fetch_logs-IsWithin n ns pod.name tail pod.containers s (pod_context_from pod) w h))

  collect_pods-IsWithin :
      (n : ℕ) (ns : String) (tail left : ℕ) (pods : List Pod) (s : Snapshot) (w : W)
      → IsWithin ref n s
      → IsWithin ref (n + left) (collect_pods r as_selector ns tail left pods s w).0
  unfolding collect_pods
  collect_pods-IsWithin n ns tail left [] s w h = more n _ s (omega arith) h
  collect_pods-IsWithin n ns tail zero (pod ∷ rest) s w h = more n _ s (omega arith) h
  collect_pods-IsWithin n ns tail (suc left) (pod ∷ rest) s w h =
      more (suc n + left) (n + suc left) _ (omega arith) (
        collect_pods-IsWithin (suc n) ns tail left rest _ _
          (collect_pod-IsWithin n ns tail pod s w h))

  after_pods-IsWithin :
      (ns : String) (tail max_pods : ℕ) (s : Snapshot) (answer : Result (List Pod) × W)
      → IsWithin ref 0 s
      → IsWithin ref max_pods (after_pods r as_selector ns tail max_pods s answer).0
  after_pods-IsWithin ns tail max_pods s (err e, w) h =
      more 0 max_pods _ (omega arith) (note-IsWithin 0 _ s h)
  after_pods-IsWithin ns tail max_pods s (ok pods, w) h =
      more (0 + max_pods) max_pods _ (omega arith)
        (collect_pods-IsWithin 0 ns tail max_pods pods s w h)

  after_selector-IsWithin :
      (ns : String) (tail max_pods : ℕ) (s : Snapshot) (w : W) (selector : Result LabelSelector)
      → IsWithin ref 0 s
      → IsWithin ref max_pods (after_selector r as_selector ns tail max_pods s w selector).0
  after_selector-IsWithin ns tail max_pods s w (err e) h =
      more 0 max_pods _ (omega arith) (note-IsWithin 0 _ s h)
  after_selector-IsWithin ns tail max_pods s w (ok selector) h =
      after_pods-IsWithin ns tail max_pods s (r.list_pods ns selector w) h

  pods_if_selected-IsWithin :
      (ns : String) (tail max_pods : ℕ) (selector : Option LabelSelector) (s : Snapshot) (w : W)
      → IsWithin ref 0 s
      → IsWithin ref max_pods (pods_if_selected r as_selector ns tail max_pods selector s w).0
  unfolding collect_pods_for_selector
  pods_if_selected-IsWithin ns tail max_pods none s w h = more 0 max_pods s (omega arith) h
  pods_if_selected-IsWithin ns tail max_pods (some selector) s w h =
      after_selector-IsWithin ns tail max_pods s w (as_selector selector) h

  after_pod-IsWithin :
      (ns name : String) (tail : ℕ) (s : Snapshot) (answer : Result Pod × W)
      → IsWithin ref 0 s
      → IsWithin ref 1 (after_pod r as_selector ns name tail s answer).0
  after_pod-IsWithin ns name tail s (err e, w) h = more 0 1 _ (omega arith) (note-IsWithin 0 _ s h)
  after_pod-IsWithin ns name tail s (ok pod, w) h = collect_pod-IsWithin 0 ns tail pod s w h

  after_deployment-IsWithin :
      (ns name : String) (tail max_pods : ℕ) (s : Snapshot) (answer : Result Workload × W)
      → IsWithin ref 0 s
      → IsWithin ref max_pods (after_deployment r as_selector ns name tail max_pods s answer).0
  after_deployment-IsWithin ns name tail max_pods s (err e, w) h =
      more 0 max_pods _ (omega arith) (note-IsWithin 0 _ s h)
  after_deployment-IsWithin ns name tail max_pods s (ok d, w) h =
      pods_if_selected-IsWithin ns tail max_pods d.selector _ w
        (record { about = h.about; pods = h.pods })

  after_replica_set-IsWithin :
      (ns name : String) (tail max_pods : ℕ) (s : Snapshot) (answer : Result Workload × W)
      → IsWithin ref 0 s
      → IsWithin ref max_pods (after_replica_set r as_selector ns name tail max_pods s answer).0
  after_replica_set-IsWithin ns name tail max_pods s (err e, w) h =
      more 0 max_pods _ (omega arith) (note-IsWithin 0 _ s h)
  after_replica_set-IsWithin ns name tail max_pods s (ok d, w) h =
      pods_if_selected-IsWithin ns tail max_pods d.selector _ w
        (record { about = h.about; pods = h.pods })

  after_related-IsWithin :
      (s : Snapshot) (answer : Result (List Event) × W)
      → IsWithin ref 0 s
      → IsWithin ref 0 (after_related ref s answer).0
  after_related-IsWithin s (err e, w) h = note-IsWithin 0 _ s h
  after_related-IsWithin s (ok events, w) h = record { about = h.about; pods = h.pods }

  collect_object-IsWithin :
      (tail max_pods : ℕ) (p : Snapshot × W)
      → 1 ≤ max_pods
      → IsWithin ref 0 p.0
      → IsWithin ref max_pods (collect_object r as_selector ref tail max_pods p).0
  unfolding collect_object collect_single_pod collect_deployment collect_replica_set
  collect_object-IsWithin tail max_pods (s, w) room h =
      elim (Bool-cases (equal_fold ref.kind "Pod")) [
        | inl pod ↦
            rw pod (more 1 max_pods _ room (after_pod-IsWithin ref.namespace ref.name tail s _ h))
        | inr no_pod ↦ rw no_pod (elim (Bool-cases (equal_fold ref.kind "Deployment")) [
          | inl deployment ↦
              rw deployment (after_deployment-IsWithin ref.namespace ref.name tail max_pods s _ h)
          | inr no_deployment ↦
              rw no_deployment (elim (Bool-cases (equal_fold ref.kind "ReplicaSet")) [
                | inl set ↦
                    rw set (after_replica_set-IsWithin ref.namespace ref.name tail max_pods s _ h)
                | inr other ↦ rw other (more 0 max_pods _ (omega arith) (note-IsWithin 0 _ s h))
              ])
        ])
      ]

  or_positive-positive : (z : ℤ) (default : ℕ) → 1 ≤ default → 1 ≤ or_positive z default
  or_positive-positive (ℤ.pos zero) default h = h
  or_positive-positive (ℤ.pos (suc n)) default h = omega arith
  or_positive-positive (ℤ.negsuc n) default h = h

  -- A snapshot is always built; it is of the event and the object that were asked for, and holds at most
  -- the configured number of pods, or three where that is not positive.
  pub build_snapshot-IsWithin :
      (tail_lines max_pods : ℤ) (w : W)
      → (s : Snapshot) × ((build_snapshot r as_selector ref tail_lines max_pods w).0 ≡ ok s)
        × IsWithin ref (or_positive max_pods 3) s
  unfolding build_snapshot collect_related_events
  build_snapshot-IsWithin tail_lines max_pods w = (
    _,
    refl,
    collect_object-IsWithin _ _ _ (or_positive-positive max_pods 3 (omega arith)) (
        after_related-IsWithin (new_snapshot ref) (r.list_events ref.namespace w)
          (record { about = refl; pods = omega arith })),
  )
