-- ===== src/Enricher/Tests.antt =====
-- The theorems of the redaction at a concrete snapshot.
use kscribe.Prelude.{[], bytes, length, none, ℕ, ℤ, ◌==◌, ◌∷◌, ◌≡◌}
use kscribe.Cluster.Objects.{Reader, panicked}
use kscribe.Errors.{not_found, Result, ok, err}
use kscribe.Enricher.{ObjectRef, Snapshot, Patterns, redact_snapshot}
use kscribe.Enricher.Parts.{equal_fold}
use kscribe.Enricher.Builder.{
  build_snapshot, collect_related_events, collect_object, collect_single_pod, collect_pod,
  fetch_logs_into_pod_context, stream_pod_logs, collect_node_conditions,
}
use kscribe.Enricher.Builder.Accounts.{counting, failures_noted}
use kscribe.Enricher.Builder.Extent.{IsWithin, build_snapshot-IsWithin}
use kscribe.Enricher.Redaction.{IsSafe, redact_snapshot-IsSafe}

-- Patterns that leave every text alone and know one sensitive name.
abbrev plain : Patterns
plain = record { replace_all = λ r s placeholder. s; sensitive_key = λ name. name == "DB_PASSWORD" }

abbrev one_pod : Snapshot
one_pod = record {
  event_uid = "uid-1";
  reason = "BackOff";
  message = bytes "restarting";
  namespace = "shop";
  object_kind = "Pod";
  object_name = "cart";
  pod_contexts =
      (record {
        pod_name = "cart";
        node_name = "n1";
        phase = "Running";
        annotations = ("team", bytes "shop") ∷ [];
        env_vars = (record { name = "DB_PASSWORD"; value = bytes "hunter2" }) ∷ [];
        logs = [];
      })
      ∷ [];
  related_events = [];
  node_conditions = [];
  deployment_status = none;
  replica_set_status = none;
  partly = bytes "no metrics" ∷ [];
}

redact_snapshot-IsSafe_example : IsSafe plain (redact_snapshot plain one_pod)
redact_snapshot-IsSafe_example = redact_snapshot-IsSafe plain one_pod

abbrev refusal : {A : Type 0} → Result A × ℕ
refusal = (err (not_found (bytes "gone")), 0)

-- A cluster that knows one pod, whose logs and node cannot be read.
abbrev cluster : Reader ℕ
cluster = record {
  list_events = λ ns w. (ok [], w);
  get_pod = λ ns name w. (
    ok (record {
      name = "cart";
      node_name = "n1";
      phase = "Running";
      annotations = [];
      containers = (record { name = "main"; env = [] }) ∷ [];
    }),
    w,
  );
  get_deployment = λ ns name w. refusal;
  get_replica_set = λ ns name w. refusal;
  list_pods = λ ns selector w. refusal;
  get_node = λ name w. refusal;
  open_logs = λ o w. (panicked (bytes "no client"), w);
}

abbrev cart_pod : ObjectRef
cart_pod = record {
  kind = "pod";
  namespace = "shop";
  name = "cart";
  event_uid = "uid-1";
  reason = "BackOff";
  message = bytes "restarting";
}

failures_noted_example :
    (s : Snapshot) × ((build_snapshot (counting cluster) ok cart_pod (ℤ.pos 0) (ℤ.pos 0) (0, 0)).0
      ≡ ok s)
    × (length s.partly ≡ 2)
unfolding build_snapshot collect_related_events collect_object collect_single_pod collect_pod
    fetch_logs_into_pod_context stream_pod_logs collect_node_conditions equal_fold
failures_noted_example = failures_noted cluster ok cart_pod (ℤ.pos 0) (ℤ.pos 0) 0

build_snapshot-IsWithin_example :
    (s : Snapshot) × ((build_snapshot cluster ok cart_pod (ℤ.pos 0) (ℤ.negsuc 4) 0).0 ≡ ok s)
    × IsWithin cart_pod 3 s
build_snapshot-IsWithin_example =
    build_snapshot-IsWithin cluster ok cart_pod (ℤ.pos 0) (ℤ.negsuc 4) 0
