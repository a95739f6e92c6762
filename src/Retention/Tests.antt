-- ===== src/Retention/Tests.antt =====
-- The theorems of a sweep at a concrete server, which refuses every deletion.
use kscribe.Prelude.{
  Bool, List, String, [], keep_if, none, refl, some, suc, true, ℕ, ℤ, ◌↔◌, ◌∷◌, ◌≡◌,
}
use kscribe.Api.{KscribeDiagnosis, DiagnosisPhase, pending, done, empty_status}
use kscribe.Errors.{ok, err, not_found, other}
use kscribe.Cluster.{Client}
use kscribe.Retention.{prune_diagnosis_crs}
use kscribe.Retention.Exact.{recording, IsDue, prune_deletes_exactly}

abbrev aged : String → DiagnosisPhase → ℕ → KscribeDiagnosis
aged name phase completed = record {
  namespace = "shop";
  name = name;
  generation = 1;
  creation_timestamp = 0;
  labels = [];
  spec = record {
    involved_object_name = "cart";
    involved_object_namespace = "shop";
    involved_object_kind = "Pod";
    reason = "BackOff";
    message = [];
    event_uid = "1";
    count = ℤ.pos 1;
    first_timestamp = none;
    last_timestamp = none;
    policy_ref = "";
    llm_provider = "";
    llm_model = "";
    llm_base_url = "";
    max_iterations = none;
    redact = none;
  };
  status = record empty_status { phase = phase; completed_at = some completed };
}

abbrev three : List KscribeDiagnosis
three = aged "a" done 1 ∷ aged "b" pending 1 ∷ aged "c" done 9 ∷ []

abbrev server : Client ℕ
server = record {
  get_event = λ ns name n. (err (not_found []), n);
  list_policies = λ ns n. (ok [], n);
  get_policy = λ ns name n. (err (not_found []), n);
  get_diagnosis = λ ns name n. (err (not_found []), n);
  list_diagnoses = λ n. (ok three, n);
  create_diagnosis = λ kd n. (none, n);
  update_diagnosis = λ kd n. (none, n);
  update_status = λ kd n. (none, n);
  delete_diagnosis = λ kd n. (some (other []), suc n);
}

prune_deletes_exactly_example :
    (due : KscribeDiagnosis → Bool) × ((kd : KscribeDiagnosis) → (due kd ≡ true) ↔ IsDue 5 kd)
    × ((prune_diagnosis_crs (recording server) 5 ([], 0)).1.0 ≡ keep_if due three)
prune_deletes_exactly_example = prune_deletes_exactly server 5 0 three refl
