-- ===== src/Policy/Tests.antt =====
-- The choice of a policy from a concrete server.
use kscribe.Prelude.{[], false, none, some, suc, ℕ}
use kscribe.Api.{DiagnosisPolicy}
use kscribe.Cluster.{Client, ok, err, not_found}

abbrev slow_policy : DiagnosisPolicy
slow_policy = record {
  namespace = "ops";
  name = "default";
  spec = record {
    enabled = some false;
    event_reasons = [];
    llm_provider = "";
    llm_model = "large";
    llm_base_url = "";
    max_iterations = none;
    redact = none;
  };
}

-- A server with no policy but the operator's; its state counts the calls.
abbrev server : Client ℕ
server = record {
  get_event = λ ns name n. (err (not_found []), suc n);
  list_policies = λ ns n. (ok [], suc n);
  get_policy = λ ns name n. (ok slow_policy, suc n);
  get_diagnosis = λ ns name n. (err (not_found []), suc n);
  list_diagnoses = λ n. (ok [], suc n);
  create_diagnosis = λ kd n. (none, suc n);
  update_diagnosis = λ kd n. (none, suc n);
  update_status = λ kd n. (none, suc n);
  delete_diagnosis = λ kd n. (none, suc n);
}
