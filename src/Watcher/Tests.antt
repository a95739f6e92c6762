-- ===== src/Watcher/Tests.antt =====
-- The theorems of the watcher at a concrete event and server.
use kscribe.Prelude.{[], arith, bytes, lookup, none, refl, some, suc, true, ℕ, ℤ, ◌≡◌}
use kscribe.Api.{KscribeDiagnosis, KscribeDiagnosisSpec}
use kscribe.Config.{default_config}
use kscribe.Cluster.{Client, Event, Error, ok, err, not_found, already_exists, other, wrap}
use kscribe.Dedup.{Deduper, should_process, process_all}
use kscribe.Policy.{ResolvedPolicy, from_config, resolve_policy, find_any_policy}
use kscribe.Watcher.{Deps, event_key, diagnosis_of_event, backfill_spec, process_event, ingest}
use kscribe.Watcher.Events.{one_event_per_window, failure_not_retried}

abbrev restarting : Event
restarting = record {
  namespace = "shop";
  name = "cart.17";
  uid = "uid-1";
  kind = "Warning";
  reason = "BackOff";
  message = bytes "restarting";
  count = ℤ.pos 3;
  first_timestamp = some 1;
  last_timestamp = some 9;
  involved_object = record { kind = "Pod"; namespace = "shop"; name = "cart" };
}

abbrev deps : Deps
deps = record { operator_namespace = ""; cfg = default_config }

abbrev by_config : ResolvedPolicy
by_config = from_config default_config

-- An object whose spec knows only the event's UID, and the object when it was filled.
abbrev sparse : KscribeDiagnosisSpec
sparse = record ((diagnosis_of_event deps restarting by_config).spec) {
  reason = "";
  message = [];
  count = ℤ.pos 0;
  first_timestamp = none;
}

abbrev filled : KscribeDiagnosis
filled = record (diagnosis_of_event deps restarting by_config) {
  spec = (backfill_spec sparse restarting by_config).0;
}

abbrev server_with : Error → Client ℕ
server_with listing = record {
  get_event = λ ns name n. (ok restarting, suc n);
  list_policies = λ ns n. (err listing, suc n);
  get_policy = λ ns name n. (err (not_found []), suc n);
  get_diagnosis = λ ns name n. (ok filled, suc n);
  list_diagnoses = λ n. (ok [], suc n);
  create_diagnosis = λ kd n. (some (already_exists []), suc n);
  update_diagnosis = λ kd n. (none, suc n);
  update_status = λ kd n. (none, suc n);
  delete_diagnosis = λ kd n. (none, suc n);
}

abbrev server : Client ℕ
server = server_with (other (bytes "timeout"))

abbrev fresh : Deduper
fresh = record { ttl = 10; seen = [] }

new_key : (should_process fresh (event_key restarting) 5).1 ≡ true
unfolding should_process event_key lookup
new_key = refl

one_event_per_window_example :
    process_event server deps restarting 12
      (process_all (process_event server deps restarting 5 fresh 0).1.0 [])
      7
    ≡ (none, (process_all (process_event server deps restarting 5 fresh 0).1.0 [], 7))
one_event_per_window_example =
    one_event_per_window server deps restarting restarting 5 12 fresh [] 0 7 refl new_key refl
      (omega arith) tt

first_fails :
    (process_event server deps restarting 5 fresh 0).0
    ≡ some (
        wrap
          (bytes "resolve policy: ")
          (wrap (bytes "lookup policy in shop: ") (other (bytes "timeout"))))
unfolding process_event should_process event_key ingest resolve_policy find_any_policy lookup bytes
first_fails = refl

failure_not_retried_example :
    process_event server deps restarting 6 (process_event server deps restarting 5 fresh 0).1.0 7
    ≡ (none, ((process_event server deps restarting 5 fresh 0).1.0, 7))
failure_not_retried_example =
    failure_not_retried server deps restarting 5 6 fresh 0 7 _ first_fails (omega arith)
