-- ===== src/Tools/Tests.antt =====
-- The theorems of the tools at a concrete cluster.
use kscribe.Prelude.{
  Bytes, List, String, [], bytes, decimal, decimal_ℕ, digits_within, encode_rune, none, refl, some,
  suc, take, true, ℕ, ℤ, ◌∷◌, ◌≡◌,
}
use kscribe.Cluster.{Event, not_found}
use kscribe.Cluster.Objects.{Reader, opened}
use kscribe.Enricher.{Patterns, redacted_placeholder, rules, redact, redact_with}
use kscribe.Errors.{Result, ok, err}
use kscribe.Tools.{ToolArguments, KubeToolExecutor, execute}
use kscribe.Tools.Answers.{join_lines, of_object, first_events_answered}
use kscribe.Tools.Noninterference.{Alike, execute_alike}

-- Patterns that replace every text.
abbrev strict : Patterns
strict = record { replace_all = λ r s placeholder. placeholder; sensitive_key = λ name. true }

abbrev event_of : String → Bytes → Event
event_of object message = record {
  namespace = "shop";
  name = "e1";
  uid = "uid-1";
  kind = "Warning";
  reason = "BackOff";
  message = message;
  count = ℤ.pos 12;
  first_timestamp = none;
  last_timestamp = none;
  involved_object = record { kind = "Pod"; namespace = "shop"; name = object };
}

abbrev events_of : Bytes → List Event
events_of secret = event_of "cart" secret ∷ event_of "till" (bytes "slow") ∷ []

abbrev refusal : {A : Type 0} → Result A × ℕ
refusal = (err (not_found (bytes "no such object")), 0)

-- A cluster whose only texts are an event's and a log's.
abbrev cluster : Bytes → Reader ℕ
cluster secret = record {
  list_events = λ ns w. (ok (events_of secret), suc w);
  get_pod = λ ns name w. refusal;
  get_deployment = λ ns name w. refusal;
  get_replica_set = λ ns name w. refusal;
  list_pods = λ ns selector w. refusal;
  get_node = λ name w. refusal;
  open_logs = λ o w. (opened (record { content = secret; failure = none }), suc w);
}

abbrev decoded : ToolArguments
decoded = record {
  logs = λ text. ok (record { namespace = "shop"; pod = "cart"; container = ""; tail = ℤ.pos 500 });
  events = λ text. ok (record { namespace = "shop"; object_name = "cart" });
  node = λ text. ok "n1";
}

abbrev tools_of : Bytes → KubeToolExecutor ℕ
tools_of secret = record { reader = cluster secret; patterns = strict; arguments = decoded }

first_events_answered_example :
    execute (tools_of (bytes "hunter2")) "get_events" (bytes "{}") 0
    ≡ (some (ok (join_lines strict (take 30 (of_object "cart" (events_of (bytes "hunter2")))))), 1)
first_events_answered_example =
    first_events_answered (tools_of (bytes "hunter2")) (bytes "{}")
      (record { namespace = "shop"; object_name = "cart" }) (events_of (bytes "hunter2")) 0 1 refl
      refl

shown_text :
    join_lines strict (take 30 (of_object "cart" (events_of (bytes "hunter2"))))
    ≡ bytes "[BackOff] cart (x12): ***REDACTED***\n"
unfolding join_lines redact redact_with rules redacted_placeholder bytes encode_rune decimal
    decimal_ℕ digits_within
shown_text = refl

-- Two clusters with different secrets, both hidden by the redaction.
secrets-Alike : Alike strict (cluster (bytes "hunter2")) (cluster (bytes "swordfish"))
unfolding redact redact_with rules bytes encode_rune
secrets-Alike = record { events = λ ns w. refl; nodes = λ name w. refl; logs = λ o w. refl }

execute_alike_example :
    execute (tools_of (bytes "hunter2")) "get_events" (bytes "{}") 0
    ≡ execute (tools_of (bytes "swordfish")) "get_events" (bytes "{}") 0
execute_alike_example =
    execute_alike strict decoded (cluster (bytes "hunter2")) (cluster (bytes "swordfish"))
      secrets-Alike "get_events" (bytes "{}") 0
