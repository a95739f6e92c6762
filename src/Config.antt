-- ===== src/Config.antt =====
-- internal/config/config.go: the runtime configuration. Loading it from the environment is the
-- library `env`'s work. Durations are numbers of nanoseconds; a negative one is not modelled apart
-- from the sign.
use kscribe.Prelude.{
  Bool, List, Option, String, [], false, if◌then◌else◌, or_default, true, ℤ, ◌*◌, ◌==◌, ◌∷◌,
}

pub record Config : Type 0 where
  pub addr : String
  pub metrics_addr : String
  pub operator_namespace : String
  pub leader_elect : Bool
  pub llm_provider : String
  pub llm_model : String
  pub llm_base_url : String
  pub llm_api_key : String
  pub max_iterations : ℤ
  pub diagnosis_concurrency : ℤ
  pub max_diagnoses_per_hour : ℤ
  pub event_reason_allowlist : List String
  pub redact_enabled : Bool
  pub db_path : String
  pub retention_period : ℤ
  pub dashboard_token : String
  pub max_pods_per_workload : ℤ
  pub resend_api_key : String
  pub notify_email_from : String
  pub notify_email_to : List String
  pub slack_webhook_url : String
  pub jira_base_url : String
  pub jira_email : String
  pub jira_api_token : String
  pub jira_project_key : String
  pub linear_api_key : String
  pub linear_team_id : String
  pub resync_period : ℤ

pub record FlagOverrides : Type 0 where
  pub addr : String
  pub leader_elect : Option Bool
  pub operator_namespace : String

-- `value` where it is set, else `old`; the empty string is unset.
abbrev pub or_else : String → String → String
or_else value old = if value == "" then old else value

unfoldable pub apply_flags : Config → FlagOverrides → Config
apply_flags c f = record c {
  addr = or_else f.addr c.addr;
  leader_elect = or_default f.leader_elect c.leader_elect;
  operator_namespace = or_else f.operator_namespace c.operator_namespace;
}

-- The defaults of the `envDefault` tags.
abbrev pub default_config : Config
default_config = record {
  addr = ":8080";
  metrics_addr = ":9090";
  operator_namespace = "";
  leader_elect = false;
  llm_provider = "openai";
  llm_model = "gpt-4o-mini";
  llm_base_url = "";
  llm_api_key = "";
  max_iterations = ℤ.pos 5;
  diagnosis_concurrency = ℤ.pos 4;
  max_diagnoses_per_hour = ℤ.pos 30;
  event_reason_allowlist =
      "BackOff" ∷ "OOMKilling" ∷ "Failed" ∷ "FailedScheduling" ∷ "Unhealthy" ∷ "FailedMount"
      ∷ "FailedAttachVolume" ∷ "FailedCreate" ∷ "FailedCreatePodSandBox" ∷ "Evicted"
      ∷ "BackoffLimitExceeded" ∷ [];
  redact_enabled = true;
  db_path = "kscribe.db";
  retention_period = ℤ.pos (720 * 3600 * 1000000000);
  dashboard_token = "";
  max_pods_per_workload = ℤ.pos 3;
  resend_api_key = "";
  notify_email_from = "kscribe@notifications.local";
  notify_email_to = [];
  slack_webhook_url = "";
  jira_base_url = "";
  jira_email = "";
  jira_api_token = "";
  jira_project_key = "";
  linear_api_key = "";
  linear_team_id = "";
  resync_period = ℤ.pos (10 * 60 * 1000000000);
}
