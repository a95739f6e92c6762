-- ===== src/Operator.antt =====
-- cmd/kscribe/main.go: the choices that the program makes of its configuration, and the retention sweep.
--
-- The wiring of the manager, the signals and the logs are not modelled. The HTTP client is the one that
-- the channels share.
pub mod Channels
pub mod Sweeps
use kscribe.Store.Schema.{Db}
use kscribe.Store.Pruning.{prune, PruneFaults}
use kscribe.Prelude.{
  Bool, List, Option, String, [], if◌then◌else◌, is_empty, none, not, some, ℕ, ◌&&◌, ◌++◌, ◌-◌,
  ◌==◌, ◌∷◌,
}
use kscribe.Config.{Config}
use kscribe.Errors.{Error, Result}
use kscribe.Cluster.{Client}
use kscribe.Notify.{Notifier, multi}
use kscribe.Notify.Senders.{Encoders, Http, slack_notify, resend_notify, jira_notify, linear_notify}
use kscribe.Retention.{prune_diagnosis_crs}
use kscribe.Agent.OpenAi.{OpenAiClient, new_open_ai_client, resolve_base_url}

abbrev pub leader_namespace : Config → String
leader_namespace cfg =
    if cfg.operator_namespace == "" then "kscribe-system" else cfg.operator_namespace

unfoldable pub provider_of : Config → OpenAiClient
provider_of cfg =
    new_open_ai_client (resolve_base_url cfg.llm_provider cfg.llm_base_url) cfg.llm_api_key
      cfg.llm_model

module _ {W : Type 0} (x : Encoders) (http : Http W) (cfg : Config) where
  abbrev pub when : Bool → Notifier W → List (Notifier W)
  when chosen notifier = if chosen then notifier ∷ [] else []

  -- the channels that are configured, in their order
  unfoldable pub notifiers_of : List (Notifier W)
  notifiers_of =
      when (not (cfg.resend_api_key == "") && not (is_empty cfg.notify_email_to)) (record {
        notify = resend_notify x http (record {
          api_key = cfg.resend_api_key;
          from = cfg.notify_email_from;
          to = cfg.notify_email_to;
          base_url = "";
        });
      })
      ++ when (not (cfg.slack_webhook_url == ""))
          (record { notify = slack_notify x http cfg.slack_webhook_url })
      ++ when (not (cfg.jira_base_url == "") && not (cfg.jira_project_key == "")) (record {
        notify = jira_notify x http (record {
          base_url = cfg.jira_base_url;
          email = cfg.jira_email;
          api_token = cfg.jira_api_token;
          project_key = cfg.jira_project_key;
        });
      })
      ++ when (not (cfg.linear_api_key == "") && not (cfg.linear_team_id == "")) (record {
        notify =
            linear_notify x http (record {
              api_key = cfg.linear_api_key;
              team_id = cfg.linear_team_id;
              base_url = "";
            });
      })

-- the notifier of the reconciler
unfoldable pub chosen_notifier : {W : Type 0} → List (Notifier W) → Option (Notifier W)
chosen_notifier [] = none
chosen_notifier (notifier ∷ []) = some notifier
chosen_notifier (notifier ∷ (second ∷ rest)) = some (multi (notifier ∷ second ∷ rest))

-- One turn of runPruner: the store first, then the objects, whatever the first answered. The clock is
-- `now`; both results are only logged.
unfoldable pub prune_round :
    {W : Type 0}
    → Client W
    → ℕ
    → PruneFaults
    → ℕ
    → Db × W
    → (Result ℕ × (ℕ × List Error)) × (Db × W)
prune_round client retention faults now (db, w) =
    let (pruned, db') = prune faults (now - retention) db in
    let (deleted, w') = prune_diagnosis_crs client (now - retention) w in
    ((pruned, deleted), (db', w'))

-- runPruner up to its end: a turn for each tick, at its instant and with the faults that it meets
unfoldable pub run_pruner : {W : Type 0} → Client W → ℕ → List (PruneFaults × ℕ) → Db × W → Db × W
run_pruner client retention [] state = state
run_pruner client retention ((faults, now) ∷ rest) state =
    run_pruner client retention rest (prune_round client retention faults now state).1
