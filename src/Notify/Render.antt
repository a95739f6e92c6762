-- ===== src/Notify/Render.antt =====
-- internal/notify/email.go, slack.go and jira.go: the texts of a notification.
use kscribe.Prelude.{
  Bytes, List, [], bytes, decimal_ℕ, eqb, escape_html, if◌then◌else◌, is_empty, suc, ℕ, ◌++◌, ◌∷◌,
}
use kscribe.Notify.{Notification}

abbrev pub join_texts : List Bytes → Bytes
join_texts [] = []
join_texts (text ∷ rest) = text ++ join_texts rest

-- Subject
unfoldable pub subject : Notification → Bytes
subject n =
    bytes "[kscribe] "
    ++ bytes n.phase
    ++ bytes ": "
    ++ bytes n.reason
    ++ bytes " "
    ++ bytes n.namespace
    ++ bytes "/"
    ++ bytes n.object

abbrev pub unless_empty : Bytes → Bytes → Bytes
unless_empty field text = if is_empty field then [] else text

-- HTML
abbrev pub list_items : List Bytes → Bytes
list_items [] = []
list_items (step ∷ rest) = bytes "<li>" ++ escape_html step ++ bytes "</li>" ++ list_items rest

abbrev pub remediation_html : List Bytes → Bytes
remediation_html [] = []
remediation_html (step ∷ rest) =
    bytes "<p><strong>Remediation:</strong></p><ol>" ++ list_items (step ∷ rest) ++ bytes "</ol>"

unfoldable pub html : Notification → Bytes
html n =
    bytes "<div style=\"font-family:system-ui,sans-serif;max-width:640px\">"
    ++ (bytes "<h2 style=\"margin:0 0 4px\">"
        ++ escape_html (bytes n.reason)
        ++ bytes " — "
        ++ escape_html (bytes n.phase)
        ++ bytes "</h2>")
    ++ (bytes "<p style=\"color:#555;margin:0 0 16px\">"
        ++ escape_html (bytes n.namespace)
        ++ bytes "/"
        ++ escape_html (bytes n.object)
        ++ bytes "</p>")
    ++ unless_empty n.summary
        (bytes "<p><strong>Summary:</strong> " ++ escape_html n.summary ++ bytes "</p>")
    ++ unless_empty n.root_cause
        (bytes "<p><strong>Root cause:</strong> " ++ escape_html n.root_cause ++ bytes "</p>")
    ++ remediation_html n.remediation
    ++ bytes
        "<p style=\"color:#888;font-size:12px;margin-top:24px\">Sent by kscribe — see the dashboard for redacted context, trace, and chat.</p></div>"

-- slackEscape
abbrev pub slack_escape_byte : ℕ → Bytes
slack_escape_byte c =
    if eqb c 38
    then bytes "&amp;"
    else if eqb c 60
    then bytes "&lt;"
    else if eqb c 62
    then bytes "&gt;"
    else c ∷ []

unfoldable pub slack_escape : Bytes → Bytes
slack_escape [] = []
slack_escape (c ∷ rest) = slack_escape_byte c ++ slack_escape rest

-- the numbered steps, from a number on, each written by a function
unfoldable pub numbered : (Bytes → Bytes) → ℕ → List Bytes → Bytes
numbered write number [] = []
numbered write number (step ∷ rest) =
    (decimal_ℕ number ++ bytes ". " ++ write step ++ bytes "\n") ++ numbered write (suc number) rest

-- the text that Slack.Notify posts
unfoldable pub slack_text : Notification → Bytes
slack_text n =
    (bytes "*[kscribe] "
      ++ slack_escape (bytes n.phase)
      ++ bytes ": "
      ++ slack_escape (bytes n.reason)
      ++ bytes " "
      ++ slack_escape (bytes n.namespace)
      ++ bytes "/"
      ++ slack_escape (bytes n.object)
      ++ bytes "*\n")
    ++ unless_empty n.summary (bytes "*Summary:* " ++ slack_escape n.summary ++ bytes "\n")
    ++ unless_empty n.root_cause (bytes "*Root cause:* " ++ slack_escape n.root_cause ++ bytes "\n")
    ++ numbered slack_escape 1 n.remediation

-- plainBody
unfoldable pub plain_body : Notification → Bytes
plain_body n =
    unless_empty n.summary (bytes "Summary: " ++ n.summary ++ bytes "\n")
    ++ unless_empty n.root_cause (bytes "Root cause: " ++ n.root_cause ++ bytes "\n")
    ++ numbered (λ step. step) 1 n.remediation
