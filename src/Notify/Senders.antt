-- ===== src/Notify/Senders.antt =====
-- internal/notify/slack.go, resend.go, jira.go and linear.go: the requests of the channels.
--
-- encoding/json and net/http are parameters: `Encoders`, and `Http`, which builds requests and performs
-- them in the outside world `W`. The error of reading an answer's body is ignored, as the code does: a
-- body is what could be read of it. The clients' timeouts are part of `perform`.
use kscribe.Prelude.{
  Bytes, List, Option, String, bytes, decimal_ℕ, if◌then◌else◌, leb, length, ltb, none, some, take,
  ℕ, ◌++◌, ◌==◌, ◌∷◌,
}
use Prim.Native.String.{◌++◌ as append}
use kscribe.Errors.{Error, other, wrap, Result, ok, err}
use kscribe.Notify.{Notification}
use kscribe.Notify.Render.{subject, html, slack_text, plain_body}

pub data Authorization : Type 0 where
  anonymous : Authorization
  bearer : String → Authorization
  raw_key : String → Authorization
  basic : String → String → Authorization

-- A POST of JSON.
pub record HttpRequest : Type 0 where
  pub url : String
  pub authorization : Authorization
  pub body : Bytes

pub record HttpResponse : Type 0 where
  pub status : ℕ
  pub body : Bytes

pub record Http (W : Type 0) : Type 0 where
  pub build : HttpRequest → Option Error
  pub perform : HttpRequest → W → Result HttpResponse × W

-- emailRequest
pub record EmailRequest : Type 0 where
  pub from : String
  pub to : List String
  pub subject : Bytes
  pub html : Bytes

-- jiraIssueRequest; its description is one paragraph of one text, its issue type Task
pub record JiraIssueRequest : Type 0 where
  pub project_key : String
  pub summary : Bytes
  pub description : Bytes
  pub issue_type : String

-- linearRequest
pub record LinearRequest : Type 0 where
  pub query : Bytes
  pub team_id : String
  pub title : Bytes
  pub description : Bytes

-- json.Marshal at the payloads, and json.Unmarshal at linearResponse: the messages of its errors
pub record Encoders : Type 0 where
  pub slack : Bytes → Result Bytes
  pub email : EmailRequest → Result Bytes
  pub jira : JiraIssueRequest → Result Bytes
  pub linear : LinearRequest → Result Bytes
  pub linear_errors : Bytes → Result (List Bytes)

abbrev pub or_url : String → String → String
or_url url default = if url == "" then default else url

abbrev pub excerpt_limit : ℕ
excerpt_limit = 512

-- a status of 300 or more is an error with the beginning of the body
unfoldable pub check_status : Bytes → HttpResponse → Option Error
check_status channel r =
    if leb 300 r.status
    then some (
        other (
          channel
          ++ bytes " error "
          ++ decimal_ℕ r.status
          ++ bytes ": "
          ++ take excerpt_limit r.body))
    else none

abbrev pub after_answer :
    {W : Type 0}
    → Bytes
    → (HttpResponse → Option Error)
    → Result HttpResponse × W
    → Option Error × W
after_answer what check (err e, w) = (some (wrap what e), w)
after_answer what check (ok r, w) = (check r, w)

-- Resend
pub record Resend : Type 0 where
  pub api_key : String
  pub from : String
  pub to : List String
  pub base_url : String

-- Jira
pub record Jira : Type 0 where
  pub base_url : String
  pub email : String
  pub api_token : String
  pub project_key : String

-- Linear
pub record Linear : Type 0 where
  pub api_key : String
  pub team_id : String
  pub base_url : String

abbrev pub linear_mutation : Bytes
linear_mutation =
    bytes
      "mutation IssueCreate($input: IssueCreateInput!) { issueCreate(input: $input) { success } }"

abbrev pub graphql_error : Bytes → Result (List Bytes) → Option Error
graphql_error truncated (ok (message ∷ rest)) =
    some (other (bytes "linear graphql error: " ++ truncated))
graphql_error truncated _ = none

abbrev pub post_request : String → Authorization → Bytes → HttpRequest
post_request url authorization body = record {
  url = url;
  authorization = authorization;
  body = body;
}

module _ (x : Encoders) where
  -- The status, and then the errors in the first 8192 bytes of the body.
  unfoldable pub check_linear : HttpResponse → Option Error
  check_linear r =
      let read = take 8192 r.body in
      let truncated = if ltb 512 (length read) then take 512 read else read in
      if leb 300 r.status
      then some (other (bytes "linear error " ++ decimal_ℕ r.status ++ bytes ": " ++ truncated))
      else graphql_error truncated (x.linear_errors read)

module _ {W : Type 0} (http : Http W) where
  abbrev pub perform_built :
      Bytes → (HttpResponse → Option Error) → HttpRequest → Option Error → W → Option Error × W
  perform_built what check req (some e) w = (some (wrap (bytes "build request: ") e), w)
  perform_built what check req none w = after_answer what check (http.perform req w)

  -- From the marshalled payload on, as the four senders do it.
  unfoldable pub post :
      Bytes
      → Bytes
      → (HttpResponse → Option Error)
      → String
      → Authorization
      → Result Bytes
      → W
      → Option Error × W
  post marshal what check url authorization (err e) w = (some (wrap marshal e), w)
  post marshal what check url authorization (ok body) w =
      let req = post_request url authorization body in
      perform_built what check req (http.build req) w

module _ {W : Type 0} (x : Encoders) (http : Http W) where
  unfoldable pub slack_notify : String → Notification → W → Option Error × W
  slack_notify webhook_url n w =
      post http (bytes "marshal slack payload: ") (bytes "post slack webhook: ")
        (check_status (bytes "slack")) webhook_url anonymous (x.slack (slack_text n)) w

  unfoldable pub send : Resend → Bytes → Bytes → W → Option Error × W
  send r title text w =
      post http (bytes "marshal email: ") (bytes "send email: ") (check_status (bytes "resend"))
        (append (or_url r.base_url "https://api.resend.com") "/emails") (bearer r.api_key)
        (x.email (record { from = r.from; to = r.to; subject = title; html = text })) w

  unfoldable pub resend_notify : Resend → Notification → W → Option Error × W
  resend_notify r n w = send r (subject n) (html n) w

  unfoldable pub jira_notify : Jira → Notification → W → Option Error × W
  jira_notify j n w =
      post http (bytes "marshal jira issue: ") (bytes "create jira issue: ")
        (check_status (bytes "jira")) (append j.base_url "/rest/api/3/issue")
        (basic j.email j.api_token)
        (x.jira (record {
          project_key = j.project_key;
          summary = subject n;
          description = plain_body n;
          issue_type = "Task";
        }))
        w

  unfoldable pub linear_notify : Linear → Notification → W → Option Error × W
  linear_notify l n w =
      post http (bytes "marshal linear issue: ") (bytes "create linear issue: ") (check_linear x)
        (or_url l.base_url "https://api.linear.app/graphql") (raw_key l.api_key)
        (x.linear (record {
          query = linear_mutation;
          team_id = l.team_id;
          title = subject n;
          description = plain_body n;
        }))
        w
