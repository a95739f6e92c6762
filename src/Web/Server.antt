-- ===== src/Web/Server.antt =====
-- internal/web/server.go and templates/viewmodel.go: the handlers' decisions, and the frames of the
-- event stream.
--
-- A handler is a function of what it reads of the request and of the store; `like` and `tie` are
-- those of the store. A fault is what the store's driver refuses at a call. The pages are rendered by
-- templ from the arguments that are given here.
pub mod Paging
pub mod Frames
mod Tests
use kscribe.Prelude.{
  Bool, Bytes, List, Option, String, StringMap, [], bytes, drop_cr, eqb, if◌then◌else◌, is_empty,
  is_positive, leb, length, ltb, map, max_scan_token_size, none, parse_int, parsed_value, pos_part,
  some, trim_space, ℕ, ◌*◌, ◌++◌, ◌+◌, ◌-◌, ◌/◌, ◌||◌, ◌∷◌,
}
use kscribe.Errors.{Error, error_text, Result, ok, err}
use kscribe.Store.{
  count_incidents, count_incidents_by_phase, list_incidents_page, list_chat_messages, get_incident,
}
use kscribe.Store.Schema.{Incident, Diagnosis, ChatMessage, IncidentFilter, IncidentDetail, Db}
use kscribe.Enricher.{Snapshot}
use kscribe.Web.Chat.Turn.{ChatWorld, read_incident}

abbrev pub page_size : ℕ
page_size = 25

-- A status with a text, or status 200 with what is shown.
pub data Reply (A : Type 0) : Type 0 where
  http_error : ℕ → Bytes → Reply A
  shown : A → Reply A

-- The query of the list: its `page` as written, and the filter.
pub record ListQuery : Type 0 where
  pub page : Bytes
  pub filter : IncidentFilter

-- What the list is rendered from.
pub record ListPage : Type 0 where
  pub incidents : List Incident
  pub totals : StringMap ℕ
  pub page : ℕ
  pub last_page : ℕ

-- The page that is asked for, at least 1; the error of Atoi is ignored.
unfoldable pub asked_page : Bytes → ℕ
unfolding parse_int
asked_page text =
    let page = parsed_value (parse_int text) in if is_positive page then pos_part page else 1

unfoldable pub last_page_of : ℕ → ℕ
last_page_of total =
    let last_page = (total + page_size - 1) / page_size in if ltb last_page 1 then 1 else last_page

abbrev pub clamp_page : ℕ → ℕ → ℕ
clamp_page page last_page = if ltb last_page page then last_page else page

pub record ListFaults : Type 0 where
  pub totals : Option Error
  pub total : Option Error
  pub page : Option Error

module _ (like : Bytes → Bytes → Bool) (tie : Incident → Incident → Bool) where
  -- the list at a page that was asked for, at least 1
  unfoldable pub list_at : IncidentFilter → ℕ → Db → ListPage
  list_at filter asked db =
      let last_page = last_page_of (count_incidents like filter db) in
      let page = clamp_page asked last_page in
      record {
        incidents = list_incidents_page like tie filter page_size ((page - 1) * page_size) db;
        totals = count_incidents_by_phase like filter db;
        page = page;
        last_page = last_page;
      }

  abbrev list_with : Option Error → Option Error → Option Error → ListPage → Reply ListPage
  list_with (some e) _ _ page = http_error 500 (bytes "failed to count incidents")
  list_with none (some e) _ page = http_error 500 (bytes "failed to count incidents")
  list_with none none (some e) page = http_error 500 (bytes "failed to list incidents")
  list_with none none none page = shown page

  unfoldable pub list : ListFaults → ListQuery → Db → Reply ListPage
  list faults q db =
      list_with faults.totals faults.total faults.page (list_at q.filter (asked_page q.page) db)

-- TraceStep, whose arguments and result are JSON values: their texts.
pub record TraceStepView : Type 0 where
  pub tool : Bytes
  pub args : Bytes
  pub result : Bytes

pub record DiagnosisView : Type 0 where
  pub diagnosis : Diagnosis
  pub snapshot : Option Snapshot
  pub trace_steps : List TraceStepView

pub record IncidentDetailView : Type 0 where
  pub detail : IncidentDetail
  pub diagnosis_views : List DiagnosisView
  pub chat_messages : List ChatMessage

-- encoding/json: a snapshot, if its text is one; of a trace, the steps that were decoded before an
-- error, if any
pub record Decoders : Type 0 where
  pub snapshot : Bytes → Result Snapshot
  pub trace : Bytes → List TraceStepView

abbrev pub ok_or_none : {A : Type 0} → Result A → Option A
ok_or_none (ok a) = some a
ok_or_none (err e) = none

module _ (x : Decoders) where
  abbrev pub diagnosis_view : Diagnosis → DiagnosisView
  diagnosis_view d = record {
    diagnosis = d;
    snapshot = if is_empty d.context_json then none else ok_or_none (x.snapshot d.context_json);
    trace_steps = if is_empty d.trace_json then [] else x.trace d.trace_json;
  }

  unfoldable pub build_detail_view : IncidentDetail → List ChatMessage → IncidentDetailView
  build_detail_view detail messages = record {
    detail = detail;
    diagnosis_views = map diagnosis_view detail.diagnoses;
    chat_messages = messages;
  }

  abbrev pub detail_with :
      Option Error → List ChatMessage → Result IncidentDetail → Reply IncidentDetailView
  detail_with fault messages (err e) = http_error 404 (bytes "incident not found")
  detail_with none messages (ok detail) = shown (build_detail_view detail messages)
  detail_with (some e) messages (ok detail) = shown (build_detail_view detail [])

  -- A fault of the second read shows the incident without its conversation.
  unfoldable pub detail :
      Option Error → Option Error → String → String → Db → Reply IncidentDetailView
  detail get_fault list_fault ns name db =
      detail_with list_fault (list_chat_messages ns name db)
        (read_incident get_fault (get_incident ns name db))

-- The message of a chat request: the form's, or else the body, without white space around it.
unfoldable pub chat_message_of : Bytes → Bytes → Bytes
chat_message_of form body = trim_space (if is_empty form then body else form)

abbrev pub chat_status : {W : Type 0} → Option Error × ChatWorld W → Reply Unit × ChatWorld W
chat_status (none, c) = (shown tt, c)
chat_status (some e, c) = (http_error 500 (error_text e), c)

-- `turn` is RunChat with the server's provider, if it has one.
abbrev pub chat_with :
    {W : Type 0}
    → Option (Bytes → ChatWorld W → Option Error × ChatWorld W)
    → Bytes
    → ChatWorld W
    → Reply Unit × ChatWorld W
chat_with none message c = (http_error 500 (bytes "chat provider not configured"), c)
chat_with (some turn) message c = chat_status (turn message c)

unfoldable pub chat_post :
    {W : Type 0}
    → Option (Bytes → ChatWorld W → Option Error × ChatWorld W)
    → Bytes
    → Bytes
    → ChatWorld W
    → Reply Unit × ChatWorld W
chat_post turn form body c =
    let message = chat_message_of form body in
    if is_empty message
    then (http_error 400 (bytes "empty message"), c)
    else chat_with turn message c

-- The lines of a text, as the scanner gives them: the rest behind `line`, the bytes read of the current
-- one. A line that does not fit into the buffer ends the scan.
unfoldable pub scan_lines : Bytes → Bytes → List Bytes
scan_lines line [] =
    if is_empty line || leb max_scan_token_size (length line) then [] else drop_cr line ∷ []
scan_lines line (c ∷ rest) =
    let next = scan_lines [] rest in
    let longer = scan_lines (line ++ c ∷ []) rest in
    if leb max_scan_token_size (length line)
    then []
    else if eqb c 10
    then drop_cr line ∷ next
    else longer

abbrev pub data_lines : List Bytes → Bytes
data_lines [] = []
data_lines (line ∷ rest) = (bytes "data: " ++ line ++ bytes "\n") ++ data_lines rest

unfoldable pub write_sse : Bytes → Bytes
write_sse html = data_lines (scan_lines [] html) ++ bytes "\n"
