-- ===== src/Tools/Noninterference.antt =====
-- The model sees of the cluster only what redaction leaves of it.
use kscribe.Prelude.{
  Bool, Bool-cases, Bytes, List, Option, String, StringMap, [], ap, arith, bytes, decimal,
  if◌then◌else◌, inl, inr, leb, length, map, none, not, refl, some, suc, take, take_all, ℕ, ℤ, ◌&&◌,
  ◌++◌, ◌==◌, ◌∷◌, ◌≡◌,
}
use kscribe.Cluster.{Event}
use kscribe.Cluster.Objects.{
  ObjectCondition, Node, Opening, opened, refused, panicked, LogOptions, Reader,
}
use kscribe.Enricher.{Patterns, redact}
use kscribe.Errors.{Error, wrap, Result, ok, err}
use kscribe.Tools.{
  max_event_count, max_log_bytes, redacted_logs, after_open, event_line, event_lines, after_events,
  condition_lines, capacity_lines, node_text, after_node, ToolArguments, KubeToolExecutor,
  LogArguments, EventArguments, log_options, logs_with, events_with, node_with, get_pod_logs,
  get_events, get_node, execute,
}

-- An event as its reason, its object's name, its count and its redacted message.
abbrev pub SeenEvent : Type 0
SeenEvent = String × String × ℤ × Bytes

-- A node as its conditions, with redacted messages, and its capacity.
abbrev pub SeenNode : Type 0
SeenNode = List (String × String × Bytes) × StringMap Bytes

-- A log stream as its first 8192 bytes, redacted, whether there are as many, and its failure.
pub data SeenOpening : Type 0 where
  seen_stream : Bytes → Bool → Option Error → SeenOpening
  seen_refusal : Error → SeenOpening
  seen_panic : SeenOpening

abbrev pub Result-map : {A B : Type 0} → (A → B) → Result A → Result B
Result-map f (ok a) = ok (f a)
Result-map f (err e) = err e

abbrev pub seen : {A B W : Type 0} → (A → B) → Result A × W → Result B × W
seen f (answer, w) = (Result-map f answer, w)

module _ (x : Patterns) where
  abbrev pub seen_event : Event → SeenEvent
  seen_event ev = (ev.reason, ev.involved_object.name, ev.count, redact x ev.message)

  abbrev pub seen_condition : ObjectCondition → String × String × Bytes
  seen_condition c = (c.kind, c.status, redact x c.message)

  abbrev pub seen_node : Node → SeenNode
  seen_node node = (map seen_condition node.conditions, node.capacity)

  abbrev pub seen_opening : Opening → SeenOpening
  seen_opening (opened s) =
      seen_stream (redact x (take max_log_bytes s.content)) (leb max_log_bytes (length s.content))
        s.failure
  seen_opening (refused e) = seen_refusal e
  seen_opening (panicked value) = seen_panic

  abbrev pub seen_logs : {W : Type 0} → Opening × W → SeenOpening × W
  seen_logs (opening, w) = (seen_opening opening, w)

  -- Two clusters that answer alike up to redaction, and change alike.
  pub record Alike {W : Type 0} (r r' : Reader W) : Type 0 where
    pub events :
        (ns : String) (w : W)
        → seen (map seen_event) (r.list_events ns w) ≡ seen (map seen_event) (r'.list_events ns w)
    pub nodes :
        (name : String) (w : W)
        → seen seen_node (r.get_node name w) ≡ seen seen_node (r'.get_node name w)
    pub logs : (o : LogOptions) (w : W) → seen_logs (r.open_logs o w) ≡ seen_logs (r'.open_logs o w)

-- The texts as functions of what is seen.
line_of : SeenEvent → Bytes
line_of (reason, name, count, message) =
    bytes "["
    ++ bytes reason
    ++ bytes "] "
    ++ bytes name
    ++ bytes " (x"
    ++ decimal count
    ++ bytes "): "
    ++ message
    ++ bytes "\n"

lines_of : String → ℕ → Bytes → List SeenEvent → Bytes
lines_of o count text [] = text
lines_of o count text ((reason, name, n, message) ∷ rest) =
    let skipped = lines_of o count text rest in
    let written = lines_of o (suc count) (text ++ line_of (reason, name, n, message)) rest in
    if not (o == "") && not (name == o)
    then skipped
    else if leb max_event_count count
    then text
    else written

event_lines-seen :
    (x : Patterns) (o : String) (count : ℕ) (text : Bytes) (events : List Event)
    → event_lines x o count text events ≡ lines_of o count text (map (seen_event x) events)
unfolding event_lines lines_of line_of
event_lines-seen x o count text [] = refl
event_lines-seen x o count text (ev ∷ rest) =
    rw
      (
        event_lines-seen x o count text rest,
        event_lines-seen x o (suc count) (text ++ event_line x ev) rest,
      )
      refl

conditions_of : List (String × String × Bytes) → Bytes
conditions_of [] = []
conditions_of ((kind, status, message) ∷ rest) =
    (bytes "  " ++ bytes kind ++ bytes "=" ++ bytes status ++ bytes ": " ++ message ++ bytes "\n")
    ++ conditions_of rest

condition_lines-seen :
    (x : Patterns) (cs : List ObjectCondition)
    → condition_lines x cs ≡ conditions_of (map (seen_condition x) cs)
unfolding condition_lines conditions_of
condition_lines-seen x [] = refl
condition_lines-seen x (c ∷ rest) = rw (condition_lines-seen x rest) refl

events_answer : String → Result (List SeenEvent) → Result Bytes
events_answer o (err e) = err (wrap (bytes "list events: ") e)
events_answer o (ok events) = ok (lines_of o 0 [] events)

node_answer : Result SeenNode → Result Bytes
node_answer (err e) = err (wrap (bytes "get node: ") e)
node_answer (ok (conditions, capacity)) = ok (
    bytes "Conditions:\n"
    ++ conditions_of conditions
    ++ bytes "Capacity:\n"
    ++ capacity_lines capacity)

stream_answer : Bytes → Option Error → Result Bytes
stream_answer content none = ok content
stream_answer content (some e) = err (wrap (bytes "read logs: ") e)

opening_answer : SeenOpening → Option (Result Bytes)
opening_answer (seen_stream content full failure) =
    some (if full then ok content else stream_answer content failure)
opening_answer (seen_refusal e) = some (err (wrap (bytes "stream logs: ") e))
opening_answer seen_panic = none

after_open-seen :
    (x : Patterns) (opening : Opening)
    → after_open x opening ≡ opening_answer (seen_opening x opening)
unfolding opening_answer stream_answer
after_open-seen x (refused e) = refl
after_open-seen x (panicked value) = refl
after_open-seen x (opened s) = elim (Bool-cases (leb max_log_bytes (length s.content))) [
  | inl full ↦ rw full refl
  | inr short ↦
      rw short (at_end (take_all max_log_bytes s.content (ground (arith, short))) s.failure)
]
  where
    at_end :
        take max_log_bytes s.content ≡ s.content
        → (failure : Option Error)
        → some (redacted_logs x (elim failure [ none ↦ ok s.content | some e ↦ err e ]))
          ≡ some (stream_answer (redact x (take max_log_bytes s.content)) failure)
    at_end whole none = rw whole refl
    at_end whole (some e) = refl

after_events-seen :
    (x : Patterns) (o : String) (answer : Result (List Event))
    → after_events x o answer ≡ events_answer o (Result-map (map (seen_event x)) answer)
unfolding events_answer
after_events-seen x o (err e) = refl
after_events-seen x o (ok events) = ap ok (event_lines-seen x o 0 [] events)

after_node-seen :
    (x : Patterns) (answer : Result Node)
    → after_node x answer ≡ node_answer (Result-map (seen_node x) answer)
unfolding node_answer node_text
after_node-seen x (err e) = refl
after_node-seen x (ok node) = rw (condition_lines-seen x node.conditions) refl

module _ {W : Type 0} (x : Patterns) (arguments : ToolArguments) (r r' : Reader W)
    (alike : Alike x r r') where
  abbrev with : Reader W → KubeToolExecutor W
  with reader = record { reader = reader; patterns = x; arguments = arguments }

  logs_alike :
      (decoded : Result LogArguments) (w : W)
      → logs_with (with r) decoded w ≡ logs_with (with r') decoded w
  logs_alike (err e) w = refl
  logs_alike (ok args) w =
      rw
        (
          after_open-seen x (r.open_logs (log_options (with r) args) w).0,
          after_open-seen x (r'.open_logs (log_options (with r') args) w).0,
        )
        (ap (λ (p : SeenOpening × W). (opening_answer p.0, p.1))
          (alike.logs (log_options (with r) args) w))

  events_alike :
      (decoded : Result EventArguments) (w : W)
      → events_with (with r) decoded w ≡ events_with (with r') decoded w
  events_alike (err e) w = refl
  events_alike (ok args) w =
      rw
        (
          after_events-seen x args.object_name (r.list_events args.namespace w).0,
          after_events-seen x args.object_name (r'.list_events args.namespace w).0,
        )
        (ap (λ (p : Result (List SeenEvent) × W). (events_answer args.object_name p.0, p.1))
          (alike.events args.namespace w))

  node_alike :
      (decoded : Result String) (w : W)
      → node_with (with r) decoded w ≡ node_with (with r') decoded w
  node_alike (err e) w = refl
  node_alike (ok name) w =
      rw (after_node-seen x (r.get_node name w).0, after_node-seen x (r'.get_node name w).0)
        (ap (λ (p : Result SeenNode × W). (node_answer p.0, p.1)) (alike.nodes name w))

  -- Clusters that answer alike up to the redaction of messages and of logs (of these, the first 8192
  -- bytes), and change alike, give the model the same answers, whatever it calls.
  pub execute_alike :
      (name : String) (args_json : Bytes) (w : W)
      → execute (with r) name args_json w ≡ execute (with r') name args_json w
  unfolding execute get_pod_logs get_events get_node
  execute_alike name args_json w =
      rw
        (
          logs_alike (arguments.logs args_json) w,
          events_alike (arguments.events args_json) w,
          node_alike (arguments.node args_json) w,
        )
        refl
