-- ===== src/Tools.antt =====
-- internal/controller/tool_executor.go and internal/agent/tools.go: the tools that the model may call.
--
-- The decoding of a call's arguments is the parameter `ToolArguments`. What a tool reads is redacted
-- before it is handed to the model. A client that panics is outside of this model: Execute does not
-- recover, so an answer `panicked` of the log stream is `none`, no return at all.
pub mod Answers
pub mod Noninterference
mod Tests
use kscribe.Prelude.{
  Bool, Bytes, List, Option, String, StringMap, [], bytes, decimal, if◌then◌else◌, is_positive, leb,
  length, ltb, none, not, pos_part, some, suc, take, ℕ, ℤ, ◌&&◌, ◌*◌, ◌++◌, ◌==◌, ◌∷◌,
}
use kscribe.Agent.Schema.{ToolDefinition}
use kscribe.Cluster.{Event}
use kscribe.Cluster.Objects.{
  ObjectCondition, Node, LogOptions, LogStream, Opening, opened, refused, panicked, Reader,
}
use kscribe.Enricher.{Patterns, redact}
use kscribe.Errors.{Error, other, wrap, Result, ok, err}

abbrev pub max_tail_lines : ℕ
max_tail_lines = 200

abbrev pub default_tail : ℕ
default_tail = 100

abbrev pub max_log_bytes : ℕ
max_log_bytes = 8 * 1024

abbrev pub max_event_count : ℕ
max_event_count = 30

pub record LogArguments : Type 0 where
  pub namespace : String
  pub pod : String
  pub container : String
  pub tail : ℤ

pub record EventArguments : Type 0 where
  pub namespace : String
  pub object_name : String

-- json.Unmarshal at the arguments of each tool
pub record ToolArguments : Type 0 where
  pub logs : Bytes → Result LogArguments
  pub events : Bytes → Result EventArguments
  pub node : Bytes → Result String

-- the number of lines asked for
unfoldable pub tail_lines : ℤ → ℕ
tail_lines tail =
    let asked = if is_positive tail then pos_part tail else default_tail in
    if ltb max_tail_lines asked then max_tail_lines else asked

-- io.ReadAll of the stream behind a reader of at most `limit` bytes, which ends without an error there
abbrev pub read_limited : ℕ → LogStream → Result Bytes
read_limited limit s =
    if leb limit (length s.content)
    then ok (take limit s.content)
    else elim s.failure [ none ↦ ok s.content | some e ↦ err e ]

abbrev pub is_skipped : String → Event → Bool
is_skipped object_name ev = not (object_name == "") && not (ev.involved_object.name == object_name)

unfoldable pub capacity_lines : StringMap Bytes → Bytes
capacity_lines [] = []
capacity_lines ((resource, quantity) ∷ rest) =
    (bytes "  " ++ bytes resource ++ bytes ": " ++ quantity ++ bytes "\n") ++ capacity_lines rest

module _ (x : Patterns) where
  abbrev pub redacted_logs : Result Bytes → Result Bytes
  redacted_logs (err e) = err (wrap (bytes "read logs: ") e)
  redacted_logs (ok content) = ok (redact x content)

  abbrev pub after_open : Opening → Option (Result Bytes)
  after_open (opened s) = some (redacted_logs (read_limited max_log_bytes s))
  after_open (refused e) = some (err (wrap (bytes "stream logs: ") e))
  after_open (panicked value) = none

  abbrev pub event_line : Event → Bytes
  event_line ev =
      bytes "["
      ++ bytes ev.reason
      ++ bytes "] "
      ++ bytes ev.involved_object.name
      ++ bytes " (x"
      ++ decimal ev.count
      ++ bytes "): "
      ++ redact x ev.message
      ++ bytes "\n"

  -- The loop over the events with its count and the text so far.
  unfoldable pub event_lines : String → ℕ → Bytes → List Event → Bytes
  event_lines object_name count text [] = text
  event_lines object_name count text (ev ∷ rest) =
      let skipped = event_lines object_name count text rest in
      let written = event_lines object_name (suc count) (text ++ event_line ev) rest in
      if is_skipped object_name ev
      then skipped
      else if leb max_event_count count
      then text
      else written

  abbrev pub after_events : String → Result (List Event) → Result Bytes
  after_events object_name (err e) = err (wrap (bytes "list events: ") e)
  after_events object_name (ok events) = ok (event_lines object_name 0 [] events)

  unfoldable pub condition_lines : List ObjectCondition → Bytes
  condition_lines [] = []
  condition_lines (c ∷ rest) =
      (bytes "  "
        ++ bytes c.kind
        ++ bytes "="
        ++ bytes c.status
        ++ bytes ": "
        ++ redact x c.message
        ++ bytes "\n")
      ++ condition_lines rest

  unfoldable pub node_text : Node → Bytes
  node_text node =
      bytes "Conditions:\n"
      ++ condition_lines node.conditions
      ++ bytes "Capacity:\n"
      ++ capacity_lines node.capacity

  abbrev pub after_node : Result Node → Result Bytes
  after_node (err e) = err (wrap (bytes "get node: ") e)
  after_node (ok node) = ok (node_text node)

abbrev pub parse_error : Error → Result Bytes
parse_error e = err (wrap (bytes "parse args: ") e)

-- %q quotes the tool's name; a name with no quote or control character stands between quotes
unfoldable pub unknown_tool : String → Error
unknown_tool name = other (bytes "unknown tool: \"" ++ bytes name ++ bytes "\"")

-- KubeToolExecutor; its two clients are one reader.
pub record KubeToolExecutor (W : Type 0) : Type 0 where
  pub reader : Reader W
  pub patterns : Patterns
  pub arguments : ToolArguments

module _ {W : Type 0} (k : KubeToolExecutor W) where
  abbrev pub log_options : LogArguments → LogOptions
  log_options args = record {
    namespace = args.namespace;
    pod = args.pod;
    container = args.container;
    tail_lines = ℤ.pos (tail_lines args.tail);
  }

  abbrev pub logs_with : Result LogArguments → W → Option (Result Bytes) × W
  logs_with (err e) w = (some (parse_error e), w)
  logs_with (ok args) w =
      let (opening, w') = k.reader.open_logs (log_options args) w in
      (after_open k.patterns opening, w')

  unfoldable pub get_pod_logs : Bytes → W → Option (Result Bytes) × W
  get_pod_logs args_json w = logs_with (k.arguments.logs args_json) w

  abbrev pub events_with : Result EventArguments → W → Result Bytes × W
  events_with (err e) w = (parse_error e, w)
  events_with (ok args) w =
      let (answer, w') = k.reader.list_events args.namespace w in
      (after_events k.patterns args.object_name answer, w')

  unfoldable pub get_events : Bytes → W → Result Bytes × W
  get_events args_json w = events_with (k.arguments.events args_json) w

  abbrev pub node_with : Result String → W → Result Bytes × W
  node_with (err e) w = (parse_error e, w)
  node_with (ok name) w =
      let (answer, w') = k.reader.get_node name w in (after_node k.patterns answer, w')

  unfoldable pub get_node : Bytes → W → Result Bytes × W
  get_node args_json w = node_with (k.arguments.node args_json) w

  abbrev pub returned : Result Bytes × W → Option (Result Bytes) × W
  returned (answer, w) = (some answer, w)

  unfoldable pub execute : String → Bytes → W → Option (Result Bytes) × W
  execute name args_json w =
      if name == "get_pod_logs"
      then get_pod_logs args_json w
      else if name == "get_events"
      then returned (get_events args_json w)
      else if name == "get_node"
      then returned (get_node args_json w)
      else (some (err (unknown_tool name)), w)

-- The tools that are offered to the model; the schemas are the texts that encoding/json writes for
-- their maps, whose keys it sorts.
unfoldable pub kube_tools : List ToolDefinition
kube_tools =
    record {
      kind = "function";
      function = record {
        name = "get_pod_logs";
        description = "Fetch recent log lines from a pod container in the cluster.";
        parameters =
            bytes
              "{\"properties\":{\"container\":{\"description\":\"Container name (optional)\",\"type\":\"string\"},\"namespace\":{\"description\":\"Pod namespace\",\"type\":\"string\"},\"pod\":{\"description\":\"Pod name\",\"type\":\"string\"},\"tail\":{\"description\":\"Number of tail lines (default 100)\",\"type\":\"integer\"}},\"required\":[\"namespace\",\"pod\"],\"type\":\"object\"}";
      };
    }
    ∷ record {
      kind = "function";
      function = record {
        name = "get_events";
        description = "List recent Kubernetes events for an object in a namespace.";
        parameters =
            bytes
              "{\"properties\":{\"namespace\":{\"description\":\"Namespace to list events from\",\"type\":\"string\"},\"object_name\":{\"description\":\"Involved object name filter (optional)\",\"type\":\"string\"}},\"required\":[\"namespace\"],\"type\":\"object\"}";
      };
    }
    ∷ record {
      kind = "function";
      function = record {
        name = "get_node";
        description = "Get conditions and capacity for a specific cluster node.";
        parameters =
            bytes
              "{\"properties\":{\"node_name\":{\"description\":\"Node name\",\"type\":\"string\"}},\"required\":[\"node_name\"],\"type\":\"object\"}";
      };
    }
    ∷ []
