-- ===== src/Tools/Answers.antt =====
-- What the tools answer: how much of the logs, and which events.
use kscribe.Prelude.{
  Bool-cases, Bytes, List, Option, String, [], any_of, append-nil, append_assoc, arith, false, inl,
  inr, keep_if, leb, leb_false→lt, length, length-take-le, none, not, refl, some, suc, take, true,
  zero, ℕ, ℤ, ◌++◌, ◌-◌, ◌==◌, ◌∷◌, ◌≡◌, ◌≤◌,
}
use mathlib.Core.Path.{subst}
use kscribe.Agent.Schema.{ToolDefinition}
use kscribe.Cluster.{Event}
use kscribe.Cluster.Objects.{LogStream, Opening, opened, refused, panicked}
use kscribe.Enricher.{Patterns, redact}
use kscribe.Errors.{Error, Result, ok, err}
use kscribe.Tools.{
  max_event_count, max_log_bytes, tail_lines, read_limited, redacted_logs, after_open, event_line,
  is_skipped, event_lines, KubeToolExecutor, EventArguments, LogArguments, log_options, logs_with,
  get_pod_logs, get_events, execute, kube_tools, unknown_tool,
}

-- the texts of the events, one behind the other
unfoldable pub join_lines : Patterns → List Event → Bytes
join_lines x [] = []
join_lines x (ev ∷ rest) = event_line x ev ++ join_lines x rest

-- the events of the object that is asked for: all, where no name is given
abbrev pub of_object : String → List Event → List Event
of_object object_name events = keep_if (λ ev. not (is_skipped object_name ev)) events

join_lines-take-nil : (x : Patterns) (n : ℕ) → join_lines x (take n []) ≡ []
unfolding join_lines
join_lines-take-nil x zero = refl
join_lines-take-nil x (suc n) = refl

event_lines_from :
    (x : Patterns) (o : String) (count : ℕ) (text : Bytes) (events : List Event)
    → event_lines x o count text events
      ≡ text ++ join_lines x (take (max_event_count - count) (of_object o events))
unfolding event_lines join_lines
event_lines_from x o count text [] =
    rw (join_lines-take-nil x (max_event_count - count), append-nil text) refl
event_lines_from x o count text (ev ∷ rest) = elim (Bool-cases (is_skipped o ev)) [
  | inl skipped ↦ rw skipped (event_lines_from x o count text rest)
  | inr kept ↦ rw kept (elim (Bool-cases (leb max_event_count count)) [
    | inl full ↦ rw (full, none_left full, append-nil text) refl
    | inr room ↦
        rw
          (
            room,
            one_left room,
            event_lines_from x o (suc count) (text ++ event_line x ev) rest,
            append_assoc text (event_line x ev) _,
          )
          refl
  ])
]
  where
    none_left : leb max_event_count count ≡ true → max_event_count - count ≡ 0
    none_left h = ground arith

    one_left :
        leb max_event_count count ≡ false
        → max_event_count - count ≡ suc (max_event_count - suc count)
    one_left h = ground arith

-- The events tool answers the lines of the first thirty events of the object that is asked for, in the
-- order of the list, or of all objects where no name is given.
pub first_events_answered :
    {W : Type 0} (k : KubeToolExecutor W) (args_json : Bytes) (args : EventArguments)
    (events : List Event) (w w' : W)
    → k.arguments.events args_json ≡ ok args
    → k.reader.list_events args.namespace w ≡ (ok events, w')
    → execute k "get_events" args_json w
      ≡ (some (ok (join_lines k.patterns (take 30 (of_object args.object_name events)))), w')
unfolding execute get_events
first_events_answered k args_json args events w w' decoded listed =
    rw (decoded, listed, event_lines_from k.patterns args.object_name 0 [] events) refl

-- The number of lines asked for is between 1 and 200.
pub tail_lines-bounded : (tail : ℤ) → (1 ≤ tail_lines tail) × (tail_lines tail ≤ 200)
unfolding tail_lines
tail_lines-bounded (ℤ.pos zero) = (omega arith, omega arith)
tail_lines-bounded (ℤ.pos (suc n)) = (ground arith, ground arith)
tail_lines-bounded (ℤ.negsuc n) = (omega arith, omega arith)

-- a text that is the redaction of at most 8 KB
abbrev pub IsShortRedacted : Patterns → Bytes → Type 0
IsShortRedacted x r = (s : Bytes) × (r ≡ redact x s) × (length s ≤ max_log_bytes)

-- a property of the text that is answered, if one is
abbrev Answers : (Bytes → Type 0) → Option (Result Bytes) → Type 0
Answers P (some (ok r)) = P r
Answers P _ = Unit

redacted_logs-Answers :
    (x : Patterns) (s : LogStream)
    → Answers (IsShortRedacted x) (some (redacted_logs x (read_limited max_log_bytes s)))
redacted_logs-Answers x s = elim (Bool-cases (leb max_log_bytes (length s.content))) [
  | inl long ↦ rw long (take max_log_bytes s.content, refl, length-take-le max_log_bytes s.content)
  | inr short ↦ rw short (at_end s.failure (omega (arith, leb_false→lt _ _ short)))
]
  where
    at_end :
        (failure : Option Error)
        → length s.content ≤ max_log_bytes
        → Answers
            (IsShortRedacted x)
            (some (redacted_logs x (elim failure [ none ↦ ok s.content | some e ↦ err e ])))
    at_end none h = (s.content, refl, h)
    at_end (some e) h = tt

after_open-Answers :
    (x : Patterns) (opening : Opening) → Answers (IsShortRedacted x) (after_open x opening)
after_open-Answers x (opened s) = redacted_logs-Answers x s
after_open-Answers x (refused e) = tt
after_open-Answers x (panicked value) = tt

logs_with-Answers :
    {W : Type 0} (k : KubeToolExecutor W) (decoded : Result LogArguments) (w : W)
    → Answers (IsShortRedacted k.patterns) (logs_with k decoded w).0
logs_with-Answers k (err e) w = tt
logs_with-Answers k (ok args) w =
    after_open-Answers k.patterns (k.reader.open_logs (log_options k args) w).0

-- What the logs tool hands over is the redaction of at most 8 KB.
pub logs_bounded :
    {W : Type 0} (k : KubeToolExecutor W) (args_json : Bytes) (w : W) (r : Bytes)
    → (execute k "get_pod_logs" args_json w).0 ≡ some (ok r)
    → IsShortRedacted k.patterns r
unfolding execute get_pod_logs
logs_bounded k args_json w r h =
    subst (Answers (IsShortRedacted k.patterns)) h
      (logs_with-Answers k (k.arguments.logs args_json) w)

-- A call of a tool that is not among those offered is answered with an error, and reads nothing.
pub unoffered_refused :
    {W : Type 0} (k : KubeToolExecutor W) (name : String) (args_json : Bytes) (w : W)
    → any_of (λ (d : ToolDefinition). name == d.function.name) kube_tools ≡ false
    → execute k name args_json w ≡ (some (err (unknown_tool name)), w)
unfolding execute kube_tools
unoffered_refused k name args_json w h = ground (arith, h)
