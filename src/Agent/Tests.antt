-- ===== src/Agent/Tests.antt =====
-- The theorems of the agent at a concrete agent.
use kscribe.Agent.Streaming.Pieces.{
  collect, Delivered, stream-Delivered, counting, end_state, Finishes, connect-bounded,
}
use kscribe.Agent.Streaming.{
  HttpStream, Endpoint, stream_response, complete_stream, connect, consume, scan_tokens, read_line,
}
use kscribe.Agent.Stream.{run_calls}
use kscribe.Agent.OpenAi.{OpenAiClient, effective_max_tokens}
use kscribe.Prelude.{
  Bytes, List, Option, [], arith, backwards, bytes, encode_rune, false, length, none, refl, some,
  space_width, space_width_back, suc, trim_front, trim_space, zero, ℕ, ℤ, ◌+◌, ◌∷◌, ◌≡◌, ◌≤◌, ◌⊎◌,
}
use kscribe.Errors.{Result, ok}
use kscribe.Agent.Schema.{Message, message_of, Response, Request}
use kscribe.Agent.{DiagnosisAgent, run, effective_max_iter}
use kscribe.Agent.Outcomes.{Diagnosed, Undiagnosed, run_outcome}
use kscribe.Agent.Record.{recording, tokens_of, calls_bounded, tokens_accounted}

abbrev asks_for_logs : Message
asks_for_logs = record (message_of "assistant" []) {
  tool_calls =
      (record {
        id = "c1";
        kind = "function";
        function = record { name = "get_logs"; arguments = bytes "{}" };
      })
      ∷ [];
}

abbrev response : Message → Response
response m = record {
  choices = (record { message = m; finish_reason = "stop" }) ∷ [];
  usage = record { total_tokens = ℤ.pos 7 };
}

-- A model that asks for a tool once and answers afterwards; its state counts the calls.
abbrev model_answer : ℕ → Result Response
model_answer zero = ok (response asks_for_logs)
model_answer (suc n) = ok (response (message_of "assistant" (bytes "answer")))

abbrev two_rounds : DiagnosisAgent ℕ
two_rounds = record {
  provider = record { complete = λ req n. (model_answer n, suc n) };
  executor = some (record { execute = λ name args n. (ok (bytes "log"), n) });
  tools = [];
  max_iter = ℤ.pos 3;
  unmarshal = λ content. ok (record {
    summary = content;
    root_cause = content;
    contributing_factors = [];
    remediation_steps = [];
    confidence = 0;
    reasoning = [];
  });
}

run_outcome_example :
    Diagnosed (run two_rounds (bytes "{}") 0).0 ⊎ Undiagnosed (run two_rounds (bytes "{}") 0).0
run_outcome_example = run_outcome two_rounds (bytes "{}") 0

calls_bounded_example :
    length (run (recording two_rounds) (bytes "{}") ([], 0)).1.0
    ≤ suc (effective_max_iter two_rounds.max_iter)
calls_bounded_example = calls_bounded two_rounds (bytes "{}") 0

tokens_accounted_example :
    (run (recording two_rounds) (bytes "{}") ([], 0)).0.tokens_used
    ≡ tokens_of (run (recording two_rounds) (bytes "{}") ([], 0)).1.0
tokens_accounted_example = tokens_accounted two_rounds (bytes "{}") 0

abbrev no_errors : Bytes → Option (List Bytes)
no_errors payload = some (payload ∷ [])

-- An endpoint that is overloaded once and then streams two pieces; its state counts the requests.
abbrev overloaded : ℕ → Result HttpStream
overloaded zero = ok (record { status = 503; content = []; failure = none })
overloaded (suc n) = ok (record {
  status = 200;
  content = bytes "data: he\n\ndata: llo\ndata: [DONE]\n";
  failure = none;
})

abbrev endpoint : Endpoint ℕ
endpoint = record {
  marshal = λ req. ok (bytes "{}");
  build = λ url body. none;
  perform = λ url key body n. (overloaded n, suc n);
  wait = λ time n. (none, n);
  chunk = no_errors;
}

abbrev model_client : OpenAiClient
model_client = record { base_url = "http://model/v1"; api_key = ""; model = "m" }

abbrev question : Request
question = record {
  model = "";
  messages = message_of "user" (bytes "why?") ∷ [];
  tools = [];
  max_tokens = 0;
  stream = false;
}

stream-Delivered_example :
    Delivered (run_calls collect (complete_stream endpoint model_client question 0) [])
stream-Delivered_example = stream-Delivered endpoint model_client question 0

two_pieces :
    run_calls collect (complete_stream endpoint model_client question 0) []
    ≡ (ok (stream_response (bytes "hello")), bytes "hello", 2)
unfolding run_calls complete_stream connect consume scan_tokens read_line trim_space trim_front
    backwards space_width space_width_back bytes encode_rune effective_max_tokens
two_pieces = refl

connect-bounded_example :
    let connection = connect (counting endpoint) "http://model/v1" none (bytes "{}") 3 0 (0, 0) in
    Finishes connection × ((end_state connection).0 ≤ 0 + 3)
connect-bounded_example =
    connect-bounded endpoint "http://model/v1" none (bytes "{}") 3 0 0 (omega arith)
