-- ===== src/Agent/Streaming.antt =====
-- internal/agent/openai.go: CompleteStream, a completion whose text comes in pieces.
--
-- encoding/json and net/http are the parameter `Endpoint`, over a state `W` of the outside world. A
-- stream is the bytes that it gives and the error in which it then ends, if any; the scanner reads them
-- as lines. Waiting ends with the context's error, if it is done first.
pub mod Pieces
use kscribe.Prelude.{
  Bool, Bytes, List, Option, String, [], bytes, decimal_ℕ, drop, drop_cr, eqb, if◌then◌else◌,
  is_empty, leb, length, max_scan_token_size, none, not, same_bytes, some, suc, take, trim_space,
  true, zero, ℕ, ℤ, ◌*◌, ◌++◌, ◌==◌, ◌||◌, ◌∷◌,
}
use Prim.Native.String.{◌++◌ as append}
use kscribe.Agent.OpenAi.{OpenAiClient, effective_max_tokens}
use kscribe.Agent.Schema.{Request, Response}
use kscribe.Agent.Stream.{Calls, finished, delta}
use kscribe.Errors.{Error, other, wrap, Result, ok, err}

pub record HttpStream : Type 0 where
  pub status : ℕ
  pub content : Bytes
  pub failure : Option Error

-- `chunk` is json.Unmarshal at streamChunk: the contents of its choices, if it is one.
pub record Endpoint (W : Type 0) : Type 0 where
  pub marshal : Request → Result Bytes
  pub build : String → Bytes → Option Error
  pub perform : String → Option String → Bytes → W → Result HttpStream × W
  pub wait : ℕ → W → Option Error × W
  pub chunk : Bytes → Option (List Bytes)

-- A line, and what scanner.Err() reports once it has been read.
abbrev pub Token : Type 0
Token = Bytes × Option Error

abbrev pub token_too_long : Error
token_too_long = other (bytes "bufio.Scanner: token too long")

-- The lines of a stream, and the scanner's error at their end; `line` is what has been read of one.
unfoldable pub scan_tokens : Option Error → Bytes → Bytes → List Token × Option Error
scan_tokens failure line [] =
    if leb max_scan_token_size (length line)
    then ([], some token_too_long)
    else if is_empty line
    then ([], failure)
    else ((drop_cr line, failure) ∷ [], failure)
scan_tokens failure line (c ∷ rest) =
    let (later, end) = scan_tokens failure [] rest in
    let longer = scan_tokens failure (line ++ c ∷ []) rest in
    if leb max_scan_token_size (length line)
    then ([], some token_too_long)
    else if eqb c 10
    then ((drop_cr line, none) ∷ later, end)
    else longer

abbrev pub has_prefix : Bytes → Bytes → Bool
has_prefix s prefix = same_bytes (take (length prefix) s) prefix

-- What a line asks for: nothing, the end, or a piece of text.
pub data Line : Type 0 where
  ignored : Line
  done : Line
  piece : Bytes → Line

abbrev pub piece_of : Option (List Bytes) → Line
piece_of none = ignored
piece_of (some []) = ignored
piece_of (some (text ∷ rest)) = if is_empty text then ignored else piece text

unfoldable pub read_line : (Bytes → Option (List Bytes)) → Bytes → Line
read_line chunk raw =
    let line = trim_space raw in
    let payload = drop 6 line in
    if not (has_prefix line (bytes "data: "))
    then ignored
    else if same_bytes payload (bytes "[DONE]")
    then done
    else piece_of (chunk payload)

abbrev pub stream_response : Bytes → Response
stream_response accumulated = record {
  choices =
      (record {
        message = record {
          role = "assistant";
          content = accumulated;
          tool_calls = [];
          tool_call_id = "";
          name = "";
        };
        finish_reason = "stop";
      })
      ∷ [];
  usage = record { total_tokens = ℤ.pos 0 };
}

abbrev pub end_of : Option Error → Bytes → Result Response
end_of (some e) accumulated = err (wrap (bytes "read stream: ") e)
end_of none accumulated = ok (stream_response accumulated)

module _ {W : Type 0} where
  abbrev pub after_piece : (Bytes → Calls W) → Bytes → Bytes → W → Option Error → Calls W
  after_piece rest accumulated text w none = rest (accumulated ++ text)
  after_piece rest accumulated text w (some e) = finished (err e, w)

  abbrev pub on_line : (Bytes → Calls W) → Bytes → W → Option Error → Line → Calls W
  on_line rest accumulated w reported ignored = rest accumulated
  on_line rest accumulated w reported done = finished (end_of reported accumulated, w)
  on_line rest accumulated w reported (piece text) =
      delta text (after_piece rest accumulated text w)

  -- the loop over the lines
  unfoldable pub consume :
      (Bytes → Option (List Bytes)) → List Token → Option Error → W → Bytes → Calls W
  consume chunk [] end w accumulated = finished (end_of end accumulated, w)
  consume chunk ((line, reported) ∷ rest) end w accumulated =
      on_line (consume chunk rest end w) accumulated w reported (read_line chunk line)

  abbrev pub read_stream : (Bytes → Option (List Bytes)) → HttpStream → W → Calls W
  read_stream chunk s w =
      let (tokens, end) = scan_tokens s.failure [] s.content in consume chunk tokens end w []

  abbrev pub after_connect : (Bytes → Option (List Bytes)) → Result HttpStream × W → Calls W
  after_connect chunk (err e, w) = finished (err (wrap (bytes "http: ") e), w)
  after_connect chunk (ok s, w) =
      if leb 300 s.status
      then finished (
        err (
            other
              (bytes "provider error " ++ decimal_ℕ s.status ++ bytes ": " ++ take 512 s.content)),
        w,
      )
      else read_stream chunk s w

-- The outcome of connecting: an answer, or the error of a context that was done while waiting. The
-- third, that the fuel did not reach, does not occur with the fuel that is given.
pub data Connection (W : Type 0) : Type 0 where
  connected : Result HttpStream × W → Connection W
  cancelled : Error → W → Connection W
  unfinished : W → Connection W

abbrev pub is_retryable : Result HttpStream → Bool
is_retryable (err e) = true
is_retryable (ok s) = eqb s.status 429 || leb 500 s.status

module _ {W : Type 0} (endpoint : Endpoint W) (url : String) (key : Option String)
    (body : Bytes) where
  abbrev pub after_wait : (W → Connection W) → Option Error × W → Connection W
  after_wait again (some e, w) = cancelled e w
  after_wait again (none, w) = again w

  -- The loop of attempts, which has no bound of its own, on fuel.
  unfoldable pub connect : ℕ → ℕ → W → Connection W
  connect zero attempt w = unfinished w
  connect (suc fuel) attempt w =
      let (answer, w') = endpoint.perform url key body w in
      if not (is_retryable answer) || leb 2 attempt
      then connected (answer, w')
      else after_wait (connect fuel (suc attempt)) (endpoint.wait (suc attempt * 500) w')

-- as many turns of the loop as there are
abbrev pub connect_fuel : ℕ
connect_fuel = 3

module _ {W : Type 0} (endpoint : Endpoint W) (c : OpenAiClient) where
  abbrev pub after_connection : Connection W → Calls W
  after_connection (cancelled e w) = finished (err e, w)
  after_connection (unfinished w) = finished (err (other (bytes "out of fuel")), w)
  after_connection (connected answer) = after_connect endpoint.chunk answer

  abbrev pub stream_url : String
  stream_url = append c.base_url "/chat/completions"

  abbrev pub perform_built : Bytes → Option Error → W → Calls W
  perform_built body (some e) w = finished (err (wrap (bytes "build http request: ") e), w)
  perform_built body none w = after_connection (
      connect endpoint stream_url (if c.api_key == "" then none else some c.api_key) body
        connect_fuel 0 w)

  abbrev pub after_marshal : Result Bytes → W → Calls W
  after_marshal (err e) w = finished (err (wrap (bytes "marshal request: ") e), w)
  after_marshal (ok body) w = perform_built body (endpoint.build stream_url body) w

  unfoldable pub complete_stream : Request → W → Calls W
  complete_stream req w =
      after_marshal
        (endpoint.marshal
          (record req { model = c.model; stream = true; max_tokens = effective_max_tokens req }))
        w
