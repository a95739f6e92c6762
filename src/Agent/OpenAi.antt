-- ===== src/Agent/OpenAi.antt =====
-- internal/agent/openai.go and provider.go: the client of the model's endpoint, without its streaming.
--
-- The openai-go library is the parameter `create`, over a state `W` of the outside world; its retries
-- are its own. Its unions of parameters are the data types here. A schema of a tool is its JSON text.
pub mod Bounds
use kscribe.Prelude.{
  Bool, Bytes, List, Option, String, [], any_of, bytes, eqb, if◌then◌else◌, is_empty, leb, length,
  ltb, map, none, not, same_bytes, some, take, ℕ, ℤ, ◌&&◌, ◌++◌, ◌+◌, ◌==◌, ◌∷◌,
}
use Prim.Native.Char.{code}
use kscribe.Agent.Schema.{ToolCall, Message, ToolDefinition, Request, Choice, Response, Provider}
use kscribe.Errors.{Error, other, error_text, Result, ok, err}

abbrev pub default_max_tokens : ℕ
default_max_tokens = 1024

pub record OpenAiClient : Type 0 where
  pub base_url : String
  pub api_key : String
  pub model : String

unfoldable pub new_open_ai_client : String → String → String → OpenAiClient
new_open_ai_client base_url api_key model = record {
  base_url = if base_url == "" then "https://api.openai.com/v1" else base_url;
  api_key = api_key;
  model = model;
}

-- the options of a client of the library
pub record SdkOptions : Type 0 where
  pub base_url : String
  pub max_retries : ℕ
  pub api_key : Option String

unfoldable pub sdk_client : OpenAiClient → SdkOptions
sdk_client c = record {
  base_url = c.base_url;
  max_retries = 2;
  api_key = if c.api_key == "" then none else some c.api_key;
}

pub record SdkCall : Type 0 where
  pub id : String
  pub name : String
  pub arguments : Bytes

pub data SdkMessage : Type 0 where
  system_message : Bytes → SdkMessage
  developer_message : Bytes → SdkMessage
  tool_message : Bytes → String → SdkMessage
  assistant_message : Option Bytes → List SdkCall → SdkMessage
  user_message : Bytes → SdkMessage

abbrev pub sdk_call : ToolCall → SdkCall
sdk_call tc = record { id = tc.id; name = tc.function.name; arguments = tc.function.arguments }

unfoldable pub to_sdk_message : Message → SdkMessage
to_sdk_message m =
    if m.role == "system"
    then system_message m.content
    else if m.role == "developer"
    then developer_message m.content
    else if m.role == "tool"
    then tool_message m.content m.tool_call_id
    else if m.role == "assistant"
    then if is_empty m.tool_calls
      then assistant_message (some m.content) []
      else assistant_message (if is_empty m.content then none else some m.content)
          (map sdk_call m.tool_calls)
    else user_message m.content

unfoldable pub to_sdk_messages : List Message → List SdkMessage
to_sdk_messages messages = map to_sdk_message messages

pub record SdkTool : Type 0 where
  pub name : String
  pub description : Option String
  pub parameters : Bytes

abbrev pub sdk_tool : ToolDefinition → SdkTool
sdk_tool t = record {
  name = t.function.name;
  description = if t.function.description == "" then none else some t.function.description;
  parameters = t.function.parameters;
}

unfoldable pub to_sdk_tools : List ToolDefinition → List SdkTool
to_sdk_tools tools = map sdk_tool tools

pub record SdkParams : Type 0 where
  pub model : String
  pub messages : List SdkMessage
  pub max_tokens : ℕ
  pub tools : List SdkTool

pub record SdkChoice : Type 0 where
  pub content : Bytes
  pub tool_calls : List SdkCall
  pub finish_reason : String

pub record SdkCompletion : Type 0 where
  pub choices : List SdkChoice
  pub total_tokens : ℤ

abbrev pub call_of_sdk : SdkCall → ToolCall
call_of_sdk tc = record {
  id = tc.id;
  kind = "function";
  function = record { name = tc.name; arguments = tc.arguments };
}

abbrev pub choice_of_sdk : SdkChoice → Choice
choice_of_sdk ch = record {
  message = record {
    role = "assistant";
    content = ch.content;
    tool_calls = map call_of_sdk ch.tool_calls;
    tool_call_id = "";
    name = "";
  };
  finish_reason = ch.finish_reason;
}

unfoldable pub from_sdk_response : SdkCompletion → Response
from_sdk_response resp = record {
  choices = map choice_of_sdk resp.choices;
  usage = record { total_tokens = resp.total_tokens };
}

unfoldable pub trunc_err : Error → Error
trunc_err e =
    let s = error_text e in
    other (bytes "provider error: " ++ (if ltb 512 (length s) then take 512 s else s))

unfoldable pub effective_max_tokens : Request → ℕ
effective_max_tokens req = if ltb 0 req.max_tokens then req.max_tokens else default_max_tokens

abbrev pub completion_params : OpenAiClient → Request → SdkParams
completion_params c req = record {
  model = c.model;
  messages = to_sdk_messages req.messages;
  max_tokens = effective_max_tokens req;
  tools = to_sdk_tools req.tools;
}

abbrev pub after_create : {W : Type 0} → Result SdkCompletion × W → Result Response × W
after_create (err e, w) = (err (trunc_err e), w)
after_create (ok resp, w) = (ok (from_sdk_response resp), w)

module _ {W : Type 0} (create : SdkOptions → SdkParams → W → Result SdkCompletion × W) where
  unfoldable pub complete : OpenAiClient → Request → W → Result Response × W
  complete c req w = after_create (create (sdk_client c) (completion_params c req) w)

  abbrev pub open_ai_provider : OpenAiClient → Provider W
  open_ai_provider c = record { complete = complete c }

-- strings.ToLower, as far as a text can become an ASCII one by it: the letters, the dotted I and the
-- Kelvin sign
abbrev lower_code : ℕ → ℕ
lower_code c =
    if leb 65 c && leb c 90
    then c + 32
    else if eqb c 0x130
    then 105
    else if eqb c 0x212a
    then 107
    else c

abbrev lower_codes : String → Bytes
lower_codes String.[] = []
lower_codes (String.◌∷◌ c s) = lower_code (code c) ∷ lower_codes s

abbrev codes_of : String → Bytes
codes_of String.[] = []
codes_of (String.◌∷◌ c s) = code c ∷ codes_of s

abbrev pub lowers_to : String → String → Bool
lowers_to provider name = same_bytes (lower_codes provider) (codes_of name)

unfoldable pub resolve_base_url : String → String → String
resolve_base_url provider base_url =
    if not (base_url == "")
    then base_url
    else if any_of (lowers_to provider) ("google" ∷ "gemini" ∷ [])
    then "https://generativelanguage.googleapis.com/v1beta/openai"
    else if any_of (lowers_to provider) ("zai" ∷ "z.ai" ∷ "zhipu" ∷ "glm" ∷ [])
    then "https://api.z.ai/api/paas/v4"
    else if any_of (lowers_to provider) ("groq" ∷ [])
    then "https://api.groq.com/openai/v1"
    else ""
