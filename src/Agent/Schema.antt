-- ===== src/Agent/Schema.antt =====
-- internal/agent/schema.go and the interfaces of llm.go and tools.go: what is exchanged with the model
-- and the tools. The model's endpoint and the tools act on the outside world `W`. A float64 is only
-- copied, so it is its bit pattern.
use kscribe.Prelude.{Bool, Bytes, List, String, [], ℕ, ℤ}
use kscribe.Errors.{Result}

abbrev pub Float64 : Type 0
Float64 = ℕ

pub record RcaResult : Type 0 where
  pub summary : Bytes
  pub root_cause : Bytes
  pub contributing_factors : List Bytes
  pub remediation_steps : List Bytes
  pub confidence : Float64
  pub reasoning : Bytes

pub record FunctionCall : Type 0 where
  pub name : String
  pub arguments : Bytes

pub record ToolCall : Type 0 where
  pub id : String
  pub kind : String
  pub function : FunctionCall

pub record Message : Type 0 where
  pub role : String
  pub content : Bytes
  pub tool_calls : List ToolCall
  pub tool_call_id : String
  pub name : String

-- A plain message of a role.
abbrev pub message_of : String → Bytes → Message
message_of role content = record {
  role = role;
  content = content;
  tool_calls = [];
  tool_call_id = "";
  name = "";
}

-- The schema of the parameters is passed on unread, as its JSON text.
pub record FunctionDef : Type 0 where
  pub name : String
  pub description : String
  pub parameters : Bytes

pub record ToolDefinition : Type 0 where
  pub kind : String
  pub function : FunctionDef

pub record Request : Type 0 where
  pub model : String
  pub messages : List Message
  pub tools : List ToolDefinition
  pub max_tokens : ℕ
  pub stream : Bool

pub record Usage : Type 0 where
  pub total_tokens : ℤ

pub record Choice : Type 0 where
  pub message : Message
  pub finish_reason : String

pub record Response : Type 0 where
  pub choices : List Choice
  pub usage : Usage

-- Provider
pub record Provider (W : Type 0) : Type 0 where
  pub complete : Request → W → Result Response × W

-- ToolExecutor
pub record ToolExecutor (W : Type 0) : Type 0 where
  pub execute : String → Bytes → W → Result Bytes × W
