-- ===== src/Server.antt =====
-- internal/server: the wire types (types.go), and the decoding of requests (completions.go). What
-- JSON reads in a raw field is a data type with a case for each thing that the code asks for.
pub mod Chat
pub mod Sse
pub mod Routes
pub mod Faults
pub mod Service
pub mod Completions
pub mod Prompts
use flash_qwen.Chatml
use flash_qwen.Chatml.{Message, ToolDef}
use flash_qwen.Engine.Client.{
  Failure, err_prompt_too_long, err_over_capacity, err_engine_internal, transport, timed_out,
  exited,
}
use flash_qwen.Engine.{Request}
use flash_qwen.Prelude.Int.{ℤ, pos, ltb_ℤ}
use flash_qwen.Prelude.{
  ℕ, Bool, true, false, List, [], ◌∷◌, ◌++◌, Option, none, some, map, flat_map, length, ltb,
  bytes_eq, if◌then◌else◌, Bytes, codes,
}

-- The content of a message: absent or null, a string, typed parts, or anything else.
pub data Content : Type 0 where
  absent null other : Content
  plain : Bytes → Content
  parts : List (Bytes × Bytes) → Content

part_text : Bytes × Bytes → Bytes
part_text (kind, text) = if bytes_eq kind (codes "text") then text else []

-- `Text`
unfoldable pub content_text : Content → Bytes
unfolding part_text flat_map
content_text absent = []
content_text null = []
content_text other = []
content_text (plain s) = s
content_text (parts ps) = flat_map part_text ps

pub record ToolCall : Type 0 where
  pub id : Bytes
  pub kind : Bytes
  pub name : Bytes
  pub arguments : Bytes

pub record ChatMessage : Type 0 where
  pub role : Bytes
  pub content : Content
  pub tool_calls : List ToolCall
  pub tool_call_id : Bytes

pub record FunctionDef : Type 0 where
  pub name : Bytes
  pub description : Bytes
  pub parameters : Bytes

-- `stream_options` is none if it was not sent, and else the flag include_usage.
pub record ChatRequest (Float : Type 0) : Type 0 where
  pub messages : List ChatMessage
  pub tools : List FunctionDef
  pub stream : Bool
  pub stream_options : Option Bool
  pub max_tokens : ℤ
  pub max_completion_tokens : ℤ
  pub temperature : Option Float
  pub top_p : Option Float
  pub ignore_eos : Bool
  pub enable_thinking : Option Bool

-- The prompt of a raw completion: absent, a string (JSON reads null as the empty one), token ids, or
-- anything else.
pub data Prompt : Type 0 where
  missing unreadable : Prompt
  prompt_text : Bytes → Prompt
  prompt_ids : List ℤ → Prompt

pub record CompletionRequest (Float : Type 0) : Type 0 where
  pub prompt : Prompt
  pub max_tokens : ℤ
  pub temperature : Option Float
  pub top_p : Option Float
  pub stream : Bool
  pub stream_options : Option Bool
  pub ignore_eos : Bool

-- `classifyError`: the HTTP status and the type of an error
unfoldable pub classify_error : Failure → ℕ × Bytes
classify_error (err_prompt_too_long prompt_len max_ctx) = (400, codes "invalid_request_error")
classify_error (err_over_capacity detail) = (503, codes "overloaded_error")
classify_error (err_engine_internal detail) = (502, codes "engine_error")
classify_error (transport detail) = (502, codes "engine_error")
classify_error (timed_out limit) = (502, codes "engine_error")
classify_error (exited detail) = (502, codes "engine_error")

-- x != nil && *x
pub flag : Option Bool → Bool
flag none = false
flag (some b) = b

decode_call : ToolCall → Chatml.ToolCall
decode_call tc = record { id = tc.id; name = tc.name; arguments_json = tc.arguments }

decode_message : ChatMessage → Message
unfolding content_text decode_call
decode_message m = record {
  role = m.role;
  content = content_text m.content;
  tool_calls = map decode_call m.tool_calls;
  tool_call_id = m.tool_call_id;
}

decode_tool : FunctionDef → ToolDef
decode_tool f = record {
  name = f.name;
  description = f.description;
  parameters_json = f.parameters;
}

module _ {Float : Type 0} where
  unfoldable pub decode : ChatRequest Float → Request Float
  unfolding decode_message decode_tool flag
  decode req = record {
    messages = map decode_message req.messages;
    tools = map decode_tool req.tools;
    enable_thinking = flag req.enable_thinking;
    max_tokens =
        if ltb_ℤ (pos 0) req.max_completion_tokens
        then req.max_completion_tokens
        else req.max_tokens;
    temperature = req.temperature;
    top_p = req.top_p;
    ignore_eos = req.ignore_eos;
    raw_prompt = [];
    input_ids = [];
  }

  raw_request : CompletionRequest Float → Bytes → List ℤ → Request Float
  raw_request req raw_prompt input_ids = record {
    messages = [];
    tools = [];
    enable_thinking = false;
    max_tokens = req.max_tokens;
    temperature = req.temperature;
    top_p = req.top_p;
    ignore_eos = req.ignore_eos;
    raw_prompt = raw_prompt;
    input_ids = input_ids;
  }

  -- `decodeCompletion`; none is its error
  unfoldable pub decode_completion : CompletionRequest Float → Prompt → Option (Request Float)
  unfolding raw_request
  decode_completion req missing = none
  decode_completion req unreadable = none
  decode_completion req (prompt_text s) = some (raw_request req s [])
  decode_completion req (prompt_ids l) = some (raw_request req [] l)

unfoldable pub tool_calls : List Chatml.ToolCall → List ToolCall
tool_calls = map (λ tc. record {
  id = tc.id;
  kind = codes "function";
  name = tc.name;
  arguments = tc.arguments_json;
})

-- A body of an error reply: the message and the type.
pub record ErrorBody : Type 0 where
  pub message : Bytes
  pub kind : Bytes

pub record Usage : Type 0 where
  pub prompt_tokens : ℤ
  pub completion_tokens : ℤ
  pub total_tokens : ℤ
