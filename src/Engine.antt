-- ===== src/Engine.antt =====
-- internal/engine/types.go: requests and results. Go's `float64` is a parameter.
pub mod Client
pub mod Generate
pub mod Raw
use flash_qwen.Chatml.{ToolCall, Message, ToolDef}
use flash_qwen.Prelude.Int.{ℤ}
use flash_qwen.Prelude.{ℕ, Bool, List, Option, Bytes}

pub record Request (Float : Type 0) : Type 0 where
  pub messages : List Message
  pub tools : List ToolDef
  pub enable_thinking : Bool
  pub max_tokens : ℤ
  pub temperature : Option Float
  pub top_p : Option Float
  pub ignore_eos : Bool
  pub raw_prompt : Bytes
  pub input_ids : List ℤ

pub record Stats : Type 0 where
  pub finish_reason : Bytes
  pub prompt_tokens : ℤ
  pub completion_tokens : ℤ

-- `Result` of types.go
pub record Completion : Type 0 where
  pub text : Bytes
  pub tool_calls : List ToolCall
  pub finish_reason : Bytes
  pub prompt_tokens : ℤ
  pub completion_tokens : ℤ

pub record ModelInfo : Type 0 where
  pub id : Bytes
  pub max_ctx : ℤ
  pub vocab_size : ℤ
