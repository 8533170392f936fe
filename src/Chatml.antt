-- ===== src/Chatml.antt =====
-- internal/chatml: the neutral message types (types.go) and the load-time constants (chatml.go).
pub mod Stream
pub mod Render
use flash_qwen.Prelude.Int.{ℤ, pos, negsuc, int32}
use flash_qwen.Prelude.{ℕ, List, [], ◌∷◌, ◌++◌, Option, none, some, map, Bytes, codes}
use flash_qwen.Tokenizer
use flash_qwen.Tokenizer.{Tokenizer}

pub record ToolCall : Type 0 where
  pub id : Bytes
  pub name : Bytes
  pub arguments_json : Bytes

pub record Message : Type 0 where
  pub role : Bytes
  pub content : Bytes
  pub tool_calls : List ToolCall
  pub tool_call_id : Bytes

pub record ToolDef : Type 0 where
  pub name : Bytes
  pub description : Bytes
  pub parameters_json : Bytes

pub record Format : Type 0 where
  pub tok : Tokenizer
  pub eos_ids : List ℤ
  pub tool_open : ℤ
  pub tool_close : ℤ

-- The field eos_token_id of generation_config.json as JSON reads it.
pub data EosField : Type 0 where
  absent other : EosField
  one : ℤ → EosField
  many : List ℤ → EosField

unfoldable pub eos_from_generation_config : EosField → List ℤ
eos_from_generation_config (many ids) = ids
eos_from_generation_config (one id) = id ∷ []
eos_from_generation_config absent = []
eos_from_generation_config other = []

-- The id of a marker, and -1 if the vocabulary lacks it.
marker : Option ℕ → ℤ
marker none = negsuc 0
marker (some n) = pos n

known_id : Option ℕ → List ℤ
known_id none = []
known_id (some n) = pos n ∷ []

fallback_eos : Tokenizer → List ℤ → List ℤ
unfolding known_id Tokenizer.id
fallback_eos tok [] =
    known_id (Tokenizer.id tok (codes "<|im_end|>"))
    ++ known_id (Tokenizer.id tok (codes "<|endoftext|>"))
fallback_eos tok (id ∷ ids) = id ∷ ids

unfoldable pub load : EosField → Tokenizer → Format
unfolding marker fallback_eos eos_from_generation_config Tokenizer.id
load eos tok = record {
  tok = tok;
  eos_ids = fallback_eos tok (eos_from_generation_config eos);
  tool_open = marker (Tokenizer.id tok (codes "<tool_call>"));
  tool_close = marker (Tokenizer.id tok (codes "</tool_call>"));
}

unfoldable pub stop_token_ids : Format → List ℤ
stop_token_ids m = map int32 m.eos_ids
