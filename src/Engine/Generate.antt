-- ===== src/Engine/Generate.antt =====
-- internal/engine/generate.go: the length policy, the token-level request, and the two ways to turn
-- a request into text. JSON's readings and Go's floats are parameters.
pub mod Policy
pub mod Text
use flash_qwen.Chatml
use flash_qwen.Chatml.Render
use flash_qwen.Chatml.Stream.{Stream, new_stream, push, flush}
use flash_qwen.Chatml.{ToolCall, Format}
use flash_qwen.Engine.Client.{Failure, err_prompt_too_long, Result, ok, err, ◌>>=◌, Rpc, stream}
use flash_qwen.Engine.{Request, Stats, Completion}
use flash_qwen.Prelude.Int.{ℤ, pos, minus, ltb_ℤ, int32}
use flash_qwen.Prelude.{
  ℕ, zero, suc, ◌+◌, Bool, true, false, not, ◌&&◌, ◌||◌, List, [], ◌∷◌, ◌++◌, Option, none, some,
  length, map, get_or, take, drop, ltb, leb, ◌==◌, if◌then◌else◌, Bytes, codes,
}
use flash_qwen.Tokenizer.Encode
use flash_qwen.Tokenizer.{Tokenizer, decode}

-- The connection is the `Rpc` that each call takes.
pub record Generator : Type 0 where
  pub cm : Format
  pub tok : Tokenizer
  pub max_ctx : ℤ

unfoldable pub new_generator : Format → Tokenizer → ℤ → Generator
new_generator cm tok max_ctx = record { cm = cm; tok = tok; max_ctx = max_ctx }

unfoldable pub resolve_max_tokens : Generator → ℕ → ℤ → Result ℤ
resolve_max_tokens g prompt_len requested =
    let room = minus g.max_ctx prompt_len in
    if ltb_ℤ room (pos 1)
    then err (err_prompt_too_long prompt_len g.max_ctx)
    else if not (ltb_ℤ (pos 0) requested) || ltb_ℤ room requested
    then ok room
    else ok requested

-- The message of the protocol.
pub record GenerateRequest (Float32 : Type 0) : Type 0 where
  pub input_ids : List ℤ
  pub max_tokens : ℤ
  pub temperature : Float32
  pub top_p : Float32
  pub stop_token_ids : List ℤ

-- What Go's arithmetic on floats gives: the conversion, and the constants 0 and 1.
pub record Floats : Type 1 where
  pub Float : Type 0
  pub Float32 : Type 0
  pub narrow : Float → Float32
  pub zero32 : Float32
  pub one32 : Float32

module _ (fl : Floats) (marshal : Bytes → Option Bytes → Bytes → Bytes) where
  unfoldable pub prompt_ids : Generator → Request fl.Float → List ℤ
  prompt_ids g req =
      if ltb 0 (length req.input_ids)
      then req.input_ids
      else if ltb 0 (length req.raw_prompt)
      then Encode.encode g.tok req.raw_prompt
      else Encode.encode g.tok (Render.render marshal req.messages req.tools req.enable_thinking)

  or_default : fl.Float32 → Option fl.Float → fl.Float32
  or_default d none = d
  or_default d (some x) = fl.narrow x

  -- The literal that `buildRequest` fills in.
  request_of : Generator → Request fl.Float → List ℤ → ℤ → GenerateRequest fl.Float32
  unfolding or_default
  request_of g req ids max_tokens = record {
    input_ids = map int32 ids;
    max_tokens = int32 max_tokens;
    temperature = or_default fl.zero32 req.temperature;
    top_p = or_default fl.one32 req.top_p;
    stop_token_ids = if req.ignore_eos then [] else Chatml.stop_token_ids g.cm;
  }

  unfoldable pub build_request : Generator → Request fl.Float → Result (GenerateRequest fl.Float32)
  unfolding request_of
  build_request g req = do
    let ids = prompt_ids g req
    max_tokens ← resolve_max_tokens g (length ids) req.max_tokens
    ok (request_of g req ids max_tokens)

-- What a callback of `Generate` has done: the stream's state, the aggregate, and the calls of
-- `onDelta` in order.
pub record Progress : Type 0 where
  pub codec : Stream
  pub text : Bytes
  pub tool_calls : List ToolCall
  pub deltas : List (Bytes × Option ToolCall)

abbrev is_some {ℓ} : {A : Type ℓ} → Option A → Bool
is_some none = false
is_some (some a) = true

abbrev option_list {ℓ} : {A : Type ℓ} → Option A → List A
option_list none = []
option_list (some a) = a ∷ []

-- `onDelta` is called only if there is something to hand out.
notify : Bytes → Option ToolCall → List (Bytes × Option ToolCall)
notify text tool = if ltb 0 (length text) || is_some tool then (text, tool) ∷ [] else []

module _ (unmarshal : Bytes → Option (Bytes × Bytes)) where
  on_token : Generator → ℤ → Progress → Progress
  unfolding notify
  on_token g id p =
      let (codec, text, tool) = push unmarshal g.cm p.codec id in
      record {
        codec = codec;
        text = p.text ++ text;
        tool_calls = p.tool_calls ++ option_list tool;
        deltas = p.deltas ++ notify text tool;
      }

  idle : Progress
  unfolding new_stream
  idle = record { codec = new_stream; text = []; tool_calls = []; deltas = [] }

  -- The trailing partial rune, after the stream has ended.
  finish : Progress → Stats → Progress × Completion
  finish p stats =
      let (codec, tail) = flush p.codec in
      let text = p.text ++ tail in
      (
        record p {
          codec = codec;
          text = text;
          deltas = p.deltas ++ (if ltb 0 (length tail) then (tail, none) ∷ [] else []);
        },
        record {
          text = text;
          tool_calls = p.tool_calls;
          finish_reason =
              if ltb 0 (length p.tool_calls) then codes "tool_calls" else stats.finish_reason;
          prompt_tokens = stats.prompt_tokens;
          completion_tokens = stats.completion_tokens;
        },
      )

  complete_stream : Progress × Result Stats → Progress × Result Completion
  complete_stream (p, err e) = (p, err e)
  complete_stream (p, ok stats) = let (p', res) = finish p stats in (p', ok res)

  -- The part of `Generate` behind the built request: `rpc` is what the engine answers to it. The
  -- calls of `onDelta` come back beside the result.
  unfoldable pub drive : Generator → Rpc → Progress × Result Completion
  unfolding on_token idle finish complete_stream stream
  drive g rpc = complete_stream (stream (some (on_token g)) rpc idle)

  module _ (fl : Floats) (marshal : Bytes → Option Bytes → Bytes → Bytes) where
    start :
        Generator
        → (GenerateRequest fl.Float32 → Rpc)
        → Result (GenerateRequest fl.Float32)
        → Progress × Result Completion
    unfolding drive
    start g engine (err e) = (idle, err e)
    start g engine (ok greq) = drive g (engine greq)

    -- `Generate`; the engine is a function from the request to its answer
    unfoldable pub generate :
        Generator
        → (GenerateRequest fl.Float32 → Rpc)
        → Request fl.Float
        → Progress × Result Completion
    unfolding start build_request
    generate g engine req = start g engine (build_request fl marshal g req)
