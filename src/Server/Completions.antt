-- ===== src/Server/Completions.antt =====
-- The handlers of /v1/completions. A generation is what `Complete` has done.
pub mod Frames
pub mod Dispatch
use flash_qwen.Engine.Client.{Failure, Result, ok, err}
use flash_qwen.Engine.{Request, Completion}
use flash_qwen.Prelude.{
  ℕ, Bool, true, false, List, [], ◌∷◌, ◌++◌, Option, none, some, length, ◌==◌, if◌then◌else◌, Bytes,
  codes,
}
use flash_qwen.Server.Chat.{Envelope, error_body, usage_of}
use flash_qwen.Server.{
  ErrorBody, Usage, classify_error, flag, CompletionRequest, Prompt, missing, unreadable,
  prompt_text, prompt_ids, decode_completion,
}

pub record CompletionChoice : Type 0 where
  pub text : Bytes
  pub finish_reason : Option Bytes

-- `Completion` of types.go
pub record TextCompletion : Type 0 where
  pub envelope : Envelope
  pub object : Bytes
  pub choices : List CompletionChoice
  pub usage : Option Usage

pub data Frame : Type 0 where
  chunk : TextCompletion → Frame
  failure : ErrorBody → Frame
  done : Frame

pub data Reply : Type 0 where
  refuse : ℕ → ErrorBody → Reply
  reply : TextCompletion → Reply
  sse : List Frame → Reply

abbrev pub invalid : Bytes → Reply
invalid message = refuse 400 (record { message = message; kind = codes "invalid_request_error" })

abbrev pub text_completion : Envelope → List CompletionChoice → Option Usage → TextCompletion
text_completion env choices usage = record {
  envelope = env;
  object = codes "text_completion";
  choices = choices;
  usage = usage;
}

unfoldable pub blocking_completion : Envelope → Result Completion → Reply
blocking_completion env (err e) = refuse (classify_error e).0 (error_body e)
blocking_completion env (ok c) = reply (
    text_completion env (record { text = c.text; finish_reason = some c.finish_reason } ∷ [])
      (some (usage_of c)))

module _ (env : Envelope) where
  abbrev pub text_chunk : Bytes → Option Bytes → Frame
  text_chunk text reason =
      chunk (text_completion env (record { text = text; finish_reason = reason } ∷ []) none)

  -- the callback that `streamCompletion` hands to `Complete`, over all its calls
  on_texts : List Frame → List Bytes → List Frame
  on_texts frames [] = frames
  on_texts frames (t ∷ ts) =
      on_texts (frames ++ (if length t == 0 then [] else text_chunk t none ∷ [])) ts

  abbrev pub usage_frames : Bool → Completion → List Frame
  usage_frames include_usage c =
      if include_usage then chunk (text_completion env [] (some (usage_of c))) ∷ [] else []

  close_stream : Bool → Bool → List Frame → Result Completion → List Frame
  close_stream gone include_usage frames (err e) =
      if gone then frames else frames ++ failure (error_body e) ∷ done ∷ []
  close_stream gone include_usage frames (ok c) =
      ((frames ++ text_chunk [] (some c.finish_reason) ∷ []) ++ usage_frames include_usage c)
      ++ done ∷ []

  unfoldable pub stream_completion : Bool → Bool → Bool → List Bytes × Result Completion → Reply
  unfolding on_texts close_stream
  stream_completion flushes gone include_usage (deltas, result) =
      if flushes
      then sse (close_stream gone include_usage (on_texts [] deltas) result)
      else refuse 500 (record { message = codes "streaming unsupported"; kind = [] })

-- len(req.Prompt) == 0
is_missing : Prompt → Bool
is_missing missing = true
is_missing unreadable = false
is_missing (prompt_text s) = false
is_missing (prompt_ids l) = false

module _ {Float : Type 0} where
  run_completion :
      Envelope
      → Bool
      → Bool
      → (Request Float → List Bytes × Result Completion)
      → CompletionRequest Float
      → Option (Request Float)
      → Reply
  unfolding stream_completion blocking_completion flag
  run_completion env flushes gone complete req none =
      invalid (codes "prompt must be a string or an array of token ids")
  run_completion env flushes gone complete req (some er) =
      if req.stream
      then stream_completion env flushes gone (flag req.stream_options) (complete er)
      else blocking_completion env (complete er).1

  -- `completions`
  unfoldable pub completions :
      Envelope
      → Bool
      → Bool
      → (Request Float → List Bytes × Result Completion)
      → Bytes
      → Option (CompletionRequest Float)
      → Reply
  unfolding is_missing run_completion decode_completion
  completions env flushes gone complete bind_error none = invalid bind_error
  completions env flushes gone complete bind_error (some req) =
      if is_missing req.prompt
      then invalid (codes "prompt is required")
      else run_completion env flushes gone complete req (decode_completion req req.prompt)
