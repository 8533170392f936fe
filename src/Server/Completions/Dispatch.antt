-- ===== src/Server/Completions/Dispatch.antt =====
-- Which of its replies the handler gives to a raw completion.
use flash_qwen.Engine.Client.{Result}
use flash_qwen.Engine.{Request, Completion}
use flash_qwen.Prelude.{true, false, List, some, codes, if◌then◌else◌, Bytes, ◌≡◌, refl}
use flash_qwen.Server.Chat.{Envelope}
use flash_qwen.Server.Completions.{
  Reply, blocking_completion, stream_completion, invalid, is_missing, run_completion, completions,
}
use flash_qwen.Server.{
  CompletionRequest, Prompt, missing, unreadable, prompt_text, prompt_ids, decode_completion, flag,
}

-- Which reply a bound request gets from the connected client's handler, given what `Complete` does.
module _ {Float : Type 0} (env : Envelope)
    (complete : Request Float → List Bytes × Result Completion)
    (req : CompletionRequest Float) where
  abbrev pub replies : List Bytes × Result Completion → Reply
  replies out =
      if req.stream
      then stream_completion env true false (flag req.stream_options) out
      else blocking_completion env out.1

  abbrev pub Dispatches : Prompt → Reply → Type 0
  Dispatches missing r = r ≡ invalid (codes "prompt is required")
  Dispatches unreadable r = r ≡ invalid (codes "prompt must be a string or an array of token ids")
  Dispatches (prompt_text s) r =
      (er : Request Float) × (decode_completion req (prompt_text s) ≡ some er)
      × (r ≡ replies (complete er))
  Dispatches (prompt_ids l) r =
      (er : Request Float) × (decode_completion req (prompt_ids l) ≡ some er)
      × (r ≡ replies (complete er))

  pub completions-Dispatches :
      (bind_error : Bytes)
      → Dispatches req.prompt (completions env true false complete bind_error (some req))
  unfolding completions is_missing run_completion decode_completion
  completions-Dispatches bind_error = by_prompt req.prompt
    where
      by_prompt :
          (p : Prompt)
          → Dispatches p (
              if is_missing p
              then invalid (codes "prompt is required")
              else run_completion env true false complete req (decode_completion req p))
      by_prompt missing = refl
      by_prompt unreadable = refl
      by_prompt (prompt_text s) = (_, refl, refl)
      by_prompt (prompt_ids l) = (_, refl, refl)
