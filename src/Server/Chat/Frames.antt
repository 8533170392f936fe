-- ===== src/Server/Chat/Frames.antt =====
-- The events of a streamed chat reply.
use flash_qwen.Chatml
use flash_qwen.Engine.Client.{Result, ok, err}
use flash_qwen.Engine.{Completion}
use flash_qwen.Prelude.{
  Bool, true, false, List, [], ◌∷◌, ◌++◌, append_assoc, append-nil, Option, none, some, Bytes, ◌≡◌,
  refl, sym, ap, ◌∙◌,
}
use flash_qwen.Server.Chat.{
  Choice, Envelope, Frame, chunk, failure, done, sse, role_frame, text_frames, call_frames,
  finish_frame, usage_frames, error_body, send_role, on_delta, on_deltas, close_stream, stream_chat,
}
use flash_qwen.Server.{ToolCall}

abbrev pub Delta : Type 0
Delta = Bytes × Option Chatml.ToolCall

module _ (env : Envelope) where
  -- The chunks of the deltas, in order: text before the call of the same delta.
  abbrev pub delta_frames : List Delta → List Frame
  delta_frames [] = []
  delta_frames ((text, tool) ∷ ds) =
      (text_frames env text ++ call_frames env tool) ++ delta_frames ds

  on_deltas_sent :
      (ds : List Delta) (frames : List Frame)
      → on_deltas env (frames, true) ds ≡ (frames ++ delta_frames ds, true)
  unfolding on_deltas on_delta send_role
  on_deltas_sent [] frames = ap (λ f. (f, true)) (sym (append-nil frames))
  on_deltas_sent ((text, tool) ∷ ds) frames =
      on_deltas_sent ds ((frames ++ text_frames env text) ++ call_frames env tool)
      ∙ ap (λ f. (f, true))
          (ap (λ f. f ++ delta_frames ds)
              (append_assoc frames (text_frames env text) (call_frames env tool))
            ∙ append_assoc frames (text_frames env text ++ call_frames env tool) (delta_frames ds))

  -- What has been sent before the result is known: nothing, or the role and the deltas.
  abbrev pub opening : List Delta → List Frame
  opening [] = []
  opening (d ∷ ds) = role_frame env ∷ delta_frames (d ∷ ds)

  abbrev sent : List Delta → Bool
  sent [] = false
  sent (d ∷ ds) = true

  on_deltas_lem : (ds : List Delta) → on_deltas env ([], false) ds ≡ (opening ds, sent ds)
  unfolding on_deltas on_delta send_role
  on_deltas_lem [] = refl
  on_deltas_lem ((text, tool) ∷ ds) =
      on_deltas_sent ds ((role_frame env ∷ text_frames env text) ++ call_frames env tool)

  abbrev pub ending : Bool → Bool → List Delta → Result Completion → List Frame
  ending gone include_usage ds (ok c) =
      role_frame env
      ∷ (delta_frames ds
          ++ (finish_frame env c.finish_reason ∷ (usage_frames env include_usage c ++ done ∷ [])))
  ending true include_usage ds (err e) = opening ds
  ending false include_usage ds (err e) = opening ds ++ failure (error_body e) ∷ done ∷ []

  close_stream_lem :
      (gone include_usage : Bool) (ds : List Delta) (r : Result Completion)
      → close_stream env gone include_usage (opening ds, sent ds) r ≡ ending gone include_usage ds r
  unfolding close_stream send_role
  close_stream_lem true include_usage ds (err e) = refl
  close_stream_lem false include_usage ds (err e) = refl
  close_stream_lem gone include_usage [] (ok c) = refl
  close_stream_lem gone include_usage (d ∷ ds) (ok c) =
      append_assoc (opening (d ∷ ds) ++ finish_frame env c.finish_reason ∷ [])
        (usage_frames env include_usage c) (done ∷ [])
      ∙ append_assoc (opening (d ∷ ds)) (finish_frame env c.finish_reason ∷ [])
          (usage_frames env include_usage c ++ done ∷ [])

  -- The whole stream. If the generation succeeds, the role is sent first and once, also if there
  -- was no delta; then the deltas in order, one finish reason, the usage if it was asked for, and
  -- the end marker. If it fails, what was sent stays sent, and an error event and the end marker
  -- follow unless the client is gone.
  pub stream_chat_frames :
      (gone include_usage : Bool) (ds : List Delta) (r : Result Completion)
      → stream_chat env true gone include_usage (ds, r) ≡ sse (ending gone include_usage ds r)
  unfolding stream_chat
  stream_chat_frames gone include_usage ds r = ap sse (
      ap (λ st. close_stream env gone include_usage st r) (on_deltas_lem ds)
      ∙ close_stream_lem gone include_usage ds r)

-- What a client joins: the contents of the chunks.
abbrev pub choice_text : List Choice → Bytes
choice_text [] = []
choice_text (c ∷ cs) = (elim c.message.content [ none ↦ [] | some t ↦ t ]) ++ choice_text cs

abbrev pub choice_calls : List Choice → List ToolCall
choice_calls [] = []
choice_calls (c ∷ cs) = c.message.tool_calls ++ choice_calls cs

abbrev pub frames_text : List Frame → Bytes
frames_text [] = []
frames_text (chunk cc ∷ frames) = choice_text cc.choices ++ frames_text frames
frames_text (failure body ∷ frames) = frames_text frames
frames_text (done ∷ frames) = frames_text frames

abbrev pub frames_calls : List Frame → List ToolCall
frames_calls [] = []
frames_calls (chunk cc ∷ frames) = choice_calls cc.choices ++ frames_calls frames
frames_calls (failure body ∷ frames) = frames_calls frames
frames_calls (done ∷ frames) = frames_calls frames
