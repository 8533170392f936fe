-- ===== src/Server/Chat.antt =====
-- The handlers of /v1/chat/completions. A generation is what `Generate` has done: the calls of
-- `onDelta` in order, and its result. The completion id and the time are parts of the envelope.
pub mod Frames
pub mod Agree
use flash_qwen.Chatml
use flash_qwen.Engine.Client.{Failure, error_text, Result, ok, err}
use flash_qwen.Engine.{Request, Completion}
use flash_qwen.Prelude.Int.{ℤ, plus}
use flash_qwen.Prelude.{
  ℕ, Bool, true, false, List, [], ◌∷◌, ◌++◌, Option, none, some, length, ltb, ◌==◌, if◌then◌else◌,
  Bytes, codes,
}
use flash_qwen.Server.{
  ToolCall, tool_calls, ErrorBody, Usage, classify_error, flag, ChatRequest, decode,
}

pub record RespMessage : Type 0 where
  pub role : Bytes
  pub content : Option Bytes
  pub tool_calls : List ToolCall

-- `delta` in a stream, `message` in a blocking reply
pub record Choice : Type 0 where
  pub message : RespMessage
  pub finish_reason : Option Bytes

-- What is the same in every object of a reply.
pub record Envelope : Type 0 where
  pub id : Bytes
  pub created : ℕ
  pub model : Bytes

pub record ChatCompletion : Type 0 where
  pub envelope : Envelope
  pub object : Bytes
  pub choices : List Choice
  pub usage : Option Usage

-- A server-sent event.
pub data Frame : Type 0 where
  chunk : ChatCompletion → Frame
  failure : ErrorBody → Frame
  done : Frame

pub data Reply : Type 0 where
  refuse : ℕ → ErrorBody → Reply
  reply : ChatCompletion → Reply
  sse : List Frame → Reply

abbrev pub invalid : Bytes → Reply
invalid message = refuse 400 (record { message = message; kind = codes "invalid_request_error" })

abbrev pub error_body : Failure → ErrorBody
error_body e = record { message = error_text e; kind = (classify_error e).1 }

abbrev pub usage_of : Completion → Usage
usage_of c = record {
  prompt_tokens = c.prompt_tokens;
  completion_tokens = c.completion_tokens;
  total_tokens = plus c.prompt_tokens c.completion_tokens;
}

message_of : Completion → RespMessage
message_of c = record {
  role = codes "assistant";
  content =
      if ltb 0 (length c.tool_calls)
      then (if length c.text == 0 then none else some c.text)
      else some c.text;
  tool_calls = if ltb 0 (length c.tool_calls) then tool_calls c.tool_calls else [];
}

unfoldable pub blocking_chat : Envelope → Result Completion → Reply
unfolding message_of
blocking_chat env (err e) = refuse (classify_error e).0 (error_body e)
blocking_chat env (ok c) = reply (record {
  envelope = env;
  object = codes "chat.completion";
  choices = record { message = message_of c; finish_reason = some c.finish_reason } ∷ [];
  usage = some (usage_of c);
})

module _ (env : Envelope) where
  abbrev pub chunk_of : RespMessage → Option Bytes → Frame
  chunk_of delta reason = chunk (record {
    envelope = env;
    object = codes "chat.completion.chunk";
    choices = record { message = delta; finish_reason = reason } ∷ [];
    usage = none;
  })

  abbrev pub role_frame : Frame
  role_frame = chunk_of (record { role = codes "assistant"; content = none; tool_calls = [] }) none

  abbrev pub text_frames : Bytes → List Frame
  text_frames text =
      if length text == 0
      then []
      else chunk_of (record { role = []; content = some text; tool_calls = [] }) none ∷ []

  abbrev pub call_frames : Option Chatml.ToolCall → List Frame
  call_frames none = []
  call_frames (some tc) =
      chunk_of (record { role = []; content = none; tool_calls = tool_calls (tc ∷ []) }) none ∷ []

  abbrev pub finish_frame : Bytes → Frame
  finish_frame reason =
      chunk_of (record { role = []; content = none; tool_calls = [] }) (some reason)

  abbrev pub usage_frames : Bool → Completion → List Frame
  usage_frames include_usage c =
      if include_usage
      then chunk (record {
        envelope = env;
        object = codes "chat.completion.chunk";
        choices = [];
        usage = some (usage_of c);
      })
        ∷ []
      else []

  -- `sendRole`: the frames so far, and whether the role has been sent
  send_role : List Frame × Bool → List Frame × Bool
  send_role (frames, role_sent) = (if role_sent then frames else frames ++ role_frame ∷ [], true)

  -- the callback that `streamChat` hands to `Generate`
  on_delta : List Frame × Bool → Bytes × Option Chatml.ToolCall → List Frame × Bool
  on_delta state (text, tool) =
      let (frames, role_sent) = send_role state in
      ((frames ++ text_frames text) ++ call_frames tool, role_sent)

  on_deltas : List Frame × Bool → List (Bytes × Option Chatml.ToolCall) → List Frame × Bool
  on_deltas state [] = state
  on_deltas state (d ∷ ds) = on_deltas (on_delta state d) ds

  -- Behind `Generate`; `gone` is whether the client has disconnected.
  close_stream : Bool → Bool → List Frame × Bool → Result Completion → List Frame
  close_stream gone include_usage (frames, role_sent) (err e) =
      if gone then frames else frames ++ failure (error_body e) ∷ done ∷ []
  close_stream gone include_usage state (ok c) =
      let (frames, role_sent) = send_role state in
      ((frames ++ finish_frame c.finish_reason ∷ []) ++ usage_frames include_usage c) ++ done ∷ []

  -- `flushes` is whether the writer is an http.Flusher.
  unfoldable pub stream_chat :
      Bool → Bool → Bool → List (Bytes × Option Chatml.ToolCall) × Result Completion → Reply
  unfolding send_role on_delta on_deltas close_stream
  stream_chat flushes gone include_usage (deltas, result) =
      if flushes
      then sse (close_stream gone include_usage (on_deltas ([], false) deltas) result)
      else refuse 500 (record { message = codes "streaming unsupported"; kind = [] })

module _ {Float : Type 0} where
  -- `chatCompletions`: `body` is the bound request or the error of binding it, and `generate` what
  -- the text tier does with a decoded request.
  unfoldable pub chat_completions :
      Envelope
      → Bool
      → Bool
      → (Request Float → List (Bytes × Option Chatml.ToolCall) × Result Completion)
      → Bytes
      → Option (ChatRequest Float)
      → Reply
  unfolding stream_chat blocking_chat flag
  chat_completions env flushes gone generate bind_error none = invalid bind_error
  chat_completions env flushes gone generate bind_error (some req) =
      if length req.messages == 0
      then invalid (codes "messages is required")
      else if req.stream
      then stream_chat env flushes gone (flag req.stream_options) (generate (decode req))
      else blocking_chat env (generate (decode req)).1
