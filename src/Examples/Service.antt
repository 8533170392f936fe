-- ===== src/Examples/Service.antt =====
-- The text tier, the client, the replies of the server and the command line on concrete input.
use flash_qwen.Chatml
use flash_qwen.Chatml.{Message}
use flash_qwen.Chatml.Stream
use flash_qwen.Chatml.Stream.Deltas.{visible}
use flash_qwen.Cli.Chat.History.{IsConversation, empty, IsSound, run_chat-IsConversation}
use flash_qwen.Cli.Chat.{Chat, user, assistant, run_chat}
use flash_qwen.Engine.Client.Pump.{rpc_tokens, stream_lem}
use flash_qwen.Engine.Client.Ready.{Waits, wait_ready-Waits, wait_ready_total}
use flash_qwen.Engine.Client.{
  unknown, transport, exited, err_engine_internal, Result, ok, err, error_for, token_id, done,
  error, Feed, eof, event, Rpc, opened, stream, Poll, wait_ready,
}
use flash_qwen.Engine.Generate.Policy.{
  Grants, resolve_max_tokens-Grants, IsSendable, build_request-IsSendable,
}
use flash_qwen.Engine.Generate.Text.{Outcome, drive-Outcome}
use flash_qwen.Engine.Generate.{
  Generator, GenerateRequest, Floats, resolve_max_tokens, build_request, drive, prompt_ids,
}
use flash_qwen.Engine.Raw.Text.{RawOutcome, drive_raw-RawOutcome, take_runes_same}
use flash_qwen.Engine.Raw.{take_runes, drive_raw}
use flash_qwen.Engine.{Completion, Request, Stats, ModelInfo}
use flash_qwen.Examples.Vocab.{format, vocab}
use flash_qwen.Prelude.Int.{ℤ, pos}
use flash_qwen.Prelude.{
  All, ℕ, ◌≤◌, true, false, List, [], ◌∷◌, ◌++◌, Option, none, some, length, Bytes, codes, bytes_eq,
  if◌then◌else◌, ◌≡◌, ◌≢◌, refl, arith, inl, inr,
}
use flash_qwen.Server.Chat.Agree.{stream_chat-blocking_chat}
use flash_qwen.Server.Chat.Frames.{stream_chat_frames}
use flash_qwen.Server.Chat.{Envelope, Reply, stream_chat, blocking_chat, role_frame, finish_frame}
use flash_qwen.Server.Completions.Frames.{stream_completion-blocking_completion}
use flash_qwen.Server.Completions.{stream_completion, blocking_completion}
use flash_qwen.Server.Prompts.{Prompts, decode_completion-Prompts}
use flash_qwen.Server.{CompletionRequest, Prompt, prompt_text, decode_completion}
use flash_qwen.Supervisor.Tail.{writes, last, writes_tail}
use flash_qwen.Tokenizer.{decode}

abbrev pub read_call : Bytes → Option (Bytes × Bytes)
read_call b = if bytes_eq b (codes "{}") then some (codes "f", []) else none

abbrev generator : Generator
generator = record { cm = format; tok = vocab; max_ctx = pos 40 }

abbrev stats : Stats
stats = record { finish_reason = codes "stop"; prompt_tokens = pos 5; completion_tokens = pos 8 }

abbrev tokens : List ℤ → Feed → Feed
tokens [] feed = feed
tokens (id ∷ ids) feed = event (token_id id) (tokens ids feed)

-- "hi", a rune in two tokens, a tool call, and the end.
abbrev pub answer : Rpc
answer = opened (
    tokens (pos 256 ∷ pos 0xC3 ∷ pos 0xA9 ∷ pos 257 ∷ pos b'{' ∷ pos b'}' ∷ pos 258 ∷ [])
      (event (done stats) eof))

drive-Outcome_example :
    Outcome read_call generator (rpc_tokens answer) (ok stats) (drive read_call generator answer)
drive-Outcome_example = drive-Outcome read_call generator answer

drive_raw-RawOutcome_example :
    RawOutcome generator (rpc_tokens answer) (ok stats) (drive_raw generator answer)
drive_raw-RawOutcome_example = drive_raw-RawOutcome generator answer

resolve_max_tokens-Grants_example : Grants 40 38 (pos 10) (resolve_max_tokens generator 38 (pos 10))
resolve_max_tokens-Grants_example = resolve_max_tokens-Grants generator 40 38 (pos 10) refl

-- Floats that are hundredths.
abbrev pub floats : Floats
floats = record { Float = ℕ; Float32 = ℕ; narrow = λ x. x; zero32 = 0; one32 = 100 }

abbrev pub write_tool : Bytes → Option Bytes → Bytes → Bytes
write_tool name description parameters = name ++ parameters

abbrev request : Request ℕ
request = record {
  messages = [];
  tools = [];
  enable_thinking = false;
  max_tokens = pos 10;
  temperature = some 70;
  top_p = none;
  ignore_eos = false;
  raw_prompt = [];
  input_ids = pos 1 ∷ pos 2 ∷ [];
}

abbrev sent : GenerateRequest ℕ
sent = record {
  input_ids = pos 1 ∷ pos 2 ∷ [];
  max_tokens = pos 10;
  temperature = 70;
  top_p = 100;
  stop_token_ids = pos 259 ∷ [];
}

build_run : build_request floats write_tool generator request ≡ ok sent
unfolding build_request flash_qwen.Engine.Generate.prompt_ids resolve_max_tokens
    Chatml.stop_token_ids
build_run = refl

build_request-IsSendable_example : IsSendable floats write_tool generator request 40 sent
build_request-IsSendable_example =
    build_request-IsSendable floats write_tool generator request 40 sent refl (omega arith)
      build_run

abbrev pub envelope : Envelope
envelope = record { id = codes "chatcmpl-1"; created = 7; model = codes "qwen" }

stream_chat-blocking_chat_example :
    (let out = drive read_call generator answer in
      let streaming = stream_chat envelope true false true (out.0.deltas, out.1) in
      let blocking = blocking_chat envelope out.1 in
      (flash_qwen.Server.Chat.Agree.reply_text streaming ≡ visible format false (rpc_tokens answer))
      × (flash_qwen.Server.Chat.Agree.reply_text streaming
          ≡ flash_qwen.Server.Chat.Agree.reply_text blocking)
      × (flash_qwen.Server.Chat.Agree.reply_calls streaming
          ≡ flash_qwen.Server.Chat.Agree.reply_calls blocking))
stream_chat-blocking_chat_example =
    stream_chat-blocking_chat envelope read_call generator true answer stats refl

stream_chat_frames_example :
    stream_chat envelope true false false ((codes "hi", none) ∷ [], err (transport (codes "reset")))
    ≡ flash_qwen.Server.Chat.sse (
        flash_qwen.Server.Chat.Frames.ending envelope false false
          ((codes "hi", none) ∷ [])
          (err (transport (codes "reset"))))
stream_chat_frames_example =
    stream_chat_frames envelope false false ((codes "hi", none) ∷ [])
      (err (transport (codes "reset")))

stream_completion-blocking_completion_example :
    (let out = drive_raw generator answer in
      let streaming = stream_completion envelope true false true (out.0.deltas, out.1) in
      (flash_qwen.Server.Completions.Frames.reply_text streaming ≡ decode vocab (rpc_tokens answer))
      × (flash_qwen.Server.Completions.Frames.reply_text streaming
          ≡ flash_qwen.Server.Completions.Frames.reply_text (blocking_completion envelope out.1))
      × (flash_qwen.Server.Completions.Frames.reply_done streaming ≡ true))
stream_completion-blocking_completion_example =
    stream_completion-blocking_completion envelope generator true answer stats refl

-- A callback that keeps the tokens.
abbrev keep : ℤ → List ℤ → List ℤ
keep id ids = ids ++ id ∷ []

abbrev cut_off : Rpc
cut_off = opened (
    tokens (pos 1 ∷ pos 2 ∷ []) (event (error (unknown 9) (codes "bad")) (tokens (pos 3 ∷ []) eof)))

stream_lem_example :
    stream (some keep) cut_off [] ≡ (pos 1 ∷ pos 2 ∷ [], err (err_engine_internal (codes "bad")))
unfolding error_for
stream_lem_example = stream_lem keep cut_off []

abbrev rounds : List Poll
rounds =
    record { model = none; exit = none; late = false }
    ∷ record { model = none; exit = some (codes "killed"); late = true }
    ∷ []

rounds_run : wait_ready (codes "5m0s") rounds ≡ some (err (exited (codes "killed")))
unfolding wait_ready
rounds_run = refl

wait_ready-Waits_example : Waits (codes "5m0s") (err (exited (codes "killed"))) rounds
wait_ready-Waits_example =
    wait_ready-Waits (codes "5m0s") rounds (err (exited (codes "killed"))) rounds_run

some_ne_none : some (codes "killed") ≢ none
some_ne_none = cc

wait_ready_total_example : (r : Result ModelInfo) × (wait_ready (codes "5m0s") rounds ≡ some r)
wait_ready_total_example =
    wait_ready_total (codes "5m0s") rounds (inr (inr (inr (inr (inl some_ne_none)))))

abbrev half_rune : Stream.Stream
half_rune = record { pending = b'a' ∷ 0xC3 ∷ []; in_tool = false; tool_ids = []; n_tools = 0 }

take_runes_same_example :
    take_runes (b'a' ∷ 0xC3 ∷ [])
    ≡ ((Stream.take_runes half_rune).0.pending, (Stream.take_runes half_rune).1)
take_runes_same_example = take_runes_same half_rune

writes_tail_example :
    (let t = writes (record { buf = []; max = 4 }) (codes "abc" ∷ codes "def" ∷ []) in
      (t.buf ≡ last 4 (codes "abcdef")) × (length t.buf ≤ 4))
writes_tail_example = writes_tail 4 (codes "abc" ∷ codes "def" ∷ [])

abbrev raw : CompletionRequest ℕ
raw = record {
  prompt = prompt_text (codes "hi");
  max_tokens = pos 0;
  temperature = none;
  top_p = none;
  stream = false;
  stream_options = none;
  ignore_eos = true;
}

abbrev decoded : Request ℕ
decoded = record {
  messages = [];
  tools = [];
  enable_thinking = false;
  max_tokens = pos 0;
  temperature = none;
  top_p = none;
  ignore_eos = true;
  raw_prompt = codes "hi";
  input_ids = [];
}

decode_run : decode_completion raw (prompt_text (codes "hi")) ≡ some decoded
unfolding decode_completion
decode_run = refl

decode_completion-Prompts_example :
    Prompts floats write_tool generator
      (prompt_text (codes "hi"))
      (prompt_ids floats write_tool generator decoded)
decode_completion-Prompts_example =
    decode_completion-Prompts floats write_tool generator raw (prompt_text (codes "hi")) decoded
      decode_run

-- A text tier that fails when a question is "bad" and else says "ok".
abbrev last_content : List Message → Bytes
last_content [] = []
last_content (m ∷ []) = m.content
last_content (m ∷ n ∷ ms) = last_content (n ∷ ms)

abbrev reply_to : Request ℕ → List (Bytes × Option Chatml.ToolCall) × Result Completion
reply_to req =
    if bytes_eq (last_content req.messages) (codes "bad")
    then ([], err (transport (codes "reset")))
    else (
      (codes "ok", none) ∷ [],
      ok (record {
        text = codes "ok";
        tool_calls = [];
        finish_reason = codes "stop";
        prompt_tokens = pos 3;
        completion_tokens = pos 1;
      }),
    )

abbrev typed : List Bytes
typed =
    codes "hi\n" ∷ codes "bad\r\n" ∷ codes "/think on\n" ∷ codes "again\n" ∷ codes "/exit\n" ∷ []

abbrev fresh : Chat
fresh = record { history = []; thinking = false }

chat_run : (run_chat reply_to fresh typed).0 ≡ record {
  history =
      user (codes "hi")
      ∷ assistant (codes "ok")
      ∷ user (codes "again")
      ∷ assistant (codes "ok")
      ∷ [];
  thinking = true;
}
unfolding run_chat
chat_run = refl

run_chat-IsConversation_example :
    IsConversation (run_chat reply_to fresh typed).0.history
    × All IsSound (run_chat reply_to fresh typed).1
run_chat-IsConversation_example = run_chat-IsConversation reply_to fresh typed (empty refl)
