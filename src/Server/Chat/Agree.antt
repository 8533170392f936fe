-- ===== src/Server/Chat/Agree.antt =====
-- A streamed reply and a blocking reply to the same generation hold the same text and calls.
use mathlib.Core.Path.{ap₂}
use flash_qwen.Chatml
use flash_qwen.Chatml.Stream.Calls.{tools, with_tool}
use flash_qwen.Chatml.Stream.Deltas.{texts, visible}
use flash_qwen.Engine.Client.Pump.{rpc_tokens, rpc_ending}
use flash_qwen.Engine.Client.{Result, ok, err, Rpc}
use flash_qwen.Engine.Generate.Text.{Reports, Outcome, drive-Outcome}
use flash_qwen.Engine.Generate.{Generator, Progress, drive}
use flash_qwen.Engine.{Completion, Stats}
use flash_qwen.Prelude.{
  Bool, true, false, List, [], ◌∷◌, ◌++◌, append_assoc, append-nil, Option, none, some, length, ltb,
  ◌==◌, concat, if◌then◌else◌, Bytes, ◌≡◌, refl, sym, ap, ◌∙◌, arith, Bool-cases, inl, inr,
}
use flash_qwen.Server.Chat.Frames.{
  Delta, delta_frames, ending, choice_text, choice_calls, frames_text, frames_calls,
  stream_chat_frames,
}
use flash_qwen.Server.Chat.{
  Envelope, Frame, chunk, failure, done, Reply, refuse, reply, sse, text_frames, call_frames,
  usage_frames, blocking_chat, stream_chat,
}
use flash_qwen.Server.{ToolCall, tool_calls}

frames_text-append :
    (xs ys : List Frame) → frames_text (xs ++ ys) ≡ frames_text xs ++ frames_text ys
frames_text-append [] ys = refl
frames_text-append (chunk cc ∷ xs) ys =
    ap (λ t. choice_text cc.choices ++ t) (frames_text-append xs ys)
    ∙ sym (append_assoc (choice_text cc.choices) (frames_text xs) (frames_text ys))
frames_text-append (failure body ∷ xs) ys = frames_text-append xs ys
frames_text-append (done ∷ xs) ys = frames_text-append xs ys

frames_calls-append :
    (xs ys : List Frame) → frames_calls (xs ++ ys) ≡ frames_calls xs ++ frames_calls ys
frames_calls-append [] ys = refl
frames_calls-append (chunk cc ∷ xs) ys =
    ap (λ t. choice_calls cc.choices ++ t) (frames_calls-append xs ys)
    ∙ sym (append_assoc (choice_calls cc.choices) (frames_calls xs) (frames_calls ys))
frames_calls-append (failure body ∷ xs) ys = frames_calls-append xs ys
frames_calls-append (done ∷ xs) ys = frames_calls-append xs ys

module _ (env : Envelope) where
  text_frames_lem :
      (text : Bytes)
      → (frames_text (text_frames env text) ≡ text) × (frames_calls (text_frames env text) ≡ [])
  text_frames_lem [] = (refl, refl)
  text_frames_lem (b ∷ text) = ground (arith, append-nil (b ∷ text))

  usage_frames_lem :
      (include_usage : Bool) (c : Completion)
      → (frames_text (usage_frames env include_usage c ++ done ∷ []) ≡ [])
        × (frames_calls (usage_frames env include_usage c ++ done ∷ []) ≡ [])
  usage_frames_lem true c = (refl, refl)
  usage_frames_lem false c = (refl, refl)

  call_text : (tool : Option Chatml.ToolCall) → frames_text (call_frames env tool) ≡ []
  call_text none = refl
  call_text (some tc) = refl

  abbrev optional : Option Chatml.ToolCall → List Chatml.ToolCall
  optional none = []
  optional (some tc) = tc ∷ []

  call_calls :
      (tool : Option Chatml.ToolCall)
      → frames_calls (call_frames env tool) ≡ tool_calls (optional tool)
  unfolding tool_calls
  call_calls none = refl
  call_calls (some tc) = refl

  module _ (unmarshal : Bytes → Option (Bytes × Bytes)) (g : Generator) where
    delta_text :
        (ds : List Delta) → frames_text (delta_frames env ds) ≡ concat (texts unmarshal g.cm ds)
    delta_text [] = refl
    delta_text ((text, tool) ∷ ds) =
        frames_text-append (text_frames env text ++ call_frames env tool) (delta_frames env ds)
        ∙ ap₂ (λ u v. u ++ v)
            (frames_text-append (text_frames env text) (call_frames env tool)
              ∙ ap₂ (λ u v. u ++ v) (text_frames_lem text).0 (call_text tool)
              ∙ append-nil text)
            (delta_text ds)

    calls_cons :
        (tool : Option Chatml.ToolCall) (ds : List Delta)
        → tool_calls (optional tool) ++ tool_calls (tools unmarshal g.cm ds)
          ≡ tool_calls (with_tool unmarshal g.cm tool (tools unmarshal g.cm ds))
    unfolding tool_calls
    calls_cons none ds = refl
    calls_cons (some tc) ds = refl

    delta_calls :
        (ds : List Delta)
        → frames_calls (delta_frames env ds) ≡ tool_calls (tools unmarshal g.cm ds)
    delta_calls [] = unfold tool_calls in refl
    delta_calls ((text, tool) ∷ ds) =
        frames_calls-append (text_frames env text ++ call_frames env tool) (delta_frames env ds)
        ∙ ap₂ (λ u v. u ++ v)
            (frames_calls-append (text_frames env text) (call_frames env tool)
              ∙ ap₂ (λ u v. u ++ v) (text_frames_lem text).1 (call_calls tool))
            (delta_calls ds)
        ∙ calls_cons tool ds

-- The text and the calls that a client reads off a reply.
abbrev pub reply_text : Reply → Bytes
reply_text (refuse status body) = []
reply_text (reply cc) = choice_text cc.choices
reply_text (sse frames) = frames_text frames

abbrev pub reply_calls : Reply → List ToolCall
reply_calls (refuse status body) = []
reply_calls (reply cc) = choice_calls cc.choices
reply_calls (sse frames) = frames_calls frames

module _ (env : Envelope) where
  pub blocking_text : (c : Completion) → reply_text (blocking_chat env (ok c)) ≡ c.text
  unfolding blocking_chat
  blocking_text c = elim (Bool-cases (ltb 0 (length c.tool_calls))) [
    | inr no_calls ↦ rw no_calls (append-nil c.text)
    | inl calls ↦ rw calls (by_text c.text)
  ]
    where
      by_text :
          (t : Bytes)
          → (let content : Option Bytes = if length t == 0 then none else some t in
              (elim content [ none ↦ [] | some s ↦ s ]) ++ [])
            ≡ t
      by_text [] = refl
      by_text (b ∷ t) = ground (arith, append-nil (b ∷ t))

  pub blocking_calls :
      (c : Completion) → reply_calls (blocking_chat env (ok c)) ≡ tool_calls c.tool_calls
  unfolding blocking_chat
  blocking_calls c = by_calls c.tool_calls
    where
      by_calls :
          (cs : List Chatml.ToolCall)
          → (if ltb 0 (length cs) then tool_calls cs else []) ++ [] ≡ tool_calls cs
      by_calls [] = unfold tool_calls in refl
      by_calls (tc ∷ cs) = ground (arith, append-nil (tool_calls (tc ∷ cs)))

  module _ (unmarshal : Bytes → Option (Bytes × Bytes)) (g : Generator) where
    streamed :
        (include_usage : Bool) (ds : List Delta) (c : Completion)
        → (frames_text (ending env false include_usage ds (ok c))
            ≡ concat (texts unmarshal g.cm ds))
          × (frames_calls (ending env false include_usage ds (ok c))
              ≡ tool_calls (tools unmarshal g.cm ds))
    streamed include_usage ds c = (
      frames_text-append (delta_frames env ds) _
          ∙ ap₂ (λ u v. u ++ v) (delta_text env unmarshal g ds)
              (usage_frames_lem env include_usage c).0
          ∙ append-nil (concat (texts unmarshal g.cm ds)),
      frames_calls-append (delta_frames env ds) _
          ∙ ap₂ (λ u v. u ++ v) (delta_calls env unmarshal g ds)
              (usage_frames_lem env include_usage c).1
          ∙ append-nil (tool_calls (tools unmarshal g.cm ds)),
    )

    -- The two replies to one generation agree.
    record Agrees (include_usage : Bool) (rpc : Rpc) (ds : List Delta) (r : Result Completion)
        : Type 0 where
      text :
          reply_text (stream_chat env true false include_usage (ds, r))
          ≡ visible g.cm false (rpc_tokens rpc)
      same_text :
          reply_text (stream_chat env true false include_usage (ds, r))
          ≡ reply_text (blocking_chat env r)
      same_calls :
          reply_calls (stream_chat env true false include_usage (ds, r))
          ≡ reply_calls (blocking_chat env r)

    agrees :
        (include_usage : Bool) (rpc : Rpc) (stats : Stats) (p : Progress) (c : Completion)
        → Reports unmarshal g (rpc_tokens rpc) stats p c
        → Agrees include_usage rpc p.deltas (ok c)
    agrees include_usage rpc stats p c v =
        let frames = stream_chat_frames env false include_usage p.deltas (ok c) in
        let (text, calls) = streamed include_usage p.deltas c in
        let joined = ap reply_text frames ∙ text ∙ v.streamed_text in
        record {
          text = joined ∙ v.text;
          same_text = joined ∙ sym (blocking_text c);
          same_calls =
              ap reply_calls frames
              ∙ calls
              ∙ ap tool_calls v.streamed_calls
              ∙ sym (blocking_calls c);
        }

    -- When the engine's stream ends well, the events of a streamed chat reply, joined, are the visible
    -- text of the engine's tokens, and hold the text and the tool calls of the blocking reply to the
    -- same generation.
    pub stream_chat-blocking_chat :
        (include_usage : Bool) (rpc : Rpc) (stats : Stats)
        → rpc_ending rpc ≡ ok stats
        → (let out = drive unmarshal g rpc in
            let streaming = stream_chat env true false include_usage (out.0.deltas, out.1) in
            let blocking = blocking_chat env out.1 in
            (reply_text streaming ≡ visible g.cm false (rpc_tokens rpc))
            × (reply_text streaming ≡ reply_text blocking)
            × (reply_calls streaming ≡ reply_calls blocking))
    stream_chat-blocking_chat include_usage rpc stats e =
        by_outcome (drive unmarshal g rpc) (rw e at (drive-Outcome unmarshal g rpc))
      where
        by_outcome :
            (out : Progress × Result Completion)
            → Outcome unmarshal g (rpc_tokens rpc) (ok stats) out
            → (let streaming = stream_chat env true false include_usage (out.0.deltas, out.1) in
                let blocking = blocking_chat env out.1 in
                (reply_text streaming ≡ visible g.cm false (rpc_tokens rpc))
                × (reply_text streaming ≡ reply_text blocking)
                × (reply_calls streaming ≡ reply_calls blocking))
        by_outcome (p, ok c) v =
            let a = agrees include_usage rpc stats p c v in (a.text, a.same_text, a.same_calls)
        by_outcome (p, err f) v = absurd v
