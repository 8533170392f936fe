-- ===== src/Server/Completions/Frames.antt =====
-- The events of a streamed raw completion, against the blocking reply.
use mathlib.Core.Path.{ap₂}
use flash_qwen.Engine.Client.Pump.{rpc_tokens, rpc_ending}
use flash_qwen.Engine.Client.{Failure, Result, ok, err, Rpc}
use flash_qwen.Engine.Generate.{Generator}
use flash_qwen.Engine.Raw.Text.{RawOutcome, drive_raw-RawOutcome}
use flash_qwen.Engine.Raw.{RawProgress, drive_raw}
use flash_qwen.Engine.{Completion, Stats}
use flash_qwen.Prelude.{
  Bool, true, false, List, [], ◌∷◌, ◌++◌, append_assoc, append-nil, none, some, length, concat,
  ◌==◌, if◌then◌else◌, Bytes, ◌≡◌, refl, sym, ap, ◌∙◌, arith,
}
use flash_qwen.Server.Chat.{Envelope, error_body}
use flash_qwen.Server.Completions.{
  CompletionChoice, Frame, chunk, failure, done, Reply, refuse, reply, sse, blocking_completion,
  text_chunk, on_texts, usage_frames, close_stream, stream_completion,
}
use flash_qwen.Tokenizer.{decode}

abbrev choice_text : List CompletionChoice → Bytes
choice_text [] = []
choice_text (c ∷ cs) = c.text ++ choice_text cs

abbrev pub frames_text : List Frame → Bytes
frames_text [] = []
frames_text (chunk tc ∷ frames) = choice_text tc.choices ++ frames_text frames
frames_text (failure body ∷ frames) = frames_text frames
frames_text (done ∷ frames) = frames_text frames

-- The text that a client reads off a reply.
abbrev pub reply_text : Reply → Bytes
reply_text (refuse status body) = []
reply_text (reply tc) = choice_text tc.choices
reply_text (sse frames) = frames_text frames

-- The stream ends with the end marker, which stands nowhere else.
abbrev pub ends_done : List Frame → Bool
ends_done [] = false
ends_done (chunk tc ∷ frames) = ends_done frames
ends_done (failure body ∷ frames) = ends_done frames
ends_done (done ∷ []) = true
ends_done (done ∷ f ∷ frames) = false

abbrev pub reply_done : Reply → Bool
reply_done (refuse status body) = false
reply_done (reply tc) = false
reply_done (sse frames) = ends_done frames

frames_text-append :
    (xs ys : List Frame) → frames_text (xs ++ ys) ≡ frames_text xs ++ frames_text ys
frames_text-append [] ys = refl
frames_text-append (chunk tc ∷ xs) ys =
    ap (λ t. choice_text tc.choices ++ t) (frames_text-append xs ys)
    ∙ sym (append_assoc (choice_text tc.choices) (frames_text xs) (frames_text ys))
frames_text-append (failure body ∷ xs) ys = frames_text-append xs ys
frames_text-append (done ∷ xs) ys = frames_text-append xs ys

module _ (env : Envelope) where
  -- The chunks of the deltas; none is empty.
  abbrev pub delta_frames : List Bytes → List Frame
  delta_frames [] = []
  delta_frames (t ∷ ts) =
      (if length t == 0 then [] else text_chunk env t none ∷ []) ++ delta_frames ts

  on_texts_lem :
      (ts : List Bytes) (frames : List Frame) → on_texts env frames ts ≡ frames ++ delta_frames ts
  unfolding on_texts
  on_texts_lem [] frames = sym (append-nil frames)
  on_texts_lem (t ∷ ts) frames =
      on_texts_lem ts _
      ∙ append_assoc frames (if length t == 0 then [] else text_chunk env t none ∷ [])
          (delta_frames ts)

  delta_text : (ts : List Bytes) → frames_text (delta_frames ts) ≡ concat ts
  delta_text [] = refl
  delta_text ([] ∷ ts) = delta_text ts
  delta_text ((b ∷ t) ∷ ts) = ground (arith, delta_text ts, append-nil (b ∷ t))

  usage_text :
      (include_usage : Bool) (c : Completion)
      → frames_text (usage_frames env include_usage c ++ done ∷ []) ≡ []
  usage_text true c = refl
  usage_text false c = refl

  delta_done :
      (ts : List Bytes) (rest : List Frame) → ends_done (delta_frames ts ++ rest) ≡ ends_done rest
  delta_done [] rest = refl
  delta_done ([] ∷ ts) rest = delta_done ts rest
  delta_done ((b ∷ t) ∷ ts) rest = ground (arith, delta_done ts rest)

  abbrev closing : Bool → List Bytes → Completion → List Frame
  closing include_usage ts c =
      delta_frames ts
      ++ (text_chunk env [] (some c.finish_reason)
          ∷ (usage_frames env include_usage c ++ done ∷ []))

  stream_ok :
      (gone include_usage : Bool) (ts : List Bytes) (c : Completion)
      → stream_completion env true gone include_usage (ts, ok c) ≡ sse (closing include_usage ts c)
  unfolding stream_completion close_stream
  stream_ok gone include_usage ts c = ap sse (
      ap
        (λ fs.
          ((fs ++ text_chunk env [] (some c.finish_reason) ∷ [])
            ++ usage_frames env include_usage c)
          ++ done ∷ [])
        (on_texts_lem ts [])
      ∙ append_assoc (delta_frames ts ++ text_chunk env [] (some c.finish_reason) ∷ [])
          (usage_frames env include_usage c) (done ∷ [])
      ∙ append_assoc (delta_frames ts) (text_chunk env [] (some c.finish_reason) ∷ [])
          (usage_frames env include_usage c ++ done ∷ []))

  pub stream_err :
      (include_usage : Bool) (ts : List Bytes) (e : Failure)
      → stream_completion env true false include_usage (ts, err e)
        ≡ sse (delta_frames ts ++ failure (error_body e) ∷ done ∷ [])
  unfolding stream_completion close_stream
  stream_err include_usage ts e =
      ap (λ fs. sse (fs ++ failure (error_body e) ∷ done ∷ [])) (on_texts_lem ts [])

  usage_done :
      (include_usage : Bool) (c : Completion)
      → ends_done (usage_frames env include_usage c ++ done ∷ []) ≡ true
  usage_done true c = refl
  usage_done false c = refl

  closing_text :
      (include_usage : Bool) (ts : List Bytes) (c : Completion)
      → frames_text (closing include_usage ts c) ≡ concat ts
  closing_text include_usage ts c =
      frames_text-append (delta_frames ts) _
      ∙ ap₂ (λ u v. u ++ v) (delta_text ts) (usage_text include_usage c)
      ∙ append-nil (concat ts)

  -- When the engine's stream ends well, the events of a streamed raw completion, joined, are the
  -- decoding of all the engine's tokens and the text of the blocking reply, and the end marker is
  -- the last event and stands nowhere else.
  pub stream_completion-blocking_completion :
      (g : Generator) (include_usage : Bool) (rpc : Rpc) (stats : Stats)
      → rpc_ending rpc ≡ ok stats
      → (let out = drive_raw g rpc in
          let streaming = stream_completion env true false include_usage (out.0.deltas, out.1) in
          (reply_text streaming ≡ decode g.tok (rpc_tokens rpc))
          × (reply_text streaming ≡ reply_text (blocking_completion env out.1))
          × (reply_done streaming ≡ true))
  stream_completion-blocking_completion g include_usage rpc stats e =
      by_outcome (drive_raw g rpc) (rw e at (drive_raw-RawOutcome g rpc))
    where
      by_outcome :
          (out : RawProgress × Result Completion)
          → RawOutcome g (rpc_tokens rpc) (ok stats) out
          → (let streaming = stream_completion env true false include_usage (out.0.deltas, out.1) in
              (reply_text streaming ≡ decode g.tok (rpc_tokens rpc))
              × (reply_text streaming ≡ reply_text (blocking_completion env out.1))
              × (reply_done streaming ≡ true))
      by_outcome (p, err f) v = absurd v
      by_outcome (p, ok c) v =
          let frames = stream_ok false include_usage p.deltas c in
          let joined = ap reply_text frames ∙ closing_text include_usage p.deltas c ∙ v.streamed in
          (
            joined ∙ v.text,
            joined ∙ (unfold blocking_completion in sym (append-nil c.text)),
            ap reply_done frames ∙ delta_done p.deltas _ ∙ usage_done include_usage c,
          )
