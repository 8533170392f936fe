-- ===== src/Engine/Generate/Text.antt =====
-- What `Generate` returns, against the visible text and the calls of the engine's tokens.
use flash_qwen.Chatml.{ToolCall}
use flash_qwen.Chatml.Stream.{new_stream, push, flush}
use flash_qwen.Chatml.Stream.Calls.{tools, with_tool, calls_of, payloads, tools-feed}
use flash_qwen.Chatml.Stream.Deltas.{feed, texts, visible, flush-feed}
use flash_qwen.Engine.Client.Pump.{each_token, rpc_tokens, rpc_ending, stream_lem}
use flash_qwen.Engine.Client.{Result, ok, err, Rpc}
use flash_qwen.Engine.Generate.{
  Generator, GenerateRequest, Floats, Progress, option_list, notify, on_token, idle, finish,
  complete_stream, drive, start, generate, build_request,
}
use flash_qwen.Engine.{Request, Stats, Completion}
use flash_qwen.Prelude.Int.{ℤ}
use flash_qwen.Prelude.{
  false, List, [], ◌∷◌, ◌++◌, append_assoc, append-nil, Option, none, some, length, ltb, concat,
  if◌then◌else◌, Bytes, codes, ◌≡◌, refl, sym, ap, ◌∙◌, arith,
}

module _ (unmarshal : Bytes → Option (Bytes × Bytes)) (g : Generator) where
  -- The calls of `onDelta` for what the pushes returned.
  notes : List (Bytes × Option ToolCall) → List (Bytes × Option ToolCall)
  notes [] = []
  notes ((text, tool) ∷ outs) = notify text tool ++ notes outs

  tool_calls_lem :
      (before : List ToolCall) (tool : Option ToolCall) (later : List ToolCall)
      → (before ++ option_list tool) ++ later ≡ before ++ with_tool unmarshal g.cm tool later
  tool_calls_lem before none later = ap (λ x. x ++ later) (append-nil before)
  tool_calls_lem before (some tc) later = append_assoc before (tc ∷ []) later

  -- The callback, over all tokens, appends what the pushes return.
  tokens_lem :
      (ids : List ℤ) (p : Progress)
      → (let out = feed unmarshal g.cm p.codec ids in
          each_token (on_token unmarshal g) ids p ≡ record {
            codec = out.0;
            text = p.text ++ concat (texts unmarshal g.cm out.1);
            tool_calls = p.tool_calls ++ tools unmarshal g.cm out.1;
            deltas = p.deltas ++ notes out.1;
          })
  unfolding feed on_token notes
  tokens_lem [] p = λ i. record {
    codec = p.codec;
    text = sym (append-nil p.text) i;
    tool_calls = sym (append-nil p.tool_calls) i;
    deltas = sym (append-nil p.deltas) i;
  }
  tokens_lem (id ∷ ids) p =
      let (codec, text, tool) = push unmarshal g.cm p.codec id in
      let outs = (feed unmarshal g.cm codec ids).1 in
      tokens_lem ids (on_token unmarshal g id p) ∙ (λ i. record {
        codec = (feed unmarshal g.cm codec ids).0;
        text = append_assoc p.text text (concat (texts unmarshal g.cm outs)) i;
        tool_calls = tool_calls_lem p.tool_calls tool (tools unmarshal g.cm outs) i;
        deltas = append_assoc p.deltas (notify text tool) (notes outs) i;
      })

  texts-notify :
      (text : Bytes) (tool : Option ToolCall) (rest : List (Bytes × Option ToolCall))
      → concat (texts unmarshal g.cm (notify text tool ++ rest))
        ≡ text ++ concat (texts unmarshal g.cm rest)
  unfolding notify
  texts-notify [] none rest = refl
  texts-notify [] (some tc) rest = refl
  texts-notify (b ∷ text) tool rest = ground arith

  tools-notify :
      (text : Bytes) (tool : Option ToolCall) (rest : List (Bytes × Option ToolCall))
      → tools unmarshal g.cm (notify text tool ++ rest)
        ≡ with_tool unmarshal g.cm tool (tools unmarshal g.cm rest)
  unfolding notify
  tools-notify [] none rest = refl
  tools-notify [] (some tc) rest = refl
  tools-notify (b ∷ text) tool rest = ground arith

  -- What `onDelta` gets, joined, is what the pushes returned.
  notes_lem :
      (outs : List (Bytes × Option ToolCall))
      → (concat (texts unmarshal g.cm (notes outs)) ≡ concat (texts unmarshal g.cm outs))
        × (tools unmarshal g.cm (notes outs) ≡ tools unmarshal g.cm outs)
  unfolding notes
  notes_lem [] = (refl, refl)
  notes_lem ((text, tool) ∷ outs) = (
    texts-notify text tool (notes outs) ∙ ap (λ x. text ++ x) (notes_lem outs).0,
    tools-notify text tool (notes outs) ∙ ap (with_tool unmarshal g.cm tool) (notes_lem outs).1,
  )

-- A result against the tokens that the engine sent.
pub record Reports (unmarshal : Bytes → Option (Bytes × Bytes)) (g : Generator) (ids : List ℤ)
    (stats : Stats) (p : Progress) (c : Completion) : Type 0 where
  pub text : c.text ≡ visible g.cm false ids
  pub tool_calls : c.tool_calls ≡ calls_of unmarshal g.cm 0 (payloads g.cm false [] ids)
  pub finish_reason :
      c.finish_reason
      ≡ (if ltb 0 (length c.tool_calls) then codes "tool_calls" else stats.finish_reason)
  pub prompt_tokens : c.prompt_tokens ≡ stats.prompt_tokens
  pub completion_tokens : c.completion_tokens ≡ stats.completion_tokens
  pub streamed_text : concat (texts unmarshal g.cm p.deltas) ≡ c.text
  pub streamed_calls : tools unmarshal g.cm p.deltas ≡ c.tool_calls

module _ (unmarshal : Bytes → Option (Bytes × Bytes)) (g : Generator) where
  -- The flushed tail is one more delta, if there is one.
  tail_delta :
      (ds : List (Bytes × Option ToolCall)) (tail : Bytes)
      → (let added = ds ++ (if ltb 0 (length tail) then (tail, none) ∷ [] else []) in
          (concat (texts unmarshal g.cm added) ≡ concat (texts unmarshal g.cm ds) ++ tail)
          × (tools unmarshal g.cm added ≡ tools unmarshal g.cm ds))
  tail_delta [] [] = (refl, refl)
  tail_delta [] (b ∷ tail) = ground (arith, append-nil (b ∷ tail))
  tail_delta ((text, tool) ∷ ds) tail = (
    ap (λ x. text ++ x) (tail_delta ds tail).0 ∙ sym (append_assoc text _ tail),
    ap (with_tool unmarshal g.cm tool) (tail_delta ds tail).1,
  )

  -- The state behind the last token.
  after : List ℤ → Progress
  after ids =
      let out = feed unmarshal g.cm new_stream ids in
      record {
        codec = out.0;
        text = concat (texts unmarshal g.cm out.1);
        tool_calls = tools unmarshal g.cm out.1;
        deltas = notes unmarshal g out.1;
      }

  each_token-after :
      (ids : List ℤ) → each_token (on_token unmarshal g) ids (idle unmarshal) ≡ after ids
  unfolding after idle
  each_token-after ids = tokens_lem unmarshal g ids (idle unmarshal)

  finish-Reports :
      (ids : List ℤ) (stats : Stats)
      → Reports unmarshal g ids stats
          (finish unmarshal (after ids) stats).0
          (finish unmarshal (after ids) stats).1
  unfolding finish after
  finish-Reports ids stats =
      let out = feed unmarshal g.cm new_stream ids in
      let tail = (flush out.0).1 in
      let (joined, calls) = notes_lem unmarshal g out.1 in
      let (text, kept) = tail_delta (notes unmarshal g out.1) tail in
      record {
        text = (flush-feed unmarshal g.cm ids).0;
        tool_calls = unfold new_stream in tools-feed unmarshal g.cm new_stream ids;
        finish_reason = refl;
        prompt_tokens = refl;
        completion_tokens = refl;
        streamed_text = text ∙ ap (λ x. x ++ tail) joined;
        streamed_calls = kept ∙ calls;
      }

-- The result of a run: a report if the stream ended well, the failure if not.
abbrev pub Outcome :
    (Bytes → Option (Bytes × Bytes))
    → Generator
    → List ℤ
    → Result Stats
    → Progress × Result Completion
    → Type 0
Outcome unmarshal g ids (ok stats) (p, ok c) = Reports unmarshal g ids stats p c
Outcome unmarshal g ids (ok stats) (p, err e) = ⊥
Outcome unmarshal g ids (err e) (p, ok c) = ⊥
Outcome unmarshal g ids (err e) (p, err e') = e' ≡ e

-- Whatever the engine answers: if its stream ends well, the result's text is the visible bytes of the
-- tokens, its tool calls are the readable token runs between the markers, the finish reason is
-- "tool_calls" if there is a call and the engine's if not, the counts are the engine's, and the deltas
-- that `onDelta` got, joined, are the same text and the same calls. If it ends badly, the result is
-- that failure.
pub drive-Outcome :
    (unmarshal : Bytes → Option (Bytes × Bytes)) (g : Generator) (rpc : Rpc)
    → Outcome unmarshal g (rpc_tokens rpc) (rpc_ending rpc) (drive unmarshal g rpc)
unfolding drive
drive-Outcome unmarshal g rpc =
    rw (stream_lem (on_token unmarshal g) rpc (idle unmarshal))
      (rw (each_token-after unmarshal g (rpc_tokens rpc)) (by_ending (rpc_ending rpc)))
  where
    by_ending :
        (r : Result Stats)
        → Outcome unmarshal g
            (rpc_tokens rpc)
            r
            (complete_stream unmarshal (after unmarshal g (rpc_tokens rpc), r))
    by_ending (ok stats) =
        unfold complete_stream in finish-Reports unmarshal g (rpc_tokens rpc) stats
    by_ending (err e) = unfold complete_stream in refl

-- `Generate` drives the engine with the request that was built; an error before that stands, and
-- nothing is handed out.
module _ (unmarshal : Bytes → Option (Bytes × Bytes)) (fl : Floats)
    (marshal : Bytes → Option Bytes → Bytes → Bytes) (g : Generator)
    (engine : GenerateRequest fl.Float32 → Rpc) where
  abbrev pub Generates : Result (GenerateRequest fl.Float32) → Progress × Result Completion → Type 0
  Generates (ok greq) out = out ≡ drive unmarshal g (engine greq)
  Generates (err e) out = (out.0.deltas ≡ []) × (out.1 ≡ err e)

  start-Generates :
      (r : Result (GenerateRequest fl.Float32))
      → Generates r (start unmarshal fl marshal g engine r)
  unfolding start idle
  start-Generates (ok greq) = refl
  start-Generates (err e) = (refl, refl)

  pub generate-Generates :
      (req : Request fl.Float)
      → Generates (build_request fl marshal g req) (generate unmarshal fl marshal g engine req)
  unfolding generate
  generate-Generates req = start-Generates (build_request fl marshal g req)
