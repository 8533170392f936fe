-- ===== src/Engine/Raw.antt =====
-- `Complete` of internal/engine/generate.go: raw text completion, with a rune buffer of its own.
pub mod Text
use flash_qwen.Engine.Client.{Result, ok, err, Rpc, stream}
use flash_qwen.Engine.Generate.{Generator, GenerateRequest, Floats, build_request}
use flash_qwen.Engine.{Request, Stats, Completion}
use flash_qwen.Prelude.Int.{ℤ}
use flash_qwen.Prelude.{
  ℕ, zero, suc, ◌+◌, Bool, true, false, not, List, [], ◌∷◌, ◌++◌, Option, some, length, get_or,
  take, drop, ltb, leb, ◌==◌, if◌then◌else◌, Bytes,
}
use flash_qwen.Tokenizer.{decode}
use flash_qwen.Utf8.Size.{size}
use flash_qwen.Utf8.{full_rune, rune_self}

-- `takeRunes` of the raw path, on a buffer: the whole runes and what is left.
runes_end : ℕ → Bytes → ℕ → ℕ
runes_end zero b i = i
runes_end (suc f) b i =
    let ascii = runes_end f b (i + 1) in
    let rune = runes_end f b (i + size (drop i b)) in
    if leb (length b) i
    then i
    else if ltb (get_or b i 0) rune_self
    then ascii
    else if not (full_rune (drop i b))
    then i
    else rune

unfoldable pub take_runes : Bytes → Bytes × Bytes
unfolding runes_end
take_runes b = let i = runes_end (length b) b 0 in if i == 0 then (b, []) else (drop i b, take i b)

-- The callback of `Complete`: buffer, aggregate, and the calls of `onDelta`.
pub record RawProgress : Type 0 where
  pub pending : Bytes
  pub text : Bytes
  pub deltas : List Bytes

on_raw_token : Generator → ℤ → RawProgress → RawProgress
on_raw_token g id p =
    let (pending, text) = take_runes (p.pending ++ decode g.tok (id ∷ [])) in
    record {
      pending = pending;
      text = p.text ++ text;
      deltas = p.deltas ++ (if ltb 0 (length text) then text ∷ [] else []);
    }

complete_raw : RawProgress × Result Stats → RawProgress × Result Completion
complete_raw (p, err e) = (p, err e)
complete_raw (p, ok stats) =
    let text = p.text ++ p.pending in
    (
      record p {
        text = text;
        deltas = p.deltas ++ (if ltb 0 (length p.pending) then p.pending ∷ [] else []);
      },
      ok (record {
        text = text;
        tool_calls = [];
        finish_reason = stats.finish_reason;
        prompt_tokens = stats.prompt_tokens;
        completion_tokens = stats.completion_tokens;
      }),
    )

abbrev pub raw_idle : RawProgress
raw_idle = record { pending = []; text = []; deltas = [] }

-- `Complete` behind the built request.
unfoldable pub drive_raw : Generator → Rpc → RawProgress × Result Completion
unfolding on_raw_token complete_raw take_runes stream
drive_raw g rpc = complete_raw (stream (some (on_raw_token g)) rpc raw_idle)

module _ (fl : Floats) (marshal : Bytes → Option Bytes → Bytes → Bytes) where
  start_raw :
      Generator
      → (GenerateRequest fl.Float32 → Rpc)
      → Result (GenerateRequest fl.Float32)
      → RawProgress × Result Completion
  start_raw g engine (err e) = (raw_idle, err e)
  start_raw g engine (ok greq) = drive_raw g (engine greq)

  unfoldable pub complete :
      Generator
      → (GenerateRequest fl.Float32 → Rpc)
      → Request fl.Float
      → RawProgress × Result Completion
  unfolding start_raw drive_raw build_request
  complete g engine req = start_raw g engine (build_request fl marshal g req)
