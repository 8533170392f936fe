-- ===== src/Engine/Raw/Text.antt =====
-- `Complete`: its text is the plain decoding of the engine's tokens.
use mathlib.Core.Path.{subst, ap₂}
use flash_qwen.Chatml.Stream
use flash_qwen.Chatml.Stream.Runes.{take_runes-Cut, full_rune-nil}
use flash_qwen.Chatml.Stream.{Stream}
use flash_qwen.Engine.Client.Pump.{each_token, rpc_tokens, rpc_ending, stream_lem}
use flash_qwen.Engine.Client.{Result, ok, err, Rpc}
use flash_qwen.Engine.Generate.{Generator, GenerateRequest, Floats, build_request}
use flash_qwen.Engine.Raw.{
  runes_end, take_runes, RawProgress, on_raw_token, complete_raw, raw_idle, drive_raw, start_raw,
  complete,
}
use flash_qwen.Engine.{Request, Stats, Completion}
use flash_qwen.Prelude.Int.{ℤ}
use flash_qwen.Prelude.{
  ℕ, zero, suc, ◌+◌, ◌≤◌, false, not, List, [], ◌∷◌, ◌++◌, append_assoc, append-nil, length, get_or,
  Option, drop, ltb, leb, ◌==◌, concat, if◌then◌else◌, Bytes, ◌≡◌, refl, sym, ap, ◌∙◌, arith,
  Bool-cases, inl, inr,
}
use flash_qwen.Tokenizer.{decode, token_bytes}
use flash_qwen.Utf8.Cut.{Cut, stop, step, Cut-append, Cut-trans}
use flash_qwen.Utf8.Size.{size}
use flash_qwen.Utf8.{full_rune, rune_self}

runes_end_same : (f : ℕ) (b : Bytes) (i : ℕ) → runes_end f b i ≡ Stream.runes_end f b i
unfolding runes_end Stream.runes_end
runes_end_same zero b i = refl
runes_end_same (suc f) b i =
    ap₂
      (λ x y.
        if leb (length b) i
        then i
        else if ltb (get_or b i 0) rune_self
        then x
        else if not (full_rune (drop i b))
        then i
        else y)
      (runes_end_same f b (i + 1)) (runes_end_same f b (i + size (drop i b)))

-- The rune buffer of the raw path behaves as that of the ChatML stream: on the same bytes both hand
-- out the same and keep the same.
pub take_runes_same :
    (s : Stream) → take_runes s.pending ≡ ((Stream.take_runes s).0.pending, (Stream.take_runes s).1)
unfolding take_runes Stream.take_runes
take_runes_same s = elim (Bool-cases (Stream.runes_end (length s.pending) s.pending 0 == 0)) [
  | inl none_whole ↦ ground (arith, runes_end_same (length s.pending) s.pending 0)
  | inr some_whole ↦ ground (arith, runes_end_same (length s.pending) s.pending 0)
]

take_runes-cut : (b : Bytes) → Cut (take_runes b).0 b (take_runes b).1
take_runes-cut b =
    let s : Stream = record { pending = b; in_tool = false; tool_ids = []; n_tools = 0 } in
    subst (λ (p : Bytes × Bytes). Cut (p.0) b (p.1)) (sym (take_runes_same s)) (take_runes-Cut s)

-- What the callback has made of some bytes: it has appended `out`, their whole runes.
record Emits (p : RawProgress) (whole : Bytes) (q : RawProgress) : Type 0 where
  out : Bytes
  cut : Cut q.pending whole out
  text : q.text ≡ p.text ++ out
  deltas : concat q.deltas ≡ concat p.deltas ++ out

concat-snoc :
    (ds : List Bytes) (text : Bytes)
    → concat (ds ++ (if ltb 0 (length text) then text ∷ [] else [])) ≡ concat ds ++ text
concat-snoc [] [] = refl
concat-snoc [] (b ∷ text) = ground (arith, append-nil (b ∷ text))
concat-snoc (d ∷ ds) text =
    ap (λ x. d ++ x) (concat-snoc ds text) ∙ sym (append_assoc d (concat ds) text)

module _ (g : Generator) where
  decode-cons :
      (id : ℤ) (ids : List ℤ) → decode g.tok (id ∷ ids) ≡ decode g.tok (id ∷ []) ++ decode g.tok ids
  unfolding decode
  decode-cons id ids = ap (λ x. x ++ decode g.tok ids) (sym (append-nil (token_bytes g.tok id)))

  decode-nil : decode g.tok [] ≡ []
  unfolding decode
  decode-nil = refl

  on_raw_token-Emits :
      (id : ℤ) (p : RawProgress)
      → Emits p (p.pending ++ decode g.tok (id ∷ [])) (on_raw_token g id p)
  unfolding on_raw_token
  on_raw_token-Emits id p =
      let bytes : Bytes = p.pending ++ decode g.tok (id ∷ []) in
      record {
        out = (take_runes bytes).1;
        cut = take_runes-cut bytes;
        text = refl;
        deltas = concat-snoc p.deltas (take_runes bytes).1;
      }

  Cut-rest : {r s d : Bytes} → Cut r s d → full_rune r ≡ false
  Cut-rest (stop e e' h) = h
  Cut-rest (step l h e c) = Cut-rest c

  each_token-Emits :
      (ids : List ℤ) (p : RawProgress)
      → full_rune p.pending ≡ false
      → Emits p (p.pending ++ decode g.tok ids) (each_token (on_raw_token g) ids p)
  each_token-Emits [] p h = record {
    out = [];
    cut = stop refl (ap (λ x. p.pending ++ x) decode-nil ∙ append-nil p.pending) h;
    text = sym (append-nil p.text);
    deltas = sym (append-nil (concat p.deltas));
  }
  each_token-Emits (id ∷ ids) p h =
      let first = on_raw_token-Emits id p in
      let later = each_token-Emits ids (on_raw_token g id p) (Cut-rest first.cut) in
      record {
        out = first.out ++ later.out;
        cut =
            subst
              (λ w.
                Cut (each_token (on_raw_token g) (id ∷ ids) p).pending w (first.out ++ later.out))
              (append_assoc p.pending (decode g.tok (id ∷ [])) (decode g.tok ids)
                ∙ ap (λ x. p.pending ++ x) (sym (decode-cons id ids)))
              (Cut-trans (decode g.tok ids) first.cut later.cut);
        text =
            later.text
            ∙ ap (λ x. x ++ later.out) first.text
            ∙ append_assoc p.text first.out later.out;
        deltas =
            later.deltas
            ∙ ap (λ x. x ++ later.out) first.deltas
            ∙ append_assoc (concat p.deltas) first.out later.out;
      }

  -- A raw result against the tokens that the engine sent.
  pub record RawReports (ids : List ℤ) (stats : Stats) (p : RawProgress) (c : Completion)
      : Type 0 where
    pub text : c.text ≡ decode g.tok ids
    pub streamed : concat p.deltas ≡ c.text
    pub no_calls : c.tool_calls ≡ []
    pub finish_reason : c.finish_reason ≡ stats.finish_reason
    pub prompt_tokens : c.prompt_tokens ≡ stats.prompt_tokens
    pub completion_tokens : c.completion_tokens ≡ stats.completion_tokens
    pub held_back : length p.pending ≤ 3

  abbrev pub RawOutcome : List ℤ → Result Stats → RawProgress × Result Completion → Type 0
  RawOutcome ids (ok stats) (p, ok c) = RawReports ids stats p c
  RawOutcome ids (ok stats) (p, err e) = ⊥
  RawOutcome ids (err e) (p, ok c) = ⊥
  RawOutcome ids (err e) (p, err e') = e' ≡ e

  complete_raw-RawOutcome :
      (ids : List ℤ) (r : Result Stats)
      → RawOutcome ids r (complete_raw (each_token (on_raw_token g) ids raw_idle, r))
  unfolding complete_raw
  complete_raw-RawOutcome ids (err e) = refl
  complete_raw-RawOutcome ids (ok stats) =
      let q : RawProgress = each_token (on_raw_token g) ids raw_idle in
      let e = each_token-Emits ids raw_idle full_rune-nil in
      let (whole, short) = Cut-append e.cut in
      record {
        text = ap (λ x. x ++ q.pending) e.text ∙ whole;
        streamed =
            concat-snoc q.deltas q.pending ∙ ap (λ x. x ++ q.pending) (e.deltas ∙ sym e.text);
        no_calls = refl;
        finish_reason = refl;
        prompt_tokens = refl;
        completion_tokens = refl;
        held_back = short;
      }

  -- Whatever the engine answers: if its stream ends well, the text is the decoding of all its tokens,
  -- control tokens included, the deltas joined are that text, and at most three bytes were held back
  -- to the end; finish reason and counts are the engine's. If it ends badly, so does the run, with
  -- that failure.
  pub drive_raw-RawOutcome :
      (rpc : Rpc) → RawOutcome (rpc_tokens rpc) (rpc_ending rpc) (drive_raw g rpc)
  unfolding drive_raw
  drive_raw-RawOutcome rpc =
      rw (stream_lem (on_raw_token g) rpc raw_idle)
        (complete_raw-RawOutcome (rpc_tokens rpc) (rpc_ending rpc))

module _ (fl : Floats) (marshal : Bytes → Option Bytes → Bytes → Bytes) (g : Generator)
    (engine : GenerateRequest fl.Float32 → Rpc) where
  -- `Complete` drives the engine with the request that was built; an error before that stands, and
  -- nothing is handed out.
  abbrev pub Completes :
      Result (GenerateRequest fl.Float32) → RawProgress × Result Completion → Type 0
  Completes (ok greq) out = out ≡ drive_raw g (engine greq)
  Completes (err e) out = (out.0.deltas ≡ []) × (out.1 ≡ err e)

  start_raw-Completes :
      (r : Result (GenerateRequest fl.Float32)) → Completes r (start_raw fl marshal g engine r)
  unfolding start_raw
  start_raw-Completes (ok greq) = refl
  start_raw-Completes (err e) = (refl, refl)

  pub complete-Completes :
      (req : Request fl.Float)
      → Completes (build_request fl marshal g req) (complete fl marshal g engine req)
  unfolding complete
  complete-Completes req = start_raw-Completes (build_request fl marshal g req)
