-- ===== src/Server/Prompts.antt =====
-- What the engine is asked to continue for a raw completion.
use flash_qwen.Chatml.Render.{render}
use flash_qwen.Engine.Generate.{Generator, Floats, prompt_ids}
use flash_qwen.Engine.{Request}
use flash_qwen.Prelude.Int.{ℤ}
use flash_qwen.Prelude.{false, List, [], ◌∷◌, Option, some, Bytes, ◌≡◌, sym, ap, ◌∙◌, arith}
use flash_qwen.Server
use flash_qwen.Server.{
  CompletionRequest, Prompt, missing, unreadable, prompt_text, decode_completion,
}
use flash_qwen.Tokenizer.Encode.{encode}

some_inj : {A : Type 0} {a b : A} → some a ≡ some b → a ≡ b
some_inj e = cc

module _ (fl : Floats) (marshal : Bytes → Option Bytes → Bytes → Bytes) (g : Generator) where
  -- The ids for a prompt: the ids or the text themselves, but the template of a chat without messages
  -- if they are empty.
  abbrev pub Prompts : Prompt → List ℤ → Type 0
  Prompts missing ids = ⊥
  Prompts unreadable ids = ⊥
  Prompts (prompt_text []) ids = ids ≡ encode g.tok (render marshal [] [] false)
  Prompts (prompt_text (b ∷ s)) ids = ids ≡ encode g.tok (b ∷ s)
  Prompts (Server.prompt_ids []) ids = ids ≡ encode g.tok (render marshal [] [] false)
  Prompts (Server.prompt_ids (i ∷ l)) ids = ids ≡ i ∷ l

  -- A raw completion that decodes is prompted with its ids, or with the encoding of its text and no
  -- template around it. Only if the ids or the text are empty, the prompt is the ChatML template of a
  -- chat without messages.
  pub decode_completion-Prompts :
      (req : CompletionRequest fl.Float) (p : Prompt) (er : Request fl.Float)
      → decode_completion req p ≡ some er
      → Prompts p (prompt_ids fl marshal g er)
  unfolding decode_completion prompt_ids
  decode_completion-Prompts req missing er e = cc
  decode_completion-Prompts req unreadable er e = cc
  decode_completion-Prompts req (prompt_text []) er e =
      ap (prompt_ids fl marshal g) (sym (some_inj e))
  decode_completion-Prompts req (prompt_text (b ∷ s)) er e =
      ap (prompt_ids fl marshal g) (sym (some_inj e)) ∙ ground arith
  decode_completion-Prompts req (Server.prompt_ids []) er e =
      ap (prompt_ids fl marshal g) (sym (some_inj e))
  decode_completion-Prompts req (Server.prompt_ids (i ∷ l)) er e =
      ap (prompt_ids fl marshal g) (sym (some_inj e)) ∙ ground arith
