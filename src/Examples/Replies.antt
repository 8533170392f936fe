-- ===== src/Examples/Replies.antt =====
-- A chat request from its body to the bytes of its reply, and the reference of the tokenizer.
use flash_qwen.Engine.Client.{Rpc}
use flash_qwen.Engine.Generate.{GenerateRequest}
use flash_qwen.Examples.Service.{answer, floats, read_call, write_tool}
use flash_qwen.Examples.Vocab.{format, merges, vocab}
use flash_qwen.Prelude.Int.{pos}
use flash_qwen.Prelude.{
  ℕ, ◌+◌, true, false, List, [], ◌∷◌, ◌++◌, none, some, length, lookup, map, Bytes, codes, ◌≡◌,
  refl, sym, arith, Bool-cases, inl, inr, bytes_eq, bytes_eq_iff, length-append, ap,
}
use flash_qwen.Server.Chat.{ChatCompletion, Frame, failure, done}
use flash_qwen.Server.Completions
use flash_qwen.Server.Completions.{TextCompletion}
use flash_qwen.Server.Service.Answers.{AnswersBody, chat_service-AnswersBody}
use flash_qwen.Server.Service.Completes
use flash_qwen.Server.Service.Completes.{completion_service-AnswersBody}
use flash_qwen.Server.Service.{completion_service, Server, Moment, chat_service}
use flash_qwen.Server.Sse.Events.{read_events, IsLine, read_events-wire}
use flash_qwen.Server.Sse.{Marshal, payload, wire, raw_payload, raw_wire}
use flash_qwen.Server.{ChatRequest, CompletionRequest, prompt_text, plain, ErrorBody}
use flash_qwen.Tokenizer.Bpe.Greedy.{Merges, IsOrdered, apply_bpe-Merges}
use flash_qwen.Tokenizer.Bpe.{apply_bpe, pair_key, symbol_ids}
use flash_qwen.Tokenizer.ByteMaps.{sym_of}

abbrev server : Server
server = record {
  gen = record { cm = format; tok = vocab; max_ctx = pos 4096 };
  model = codes "qwen";
}

abbrev moment : Moment
moment = record { random = (11, 12); now = 7 }

abbrev body : ChatRequest ℕ
body = record {
  messages =
      record {
        role = codes "user";
        content = plain (codes "hi");
        tool_calls = [];
        tool_call_id = [];
      }
      ∷ [];
  tools = [];
  stream = true;
  stream_options = none;
  max_tokens = pos 0;
  max_completion_tokens = pos 10;
  temperature = none;
  top_p = none;
  ignore_eos = false;
  enable_thinking = none;
}

abbrev engine : GenerateRequest ℕ → Rpc
engine r = answer

chat_service-AnswersBody_example :
    AnswersBody floats write_tool read_call server moment engine 4096 []
      (some body)
      (chat_service floats write_tool read_call server moment engine [] (some body))
chat_service-AnswersBody_example =
    chat_service-AnswersBody floats write_tool read_call server moment engine 4096 [] (some body)
      refl (omega arith)

abbrev raw : CompletionRequest ℕ
raw = record {
  prompt = prompt_text (codes "hi");
  max_tokens = pos 10;
  temperature = none;
  top_p = none;
  stream = true;
  stream_options = none;
  ignore_eos = false;
}

completion_service-AnswersBody_example :
    Completes.AnswersBody floats write_tool server moment engine 4096 []
      (some raw)
      (completion_service floats write_tool server moment engine [] (some raw))
completion_service-AnswersBody_example =
    completion_service-AnswersBody floats write_tool server moment engine 4096 refl (omega arith) []
      (some raw)

abbrev marshal : Marshal
marshal = record {
  chat_completion = λ cc. codes "{}";
  error_object = λ b. codes "{\"error\":{}}";
  text_completion = λ tc. codes "{}";
}

abbrev frames : List Frame
frames = failure (record { message = codes "full"; kind = codes "overloaded_error" }) ∷ done ∷ []

chunk-IsLine : (cc : ChatCompletion) → IsLine (marshal.chat_completion cc)
chunk-IsLine completion = (refl, (refl, tt))

error-IsLine : (b : ErrorBody) → IsLine (marshal.error_object b)
error-IsLine b = (
  refl,
  (refl, (refl, (refl, (refl, (refl, (refl, (refl, (refl, (refl, (refl, (refl, tt))))))))))),
)

text-IsLine : (tc : TextCompletion) → IsLine (marshal.text_completion tc)
text-IsLine tc = (refl, (refl, tt))

abbrev raw_frames : List Completions.Frame
raw_frames = Completions.done ∷ []

read_events-wire_example :
    (read_events (wire marshal frames) ≡ map (payload marshal) frames)
    × (read_events (raw_wire marshal raw_frames) ≡ map (raw_payload marshal) raw_frames)
read_events-wire_example =
    read_events-wire marshal chunk-IsLine error-IsLine text-IsLine frames raw_frames

-- The one merge, of "h" and "i".
merge_key : (key : Bytes) (r : ℕ) → lookup key merges ≡ some r → key ≡ codes "h" ++ 1 ∷ codes "i"
merge_key key r e = elim (Bool-cases (bytes_eq (codes "h" ++ 1 ∷ codes "i") key)) [
  | inl same ↦ sym ((bytes_eq_iff (codes "h" ++ 1 ∷ codes "i") key).0 same)
  | inr other ↦ absurd (none_ne_some (rw other at e))
]
  where
    none_ne_some : {n : ℕ} → none ≡ some n → ⊥
    none_ne_some h = cc

abbrev key : Bytes
key = codes "h" ++ 1 ∷ codes "i"

length-pair_key : (a b : Bytes) → length (pair_key a b) ≡ length a + 1 + length b
length-pair_key a b = omega (arith, length-append a (1 ∷ b))

-- The key neither begins nor ends with the two symbols that it joins.
not_left : (l c : Bytes) → length l ≡ 2 → pair_key l c ≡ key → ⊥
not_left l (x ∷ c) n e = absurd (omega (arith, length-pair_key l (x ∷ c), ap length e))
not_left [] [] n e = absurd (omega arith)
not_left (x ∷ []) [] n e = absurd (omega arith)
not_left (x ∷ y ∷ []) [] n e = cc
not_left (x ∷ y ∷ z ∷ l) [] n e = absurd (omega arith)

not_right : (l c : Bytes) → length l ≡ 2 → pair_key c l ≡ key → ⊥
not_right l (x ∷ c) n e = absurd (omega (arith, length-pair_key (x ∷ c) l, ap length e))
not_right l [] n e = cc

joined_length : (a b : Bytes) → pair_key a b ≡ key → length (a ++ b) ≡ 2
joined_length a b e = omega (arith, length-append a b, length-pair_key a b, ap length e)

merges-IsOrdered : IsOrdered merges
merges-IsOrdered = record {
  as_left = λ a b c r s f g.
      absurd (not_left (a ++ b) c (joined_length a b (merge_key _ r f)) (merge_key _ s g));
  as_right = λ a b c r s f g.
      absurd (not_right (a ++ b) c (joined_length a b (merge_key _ r f)) (merge_key _ s g));
}

apply_bpe-Merges_example :
    (out : List Bytes) × Merges merges out (map (sym_of vocab.byte_to_sym) (codes "hi"))
    × (apply_bpe vocab (codes "hi") ≡ symbol_ids vocab.tok_to_id out)
apply_bpe-Merges_example = apply_bpe-Merges vocab (codes "hi") merges-IsOrdered
