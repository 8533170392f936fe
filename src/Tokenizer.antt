-- ===== src/Tokenizer.antt =====
-- internal/tokenizer/tokenizer.go: the record and its lookups. An id in a table is a number, since
-- `Load` indexes a slice with it; an id that a caller hands in is any integer.
pub mod ByteMaps
pub mod Chars
pub mod Pretokenizer
pub mod Bpe
pub mod Encode
pub mod Load
use flash_qwen.Prelude.Int.{ℤ, pos, negsuc}
use flash_qwen.Prelude.{
  ℕ, Bool, true, false, ◌&&◌, List, [], ◌∷◌, ◌++◌, Option, length, get_or, lookup, ltb, Bytes,
  if◌then◌else◌,
}

pub record Special : Type 0 where
  pub str : Bytes
  pub id : ℕ

pub record Tokenizer : Type 0 where
  pub byte_to_sym : List Bytes
  pub cp_to_byte : List (ℕ × ℕ)
  pub tok_to_id : List (Bytes × ℕ)
  pub id_to_tok : List Bytes
  pub special_f : List Bool
  pub merge_rank : List (Bytes × ℕ)
  pub specials : List Special

-- what `Decode` writes for one id
unfoldable pub token_bytes : Tokenizer → ℤ → Bytes
token_bytes t (pos n) = if ltb n (length t.id_to_tok) then get_or t.id_to_tok n [] else []
token_bytes t (negsuc n) = []

unfoldable pub decode : Tokenizer → List ℤ → Bytes
decode t [] = []
decode t (id ∷ ids) = token_bytes t id ++ decode t ids

unfoldable pub id : Tokenizer → Bytes → Option ℕ
id t token = lookup token t.tok_to_id

unfoldable pub is_special : Tokenizer → ℤ → Bool
is_special t (pos n) = ltb n (length t.special_f) && get_or t.special_f n false
is_special t (negsuc n) = false

unfoldable pub vocab_size : Tokenizer → ℕ
vocab_size t = length t.id_to_tok
