-- ===== src/Examples/Vocab.antt =====
-- A small vocabulary: a token for each byte, one merge, and four special literals.
use mathlib.Core.Path.{subst}
use flash_qwen.Chatml.{Format}
use flash_qwen.Prelude.Int.{pos}
use flash_qwen.Prelude.{
  ℕ, zero, suc, ◌+◌, ◌<◌, Bool, true, false, ◌&&◌, List, [], ◌∷◌, ◌++◌, Option, none, some, length,
  lookup, Bytes, bytes_eq, bytes_eq_iff, ltb, codes, ◌≡◌, refl, sym, ap, ◌∙◌, arith, inl, inr,
  All-append_left, All-append_right,
}
use flash_qwen.Tokenizer.Bpe.Keeps.{AreBytes, Knows, CoversBytes}
use flash_qwen.Tokenizer.Bpe.{pair_key}
use flash_qwen.Tokenizer.ByteMaps.{
  byte_to_sym, cp_to_byte, spell, sym_to_bytes, sym_to_bytes-append, sym_to_bytes-join,
  sym_to_bytes-spell, every, test-every,
}
use flash_qwen.Tokenizer.Encode.Leftmost.{Among}
use flash_qwen.Tokenizer.Encode.RoundTrip.{IsComplete}
use flash_qwen.Tokenizer.{Special, Tokenizer, token_bytes}

abbrev number : ℕ → List Bytes → List (Bytes × ℕ)
number n [] = []
number n (s ∷ syms) = (s, n) ∷ number (n + 1) syms

abbrev bytes_from : ℕ → ℕ → List Bytes
bytes_from zero b = []
bytes_from (suc n) b = (b ∷ []) ∷ bytes_from n (b + 1)

abbrev pub literals : List Special
literals =
    record { str = codes "<tool>"; id = 257 }
    ∷ record { str = codes "</tool>"; id = 258 }
    ∷ record { str = codes "<end>"; id = 259 }
    ∷ []

abbrev pub merges : List (Bytes × ℕ)
merges = (pair_key (codes "h") (codes "i"), 0) ∷ []

abbrev false_for : ℕ → List Bool
false_for zero = []
false_for (suc n) = false ∷ false_for n

abbrev pub vocab : Tokenizer
vocab = record {
  byte_to_sym = byte_to_sym;
  cp_to_byte = cp_to_byte;
  tok_to_id = number 0 byte_to_sym ++ (codes "hi", 256) ∷ [];
  id_to_tok =
      bytes_from 256 0 ++ codes "hi" ∷ codes "<tool>" ∷ codes "</tool>" ∷ codes "<end>" ∷ [];
  special_f = false_for 257 ++ true ∷ true ∷ true ∷ [];
  merge_rank = merges;
  specials = literals;
}

abbrev pub format : Format
format = record { tok = vocab; eos_ids = pos 259 ∷ []; tool_open = pos 257; tool_close = pos 258 }

is_known : Option ℕ → Bytes → Bool
is_known none bs = false
is_known (some id) bs = bytes_eq (token_bytes vocab (pos id)) bs

is_known_sound :
    (bs : Bytes) (o : Option ℕ)
    → lookup (spell bs) vocab.tok_to_id ≡ o
    → is_known o bs ≡ true
    → Knows vocab bs
unfolding is_known
is_known_sound bs none e h = cc
is_known_sound bs (some id) e h = (id, e, (bytes_eq_iff (token_bytes vocab (pos id)) bs).0 h)

knows_byte : ℕ → Bool
unfolding is_known
knows_byte b = is_known (lookup (spell (b ∷ [])) vocab.tok_to_id) (b ∷ [])

known_table : every knows_byte 256 0 ≡ true
unfolding every knows_byte byte_to_sym cp_to_byte token_bytes
known_table = refl

Knows-hi : Knows vocab (codes "hi")
unfolding byte_to_sym token_bytes
Knows-hi = (256, refl, refl)

-- The only merge is that of "h" and "i".
merge_inv :
    (key : Bytes) (r : ℕ) → lookup key merges ≡ some r → key ≡ pair_key (codes "h") (codes "i")
merge_inv key r e = ground (arith, bytes_eq_iff (pair_key (codes "h") (codes "i")) key)

read_key : codes "hi" ≡ sym_to_bytes cp_to_byte (pair_key (codes "h") (codes "i"))
unfolding sym_to_bytes cp_to_byte flash_qwen.Utf8.decode_rune
read_key = refl

merged :
    (xs ys : Bytes)
    → AreBytes (xs ++ ys)
    → pair_key (spell xs) (spell ys) ≡ pair_key (codes "h") (codes "i")
    → codes "hi" ≡ xs ++ ys
merged xs ys h e =
    read_key
    ∙ ap (sym_to_bytes cp_to_byte) (sym e)
    ∙ sym_to_bytes-append xs (1 ∷ spell ys) (All-append_left (λ b. b < 256) xs ys h)
    ∙ ap (λ x. xs ++ x)
        (sym_to_bytes-join (spell ys)
          ∙ sym_to_bytes-spell ys (All-append_right (λ b. b < 256) xs ys h))

pub vocab-CoversBytes : CoversBytes vocab
vocab-CoversBytes = record {
  table = refl;
  byte = λ b h.
      is_known_sound (b ∷ []) _ refl
        (unfold knows_byte in test-every knows_byte 256 0 b (omega arith) h known_table);
  merge = λ xs ys r h e. subst (Knows vocab) (merged xs ys h (merge_inv _ r e)) Knows-hi;
}

literal_ne_nil : (sp : Special) → Among sp literals → 0 < length sp.str
literal_ne_nil sp (inl e) = rw e (omega arith)
literal_ne_nil sp (inr (inl e)) = rw e (omega arith)
literal_ne_nil sp (inr (inr (inl e))) = rw e (omega arith)
literal_ne_nil sp (inr (inr (inr f))) = absurd f

literal_bytes : (sp : Special) → Among sp literals → token_bytes vocab (pos sp.id) ≡ sp.str
unfolding token_bytes
literal_bytes sp (inl e) = rw e refl
literal_bytes sp (inr (inl e)) = rw e refl
literal_bytes sp (inr (inr (inl e))) = rw e refl
literal_bytes sp (inr (inr (inr f))) = absurd f

pub vocab-IsComplete : IsComplete vocab
vocab-IsComplete = record {
  covers = vocab-CoversBytes;
  special_ne_nil = literal_ne_nil;
  special_bytes = literal_bytes;
}

-- A test that the entries are bytes.
abbrev pub are_bytes : Bytes → Bool
are_bytes [] = true
are_bytes (b ∷ s) = ltb b 256 && are_bytes s

pub are_bytes_sound : (s : Bytes) → are_bytes s ≡ true → AreBytes s
are_bytes_sound [] h = tt
are_bytes_sound (b ∷ s) h = (ground arith, are_bytes_sound s (ground arith))
