-- ===== src/Tokenizer/Encode/RoundTrip.antt =====
-- The ids of a text decode to the text.
use mathlib.Core.Path.{subst, ap₂}
use flash_qwen.Prelude.Int.{ℤ, pos}
use flash_qwen.Prelude.{
  ℕ, zero, suc, ◌+◌, ◌≤◌, ◌<◌, List, [], ◌∷◌, ◌++◌, append_assoc, none, length, length-drop, take,
  drop, drop-drop, take-append-drop, All-take, All-drop, All-append_left, All-append_right, concat,
  flat_map, Bytes, ◌≡◌, refl, sym, ap, ◌∙◌, arith, Bool-cases, Option-cases, inl, inr, ltb,
  if◌then◌else◌,
}
use flash_qwen.Tokenizer.Bpe.Keeps.{AreBytes, CoversBytes, decode-apply_bpe}
use flash_qwen.Tokenizer.Bpe.{apply_bpe}
use flash_qwen.Tokenizer.Encode.Find.{has_prefix-append}
use flash_qwen.Tokenizer.Encode.Leftmost.{Among, IsHit, find_special-IsHit}
use flash_qwen.Tokenizer.Encode.{Hit, find_special, pretokenize_and_bpe, encode_from, encode}
use flash_qwen.Tokenizer.Pretokenizer.Split.{concat-pieces}
use flash_qwen.Tokenizer.Pretokenizer.{pieces}
use flash_qwen.Tokenizer.{Special, Tokenizer, token_bytes, decode}

-- A loaded vocabulary: byte-level BPE covers every byte, and each special literal is not empty and is
-- what its id decodes to.
pub record IsComplete (t : Tokenizer) : Type 0 where
  pub covers : CoversBytes t
  pub special_ne_nil : (sp : Special) → Among sp t.specials → 0 < length sp.str
  pub special_bytes : (sp : Special) → Among sp t.specials → token_bytes t (pos sp.id) ≡ sp.str

pub decode-append :
    (t : Tokenizer) (xs ys : List ℤ) → decode t (xs ++ ys) ≡ decode t xs ++ decode t ys
unfolding decode
decode-append t [] ys = refl
decode-append t (x ∷ xs) ys = simp (decode-append t xs, append_assoc)

decode-cons :
    (t : Tokenizer) (x : ℤ) (xs : List ℤ) → decode t (x ∷ xs) ≡ token_bytes t x ++ decode t xs
unfolding decode
decode-cons t x xs = refl

module _ (t : Tokenizer) (c : CoversBytes t) where
  decode-words :
      (words : List Bytes)
      → AreBytes (concat words)
      → decode t (flat_map (apply_bpe t) words) ≡ concat words
  unfolding flat_map
  decode-words [] h = unfold decode in refl
  decode-words (w ∷ words) h =
      decode-append t (apply_bpe t w) (flat_map (apply_bpe t) words)
      ∙ ap₂ (λ u v. u ++ v)
          (decode-apply_bpe t w c (All-append_left (λ b. b < 256) w (concat words) h))
          (decode-words words (All-append_right (λ b. b < 256) w (concat words) h))

  decode-pretokenize : (text : Bytes) → AreBytes text → decode t (pretokenize_and_bpe t text) ≡ text
  unfolding pretokenize_and_bpe
  decode-pretokenize text h =
      decode-words (pieces text) (subst AreBytes (sym (concat-pieces text)) h) ∙ concat-pieces text

  -- The chunk in front of a special is split only if it is not empty.
  decode_chunk :
      (rest : Bytes) (n : ℕ)
      → AreBytes rest
      → decode t (if ltb 0 n then pretokenize_and_bpe t (take n rest) else []) ≡ take n rest
  decode_chunk rest n h = elim (Bool-cases (ltb 0 n)) [
    | inl some_bytes ↦
        rw some_bytes (decode-pretokenize (take n rest) (All-take (λ b. b < 256) n rest h))
    | inr empty ↦ rw empty (unfold decode in ap (λ k. take k rest) {x = 0} {y = n} (ground arith))
  ]

-- A hit cuts the text in three.
hit_parts :
    (rest : Bytes) (sp : Special) (hit : Hit)
    → IsHit rest sp hit
    → take hit.at rest ++ (sp.str ++ drop (hit.at + hit.len) rest) ≡ rest
hit_parts rest sp hit i =
    ap (λ x. take hit.at rest ++ (sp.str ++ x))
      (ap (λ n. drop (hit.at + n) rest) i.len ∙ sym (drop-drop (length sp.str) hit.at rest))
    ∙ ap (λ x. take hit.at rest ++ x) (has_prefix-append (drop hit.at rest) sp.str i.occurs.0)
    ∙ take-append-drop hit.at rest

module _ (t : Tokenizer) (w : IsComplete t) where
  decode-encode_from :
      (f : ℕ) (rest : Bytes)
      → length rest ≤ f
      → AreBytes rest
      → decode t (encode_from f t rest) ≡ rest
  unfolding encode_from
  decode-encode_from zero [] h b = unfold decode in refl
  decode-encode_from zero (c ∷ rest) h b = absurd (omega arith)
  decode-encode_from (suc f) [] h b = unfold decode in refl
  decode-encode_from (suc f) (c ∷ rest) h b =
      elim (Option-cases (find_special t.specials (c ∷ rest) none)) [
        | inl absent ↦ rw (absent, encode_from) (decode-pretokenize t w.covers (c ∷ rest) b)
        | inr (hit, e) ↦
            rw (e, encode_from)
              (let (sp, a, i) = find_special-IsHit t.specials (c ∷ rest) hit e in
                let later : Bytes = drop (hit.at + hit.len) (c ∷ rest) in
                decode-append t _ (pos hit.id ∷ encode_from f t later)
                ∙ ap₂ (λ u v. u ++ v) (decode_chunk t w.covers (c ∷ rest) hit.at b)
                    (decode-cons t (pos hit.id) (encode_from f t later)
                      ∙ ap₂ (λ u v. u ++ v)
                          (ap (λ n. token_bytes t (pos n)) i.id ∙ w.special_bytes sp a)
                          (decode-encode_from f later
                            (omega (
                              arith,
                              length-drop (hit.at + hit.len) (c ∷ rest),
                              i.len,
                              w.special_ne_nil sp a,
                            ))
                            (All-drop (λ x. x < 256) (hit.at + hit.len) (c ∷ rest) b)))
                ∙ hit_parts (c ∷ rest) sp hit i)
      ]

-- Encoding loses nothing: with a complete vocabulary, the ids of any byte string decode to it, special
-- literals, contractions, white space and bytes that are not UTF-8 included.
pub decode-encode :
    (t : Tokenizer) (text : Bytes) → IsComplete t → AreBytes text → decode t (encode t text) ≡ text
unfolding encode
decode-encode t text w h = decode-encode_from t w (length text) text (omega arith) h
