-- ===== src/Tokenizer/Bpe/Keeps.antt =====
-- Merging keeps the bytes of the word, so the ids of a word decode to it.
use mathlib.Core.Path.{ap₂}
use flash_qwen.Prelude.Int.{pos}
use flash_qwen.Prelude.{
  ℕ, zero, suc, ◌<◌, ◌&&◌, List, [], ◌∷◌, ◌++◌, append_assoc, append-nil, none, some, map, All,
  All-append, lookup, bytes_eq, bytes_eq_iff, Bytes, ◌≡◌, refl, sym, ap, ◌∙◌, arith, Bool-cases,
  Option-cases, inl, inr,
}
use flash_qwen.Tokenizer.{Tokenizer, token_bytes, decode}
use flash_qwen.Tokenizer.ByteMaps.{byte_to_sym, sym_of, spell, spell-append}
use flash_qwen.Tokenizer.Bpe.{pair_key, best_pair, merge_pass, merge_loop, symbol_ids, apply_bpe}
use flash_qwen.Tokenizer.Bpe.Merge.{best_pair-IsRanked}

abbrev pub AreBytes : Bytes → Type 0
AreBytes = All (λ b. b < 256)

-- The vocabulary has a token for these bytes, whose id decodes to them.
abbrev pub Knows : Tokenizer → Bytes → Type 0
Knows t bs = (id : ℕ) × (lookup (spell bs) t.tok_to_id ≡ some id) × (token_bytes t (pos id) ≡ bs)

-- What byte-level BPE asks of a vocabulary: a token for each byte, and for the result of each merge.
pub record CoversBytes (t : Tokenizer) : Type 0 where
  pub table : t.byte_to_sym ≡ byte_to_sym
  pub byte : (b : ℕ) → b < 256 → Knows t (b ∷ [])
  pub merge :
      (xs ys : Bytes) (r : ℕ)
      → AreBytes (xs ++ ys)
      → lookup (pair_key (spell xs) (spell ys)) t.merge_rank ≡ some r
      → Knows t (xs ++ ys)

-- The symbols spell known tokens whose bytes, joined, are `whole`.
data Spells (t : Tokenizer) : List Bytes → Bytes → Type 0 where
  nil : Spells t [] []
  cons :
      {sym whole : Bytes} {syms : List Bytes} (bs rest : Bytes)
      → AreBytes bs
      → Knows t bs
      → sym ≡ spell bs
      → whole ≡ bs ++ rest
      → Spells t syms rest
      → Spells t (sym ∷ syms) whole

module _ {t : Tokenizer} (c : CoversBytes t) (a b : Bytes) (r : ℕ)
    (ranked : lookup (pair_key a b) t.merge_rank ≡ some r) where
  Spells-join :
      {x y whole rest : Bytes} {syms : List Bytes} (bx by : Bytes)
      → x ≡ a
      → y ≡ b
      → AreBytes bx
      → AreBytes by
      → x ≡ spell bx
      → y ≡ spell by
      → whole ≡ bx ++ (by ++ rest)
      → Spells t syms rest
      → Spells t ((a ++ b) ∷ syms) whole
  Spells-join {rest = rest} bx by ea eb hx hy ex ey e s =
      cons (bx ++ by) rest (All-append (λ z. z < 256) bx by hx hy)
        (c.merge bx by r (All-append (λ z. z < 256) bx by hx hy)
          (ap₂ (λ u v. lookup (pair_key u v) t.merge_rank) (sym ex ∙ ea) (sym ey ∙ eb) ∙ ranked))
        (ap₂ (λ u v. u ++ v) (sym ea ∙ ex) (sym eb ∙ ey) ∙ sym (spell-append bx by))
        (e ∙ sym (append_assoc bx by rest)) s

  Spells-merge_pass :
      {syms : List Bytes} {whole : Bytes}
      → Spells t syms whole
      → Spells t (merge_pass a b syms) whole
  unfolding merge_pass
  Spells-merge_pass nil = nil
  Spells-merge_pass (cons bs rest h k e w nil) = cons bs rest h k e w nil
  Spells-merge_pass
        (cons {sym = x} bs rest h k e w (cons {sym = y} {syms = syms} bs' rest' h' k' e' w' s)) =
      elim (Bool-cases (bytes_eq x a && bytes_eq y b)) [
        | inl both ↦ rw both (
            Spells-join bs bs' ((bytes_eq_iff x a).0 (ground arith))
              ((bytes_eq_iff y b).0 (ground arith)) h h' e e' (rw w' at w) (Spells-merge_pass s))
        | inr differ ↦
            rw differ (cons bs rest h k e w (Spells-merge_pass (cons bs' rest' h' k' e' w' s)))
      ]

module _ {t : Tokenizer} (c : CoversBytes t) where
  Spells-merge_loop :
      (f : ℕ) (syms : List Bytes) {whole : Bytes}
      → Spells t syms whole
      → Spells t (merge_loop f t.merge_rank syms) whole
  unfolding merge_loop
  Spells-merge_loop zero syms s = s
  Spells-merge_loop (suc f) syms s = elim (Option-cases (best_pair t.merge_rank syms none)) [
    | inl stop ↦ rw (stop, merge_loop) s
    | inr (p, e) ↦
        rw (e, merge_loop)
          (Spells-merge_loop f (merge_pass p.left p.right syms) (
            Spells-merge_pass c p.left p.right p.rank
              (best_pair-IsRanked t.merge_rank syms p e).ranked s))
  ]

  Spells-map : (word : Bytes) → AreBytes word → Spells t (map (sym_of t.byte_to_sym) word) word
  Spells-map [] h = nil
  Spells-map (b ∷ word) h =
      cons (b ∷ []) word (h.0, tt) (c.byte b h.0)
        (ap (λ table. sym_of table b) c.table ∙ sym (append-nil (sym_of byte_to_sym b))) refl
        (Spells-map word h.1)

decode-symbol_ids :
    {t : Tokenizer} {syms : List Bytes} {whole : Bytes}
    → Spells t syms whole
    → decode t (symbol_ids t.tok_to_id syms) ≡ whole
unfolding decode symbol_ids
decode-symbol_ids nil = refl
decode-symbol_ids {t = t} (cons {sym = x} {syms = syms} bs rest h (id, found, bytes) e w s) =
    rw (ap (λ u. lookup u t.tok_to_id) e ∙ found, symbol_ids)
      (ap₂ (λ u v. u ++ v) bytes (decode-symbol_ids s) ∙ sym w)

-- The ids that BPE gives for a word decode to the word.
pub decode-apply_bpe :
    (t : Tokenizer) (word : Bytes)
    → CoversBytes t
    → AreBytes word
    → decode t (apply_bpe t word) ≡ word
unfolding apply_bpe
decode-apply_bpe t word c h = decode-symbol_ids (Spells-merge_loop c _ _ (Spells-map c word h))
