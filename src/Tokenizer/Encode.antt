-- ===== src/Tokenizer/Encode.antt =====
-- `Encode`: special literals are cut out of the text, and what lies between is split and merged.
pub mod Find
pub mod Leftmost
pub mod RoundTrip
use flash_qwen.Prelude.Int.{ℤ, pos}
use flash_qwen.Prelude.{
  ℕ, zero, suc, ◌+◌, ◌-◌, Bool, true, false, ◌&&◌, ◌||◌, List, [], ◌∷◌, ◌++◌, Option, none, some,
  length, take, drop, ltb, ◌==◌, if◌then◌else◌, Bytes, flat_map,
}
use flash_qwen.Tokenizer.Bpe.{apply_bpe}
use flash_qwen.Tokenizer.Pretokenizer.{pieces}
use flash_qwen.Tokenizer.{Special, Tokenizer}

-- strings.HasPrefix
unfoldable pub has_prefix : Bytes → Bytes → Bool
has_prefix s [] = true
has_prefix [] (p ∷ ps) = false
has_prefix (c ∷ s) (p ∷ ps) = c == p && has_prefix s ps

-- strings.Index
unfoldable pub index : Bytes → Bytes → Option ℕ
unfolding has_prefix
index [] sub = if has_prefix [] sub then some 0 else none
index (c ∷ s) sub =
    let later = index s sub in
    if has_prefix (c ∷ s) sub then some 0 else elim later [ none ↦ none | some n ↦ some (suc n) ]

-- best, bestID and bestLen
pub record Hit : Type 0 where
  pub at : ℕ
  pub id : ℕ
  pub len : ℕ

-- One special in the search for the leftmost, longest one. Places count from `pos`.
unfoldable pub better : Special → Option ℕ → Option Hit → Option Hit
better sp none best = best
better sp (some f) none = some (record { at = f; id = sp.id; len = length sp.str })
better sp (some f) (some b) =
    if ltb f b.at || (f == b.at && ltb b.len (length sp.str))
    then some (record { at = f; id = sp.id; len = length sp.str })
    else some b

unfoldable pub find_special : List Special → Bytes → Option Hit → Option Hit
unfolding better
find_special [] rest best = best
find_special (sp ∷ specials) rest best =
    find_special specials rest (better sp (index rest sp.str) best)

-- `pretokenizeAndBPE`
unfoldable pub pretokenize_and_bpe : Tokenizer → Bytes → List ℤ
pretokenize_and_bpe t text = flat_map (apply_bpe t) (pieces text)

-- The loop over the text, on fuel; `rest` is text[pos:]. An empty chunk is not split.
encode_from : ℕ → Tokenizer → Bytes → List ℤ
encode_from zero t rest = []
encode_from (suc f) t [] = []
encode_from (suc f) t (c ∷ rest) = elim (find_special t.specials (c ∷ rest) none) [
  | none ↦ pretokenize_and_bpe t (c ∷ rest)
  | some hit ↦
      (if ltb 0 hit.at then pretokenize_and_bpe t (take hit.at (c ∷ rest)) else [])
      ++ (pos hit.id ∷ encode_from f t (drop (hit.at + hit.len) (c ∷ rest)))
]

unfoldable pub encode : Tokenizer → Bytes → List ℤ
unfolding encode_from
encode t text = encode_from (length text) t text
