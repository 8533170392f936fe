-- ===== src/Tokenizer/Bpe.antt =====
-- `applyBPE`: a word as symbols, merged pair by pair in the order of rank.
pub mod Merge
pub mod Keeps
pub mod Joins
pub mod Greedy
use flash_qwen.Prelude.Int.{ℤ, pos}
use flash_qwen.Prelude.{
  ℕ, zero, suc, ◌+◌, ◌-◌, Bool, true, false, ◌&&◌, List, [], ◌∷◌, ◌++◌, Option, none, some, map,
  length, lookup, ltb, bytes_eq, if◌then◌else◌, Bytes, codes, ◌≡◌, refl,
}
use flash_qwen.Tokenizer.ByteMaps.{sym_of}
use flash_qwen.Tokenizer.{Tokenizer}

-- a+"\x01"+b
abbrev pub pair_key : Bytes → Bytes → Bytes
pair_key a b = a ++ (0x01 ∷ b)

-- The scan for the pair of lowest rank, from the symbol `a` at place `i` on; the leftmost such pair
-- wins. `best` is its rank and the two symbols, and nothing is found yet if it is `none`.
pub record Best : Type 0 where
  pub rank : ℕ
  pub left : Bytes
  pub right : Bytes

-- r < bestRank; a rank is below the greatest `int`, with which the scan begins
improves : ℕ → Option Best → Bool
improves r none = true
improves r (some b) = ltb r b.rank

consider : Option ℕ → Bytes → Bytes → Option Best → Option Best
consider none a b best = best
consider (some r) a b best =
    if improves r best then some (record { rank = r; left = a; right = b }) else best

unfoldable pub best_pair : List (Bytes × ℕ) → List Bytes → Option Best → Option Best
unfolding consider improves
best_pair ranks [] best = best
best_pair ranks (a ∷ []) best = best
best_pair ranks (a ∷ b ∷ syms) best =
    best_pair ranks (b ∷ syms) (consider (lookup (pair_key a b) ranks) a b best)

-- One pass that joins every `a` with a `b` behind it, from the left.
pub merge_pass : Bytes → Bytes → List Bytes → List Bytes
merge_pass a b [] = []
merge_pass a b (x ∷ []) = x ∷ []
merge_pass a b (x ∷ y ∷ syms) =
    let joined = (a ++ b) ∷ merge_pass a b syms in
    let kept = x ∷ merge_pass a b (y ∷ syms) in
    if bytes_eq x a && bytes_eq y b then joined else kept

-- for len(syms) >= 2 { … }, on fuel
pub merge_loop : ℕ → List (Bytes × ℕ) → List Bytes → List Bytes
merge_loop zero ranks syms = syms
merge_loop (suc f) ranks syms = elim (best_pair ranks syms none) [
  | none ↦ syms
  | some b ↦ merge_loop f ranks (merge_pass b.left b.right syms)
]

-- Symbols that the vocabulary lacks are left out.
pub symbol_ids : List (Bytes × ℕ) → List Bytes → List ℤ
symbol_ids vocab [] = []
symbol_ids vocab (s ∷ syms) = elim (lookup s vocab) [
  | none ↦ symbol_ids vocab syms
  | some id ↦ pos id ∷ symbol_ids vocab syms
]

unfoldable pub apply_bpe : Tokenizer → Bytes → List ℤ
unfolding best_pair merge_pass merge_loop symbol_ids
apply_bpe t word =
    let syms = map (sym_of t.byte_to_sym) word in
    symbol_ids t.tok_to_id (merge_loop (length syms) t.merge_rank syms)
