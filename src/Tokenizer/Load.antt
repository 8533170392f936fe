-- ===== src/Tokenizer/Load.antt =====
-- `Load`, from what is read: the added tokens, the vocabulary and the lines of merges.txt, each
-- none if its file cannot be read. `sort.Slice` is a parameter. Ids are not negative (`Load` would
-- panic), and the vocabulary comes in the order in which Go ranges over the map.
pub mod Tables
pub mod Flags
pub mod Files
use flash_qwen.Prelude.{
  ℕ, zero, suc, ◌+◌, Bool, true, false, ◌||◌, ◌==◌, List, [], ◌∷◌, ◌++◌, Option, none, some, length,
  map, take, drop, set, replicate, ltb, insert, bytes_eq, if◌then◌else◌, Bytes, codes,
}
use flash_qwen.Tokenizer.Bpe.{pair_key}
use flash_qwen.Tokenizer.ByteMaps.{byte_to_sym, cp_to_byte, sym_to_bytes}
use flash_qwen.Tokenizer.Encode.{has_prefix, index}
use flash_qwen.Tokenizer.{Special, Tokenizer}

abbrev pub max_from : ℕ → List ℕ → ℕ
max_from m [] = m
max_from m (id ∷ ids) = max_from (if ltb m id then id else m) ids

abbrev pub ids_of : List (Bytes × ℕ) → List Special → List ℕ
ids_of vocab specials = map (λ (e : Bytes × ℕ). e.1) vocab ++ map (λ (sp : Special). sp.id) specials

-- The tables before the loops.
blank : ℕ → Tokenizer
blank max_id = record {
  byte_to_sym = byte_to_sym;
  cp_to_byte = cp_to_byte;
  tok_to_id = [];
  id_to_tok = replicate (max_id + 1) [];
  special_f = replicate (max_id + 1) false;
  merge_rank = [];
  specials = [];
}

add_tokens : List (Bytes × ℕ) → Tokenizer → Tokenizer
add_tokens [] t = t
add_tokens ((sym, id) ∷ vocab) t = add_tokens vocab (record t {
  tok_to_id = insert sym id t.tok_to_id;
  id_to_tok = set t.id_to_tok id (sym_to_bytes t.cp_to_byte sym);
})

add_specials : List Special → Tokenizer → Tokenizer
add_specials [] t = t
add_specials (sp ∷ specials) t = add_specials specials (record t {
  id_to_tok = set t.id_to_tok sp.id sp.str;
  special_f = set t.special_f sp.id true;
  tok_to_id = insert sp.str sp.id t.tok_to_id;
  specials = t.specials ++ sp ∷ [];
})

-- strings.TrimRight(s, "\r")
trim_cr : Bytes → Bytes
trim_cr [] = []
trim_cr (b ∷ s) =
    let rest = trim_cr s in if length rest == 0 then (if b == 13 then [] else b ∷ []) else b ∷ rest

-- The loop over the lines of merges.txt; a line that is skipped takes no rank.
load_merges : List Bytes → ℕ → List (Bytes × ℕ) → List (Bytes × ℕ)
unfolding trim_cr
load_merges [] rank ranks = ranks
load_merges (line ∷ lines) rank ranks =
    let skipped = load_merges lines rank ranks in
    if bytes_eq line [] || has_prefix line (codes "#version")
    then skipped
    else elim (index line (codes " ")) [
      | none ↦ skipped
      | some sp ↦
          load_merges lines (rank + 1)
            (insert (pair_key (take sp line) (trim_cr (drop (sp + 1) line))) rank ranks)
    ]

module _ (sort : List Special → List Special) where
  build : List Special → List (Bytes × ℕ) → List Bytes → Tokenizer
  unfolding blank add_tokens add_specials load_merges
  build added vocab lines =
      let t = add_specials added (add_tokens vocab (blank (max_from 0 (ids_of vocab added)))) in
      record t { specials = sort t.specials; merge_rank = load_merges lines 0 [] }

  unfoldable pub load :
      Option (List Special) → Option (List (Bytes × ℕ)) → Option (List Bytes) → Option Tokenizer
  unfolding build
  load none vocab lines = none
  load (some added) none lines = none
  load (some added) (some vocab) none = none
  load (some added) (some vocab) (some lines) = some (build added vocab lines)
