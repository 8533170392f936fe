-- ===== src/Tokenizer/Bpe/Greedy.antt =====
-- The reference for `applyBPE`: byte pair encoding that joins one pair at a time, where the code joins
-- all occurrences of a pair in one pass.
use mathlib.Core.Path.{subst}
use flash_qwen.Prelude.{
  ℕ, zero, suc, ◌++◌, ◌≤◌, ◌<◌, List, [], ◌∷◌, none, some, length, lookup, map, Bytes, ◌≡◌, ◌≢◌,
  refl, sym, arith, Option-cases, inl, inr,
}
use flash_qwen.Tokenizer.Bpe.Joins.{
  join_first, Joined, done, more, merge_pass-Joined, HasPair-join_first,
}
use flash_qwen.Tokenizer.Bpe.Merge.{
  HasPair, IsRanked, best_pair_lowest, best_pair-IsRanked, best_pair-none, merge_pass_shorter,
}
use flash_qwen.Tokenizer.Bpe.{
  pair_key, Best, best_pair, merge_pass, merge_loop, symbol_ids, apply_bpe,
}
use flash_qwen.Tokenizer.ByteMaps.{sym_of}
use flash_qwen.Tokenizer.{Tokenizer}

-- The reference: as long as a pair of the list has a rank, one of the lowest rank is joined at its
-- leftmost place. `out` is the list at the end.
pub data Merges (ranks : List (Bytes × ℕ)) (out : List Bytes) : List Bytes → Type 0 where
  ends :
      {syms : List Bytes}
      → ((a b : Bytes) → HasPair a b syms → lookup (pair_key a b) ranks ≡ none)
      → out ≡ syms
      → Merges ranks out syms
  joins :
      {syms : List Bytes} (p : Best)
      → IsRanked ranks syms p
      → ((a b : Bytes) (r : ℕ)
          → HasPair a b syms
          → lookup (pair_key a b) ranks ≡ some r
          → p.rank ≤ r)
      → Merges ranks out (join_first p.left p.right syms)
      → Merges ranks out syms

-- The order of a trained merge list: what a merge makes is only used by later ones.
pub record IsOrdered (ranks : List (Bytes × ℕ)) : Type 0 where
  pub as_left :
      (a b c : Bytes) (r s : ℕ)
      → lookup (pair_key a b) ranks ≡ some r
      → lookup (pair_key (a ++ b) c) ranks ≡ some s
      → r < s
  pub as_right :
      (a b c : Bytes) (r s : ℕ)
      → lookup (pair_key a b) ranks ≡ some r
      → lookup (pair_key c (a ++ b)) ranks ≡ some s
      → r < s

module _ (ranks : List (Bytes × ℕ)) (ordered : IsOrdered ranks) where
  -- No pair of the list has a rank below `r`.
  abbrev IsLowest : ℕ → List Bytes → Type 0
  IsLowest r syms =
      (c d : Bytes) (s : ℕ) → HasPair c d syms → lookup (pair_key c d) ranks ≡ some s → r ≤ s

  module _ (p : Best) (ranked : lookup (pair_key p.left p.right) ranks ≡ some p.rank) where
    irreflexive : (n : ℕ) → n < n → ⊥
    irreflexive n h = omega arith

    join_ne_left : p.left ++ p.right ≢ p.left
    join_ne_left e = irreflexive p.rank (
        ordered.as_left p.left p.right p.right p.rank p.rank ranked
          (subst (λ x. lookup (pair_key x p.right) ranks ≡ some p.rank) (sym e) ranked))

    join_ne_end : p.left ++ p.right ≢ p.right
    join_ne_end e = irreflexive p.rank (
        ordered.as_right p.left p.right p.left p.rank p.rank ranked
          (subst (λ x. lookup (pair_key p.left x) ranks ≡ some p.rank) (sym e) ranked))

    IsLowest-join_first :
        (syms : List Bytes)
        → IsLowest p.rank syms
        → IsLowest p.rank (join_first p.left p.right syms)
    IsLowest-join_first syms low c d s h k = elim (HasPair-join_first p.left p.right c d syms h) [
      | inl old ↦ low c d s old k
      | inr (inl left) ↦ below (
          ordered.as_left p.left p.right d p.rank s ranked
            (subst (λ x. lookup (pair_key x d) ranks ≡ some s) left k))
      | inr (inr right) ↦ below (
          ordered.as_right p.left p.right c p.rank s ranked
            (subst (λ x. lookup (pair_key c x) ranks ≡ some s) right k))
    ]
      where
        below : p.rank < s → p.rank ≤ s
        below h = omega arith

    Joined-Merges :
        (out mid syms : List Bytes)
        → Joined p.left p.right mid syms
        → IsLowest p.rank syms
        → Merges ranks out mid
        → Merges ranks out syms
    Joined-Merges out mid syms (done e) low m = subst (Merges ranks out) e m
    Joined-Merges out mid syms (more pair later) low m =
        joins p (record { stands = pair; ranked = ranked }) low
          (Joined-Merges out mid (join_first p.left p.right syms) later
            (IsLowest-join_first syms low) m)

    merge_pass-Merges :
        (out syms : List Bytes)
        → IsLowest p.rank syms
        → Merges ranks out (merge_pass p.left p.right syms)
        → Merges ranks out syms
    merge_pass-Merges out syms low m =
        Joined-Merges out (merge_pass p.left p.right syms) syms
          (merge_pass-Joined p.left p.right join_ne_left join_ne_end syms) low m

  merge_loop-Merges :
      (f : ℕ) (syms : List Bytes) → length syms ≤ f → Merges ranks (merge_loop f ranks syms) syms
  unfolding merge_loop
  merge_loop-Merges zero [] h = ends (λ a b k. absurd k) refl
  merge_loop-Merges zero (x ∷ syms) h = absurd (omega arith)
  merge_loop-Merges (suc f) syms h = elim (Option-cases (best_pair ranks syms none)) [
    | inl none_left ↦
        rw (none_left, merge_loop) (ends (λ a b k. best_pair-none ranks syms a b none_left k) refl)
    | inr (p, e) ↦
        let found = best_pair-IsRanked ranks syms p e in
        rw (e, merge_loop)
          (merge_pass-Merges p found.ranked _ syms
            (λ c d s k l. (best_pair_lowest ranks syms p e c d s k l).1)
            (merge_loop-Merges f (merge_pass p.left p.right syms)
              (shorter (merge_pass_shorter p.left p.right syms found.stands))))
  ]
    where
      shorter : {m : ℕ} → m < length syms → m ≤ f
      shorter k = omega arith

-- If the ranks are ordered, as those of a trained merge list are, the ids of a word are those of a
-- list that the reference makes of its symbols: joining one pair at a time, each of the lowest rank
-- and at its leftmost place, until no pair has a rank.
pub apply_bpe-Merges :
    (t : Tokenizer) (word : Bytes)
    → IsOrdered t.merge_rank
    → (out : List Bytes) × Merges t.merge_rank out (map (sym_of t.byte_to_sym) word)
      × (apply_bpe t word ≡ symbol_ids t.tok_to_id out)
unfolding apply_bpe
apply_bpe-Merges t word ordered =
    let syms = map (sym_of t.byte_to_sym) word in
    (
      merge_loop (length syms) t.merge_rank syms,
      merge_loop-Merges t.merge_rank ordered (length syms) syms (omega arith),
      refl,
    )
