-- ===== src/Tokenizer/Bpe/Joins.antt =====
-- Joining one pair at a time, and the pass of `applyBPE` as such joins.
use mathlib.Core.Path.{subst}
use flash_qwen.Prelude.{
  ◌++◌, true, false, ◌&&◌, List, [], ◌∷◌, bytes_eq, bytes_eq_iff, if◌then◌else◌, Bytes, ◌≡◌, ◌≢◌,
  refl, sym, ap, ◌∙◌, arith, Bool-cases, ◌⊎◌, inl, inr,
}
use flash_qwen.Tokenizer.Bpe.Merge.{HasPair}
use flash_qwen.Tokenizer.Bpe.{merge_pass}

-- The leftmost `a` with a `b` behind it is joined with it, and nothing else.
abbrev pub join_first : Bytes → Bytes → List Bytes → List Bytes
join_first a b [] = []
join_first a b (x ∷ []) = x ∷ []
join_first a b (x ∷ y ∷ syms) =
    let later = x ∷ join_first a b (y ∷ syms) in
    if bytes_eq x a && bytes_eq y b then (a ++ b) ∷ syms else later

module _ (a b : Bytes) where
  -- Any number of single joins.
  pub data Joined (out : List Bytes) : List Bytes → Type 0 where
    done : {syms : List Bytes} → out ≡ syms → Joined out syms
    more :
        {syms : List Bytes} → HasPair a b syms → Joined out (join_first a b syms) → Joined out syms

  -- `x` and the head are not the pair.
  abbrev IsApart : Bytes → List Bytes → Type 0
  IsApart x [] = Unit
  IsApart x (y ∷ syms) = (bytes_eq x a && bytes_eq y b) ≡ false

  pair_of : (x y : Bytes) → (bytes_eq x a && bytes_eq y b) ≡ true → (x ≡ a) × (y ≡ b)
  pair_of x y e = ((bytes_eq_iff x a).0 (ground arith), (bytes_eq_iff y b).0 (ground arith))

  join_first_there :
      (x : Bytes) (syms : List Bytes)
      → IsApart x syms
      → join_first a b (x ∷ syms) ≡ x ∷ join_first a b syms
  join_first_there x [] h = refl
  join_first_there x (y ∷ syms) h = rw h refl

  HasPair-there : (x : Bytes) (syms : List Bytes) → HasPair a b syms → HasPair a b (x ∷ syms)
  HasPair-there x [] h = absurd h
  HasPair-there x (y ∷ syms) h = inr h

  module _ (not_left : (a ++ b) ≢ a) (not_right : (a ++ b) ≢ b) where
    join_ne_right : (x : Bytes) → (bytes_eq x a && bytes_eq (a ++ b) b) ≡ false
    join_ne_right x = elim (Bool-cases (bytes_eq (a ++ b) b)) [
      | inl same ↦ absurd (not_right ((bytes_eq_iff (a ++ b) b).0 same))
      | inr other ↦ rw other (ground arith)
    ]

    join-IsApart : (syms : List Bytes) → IsApart (a ++ b) syms
    join-IsApart [] = tt
    join-IsApart (y ∷ syms) = elim (Bool-cases (bytes_eq (a ++ b) a)) [
      | inl same ↦ absurd (not_left ((bytes_eq_iff (a ++ b) a).0 same))
      | inr other ↦ rw other (refl)
    ]

    IsApart-joined :
        (x : Bytes) (syms : List Bytes) → IsApart x syms → IsApart x (join_first a b syms)
    IsApart-joined x [] h = h
    IsApart-joined x (y ∷ []) h = h
    IsApart-joined x (y ∷ z ∷ syms) h = elim (Bool-cases (bytes_eq y a && bytes_eq z b)) [
      | inl pair ↦ rw pair (join_ne_right x)
      | inr other ↦ rw other h
    ]

    there :
        (x : Bytes) (out syms : List Bytes)
        → IsApart x syms
        → Joined out syms
        → Joined (x ∷ out) (x ∷ syms)
    there x out syms h (done e) = done (ap (λ l. x ∷ l) e)
    there x out syms h (more pair later) = more (HasPair-there x syms pair) (
        subst (Joined (x ∷ out)) (sym (join_first_there x syms h))
          (there x out (join_first a b syms) (IsApart-joined x syms h) later))

    pub merge_pass-Joined : (syms : List Bytes) → Joined (merge_pass a b syms) syms
    unfolding merge_pass
    merge_pass-Joined [] = done refl
    merge_pass-Joined (x ∷ []) = done refl
    merge_pass-Joined (x ∷ y ∷ syms) = elim (Bool-cases (bytes_eq x a && bytes_eq y b)) [
      | inl pair ↦
          more (inl (pair_of x y pair))
            (rw pair (there (a ++ b) _ syms (join-IsApart syms) (merge_pass-Joined syms)))
      | inr other ↦ rw other (there x _ (y ∷ syms) other (merge_pass-Joined (y ∷ syms)))
    ]

  head-join_first :
      (y : Bytes) (syms : List Bytes)
      → (u : Bytes) × (t : List Bytes) × (join_first a b (y ∷ syms) ≡ u ∷ t)
        × ((u ≡ y) ⊎ (u ≡ a ++ b))
  head-join_first y [] = (y, [], refl, inl refl)
  head-join_first y (z ∷ syms) = elim (Bool-cases (bytes_eq y a && bytes_eq z b)) [
    | inl pair ↦ (a ++ b, syms, rw pair refl, inr refl)
    | inr other ↦ (y, join_first a b (z ∷ syms), rw other refl, inl refl)
  ]

  -- The pair (c, d) was there before, or holds what the join made.
  abbrev pub IsOldOr : Bytes → Bytes → List Bytes → Type 0
  IsOldOr c d syms = HasPair c d syms ⊎ ((c ≡ a ++ b) ⊎ (d ≡ a ++ b))

  IsOldOr-there : (c d x : Bytes) (syms : List Bytes) → IsOldOr c d syms → IsOldOr c d (x ∷ syms)
  IsOldOr-there c d x [] (inl h) = absurd h
  IsOldOr-there c d x (y ∷ syms) (inl h) = inl (inr h)
  IsOldOr-there c d x syms (inr h) = inr h

  IsOldOr-join :
      (c d : Bytes) (syms : List Bytes) → HasPair c d ((a ++ b) ∷ syms) → IsOldOr c d syms
  IsOldOr-join c d [] h = absurd h
  IsOldOr-join c d (y ∷ syms) (inl (left, right)) = inr (inl (sym left))
  IsOldOr-join c d (y ∷ syms) (inr h) = inl h

  pub HasPair-join_first :
      (c d : Bytes) (syms : List Bytes) → HasPair c d (join_first a b syms) → IsOldOr c d syms
  HasPair-join_first c d [] h = absurd h
  HasPair-join_first c d (x ∷ []) h = absurd h
  HasPair-join_first c d (x ∷ y ∷ syms) h = elim (Bool-cases (bytes_eq x a && bytes_eq y b)) [
    | inl pair ↦
        IsOldOr-there c d x (y ∷ syms)
          (IsOldOr-there c d y syms (IsOldOr-join c d syms (rw pair at h)))
    | inr other ↦
        by_head (head-join_first y syms) (HasPair-join_first c d (y ∷ syms)) (rw other at h)
  ]
    where
      by_head :
          ((u : Bytes) × (t : List Bytes) × (join_first a b (y ∷ syms) ≡ u ∷ t)
            × ((u ≡ y) ⊎ (u ≡ a ++ b)))
          → (HasPair c d (join_first a b (y ∷ syms)) → IsOldOr c d (y ∷ syms))
          → HasPair c d (x ∷ join_first a b (y ∷ syms))
          → IsOldOr c d (x ∷ y ∷ syms)
      by_head (u, t, e, w) below k = elim (subst (λ l. HasPair c d (x ∷ l)) e k) [
        | inr later ↦ IsOldOr-there c d x (y ∷ syms) (below (subst (HasPair c d) (sym e) later))
        | inl (left, right) ↦ elim w [
          | inl old ↦ inl (inl (left, sym old ∙ right))
          | inr new ↦ inr (inr (sym right ∙ new))
        ]
      ]
