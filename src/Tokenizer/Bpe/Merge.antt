-- ===== src/Tokenizer/Bpe/Merge.antt =====
-- The merging loop: which pair it takes, and that it stops.
use mathlib.Core.Path.{subst, ap₂}
use flash_qwen.Prelude.{
  ℕ, zero, suc, ◌≤◌, ◌<◌, List, [], ◌∷◌, Option, none, some, length, lookup, bytes_eq_iff, Bytes,
  ◌≡◌, refl, sym, ◌∙◌, arith, Bool-cases, Option-cases, ◌⊎◌, inl, inr,
}
use flash_qwen.Tokenizer.Bpe.{pair_key, Best, improves, consider, best_pair, merge_pass, merge_loop}

-- `a` stands right before `b` somewhere in the list.
abbrev pub HasPair : Bytes → Bytes → List Bytes → Type 0
HasPair a b [] = ⊥
HasPair a b (x ∷ []) = ⊥
HasPair a b (x ∷ y ∷ syms) = ((x ≡ a) × (y ≡ b)) ⊎ HasPair a b (y ∷ syms)

-- A pair to merge: it stands in the list and has this rank.
pub record IsRanked (ranks : List (Bytes × ℕ)) (syms : List Bytes) (p : Best) : Type 0 where
  pub stands : HasPair p.left p.right syms
  pub ranked : lookup (pair_key p.left p.right) ranks ≡ some p.rank

-- A pair was found, of rank `r` at most.
abbrev pub AtMost : Option Best → ℕ → Type 0
AtMost none r = ⊥
AtMost (some p) r = p.rank ≤ r

AtMost-le : (out : Option Best) (q r : ℕ) → q ≤ r → AtMost out q → AtMost out r
AtMost-le none q r h f = f
AtMost-le (some p) q r h f = omega arith

AtMost-trans :
    (next out : Option Best) (r : ℕ)
    → ((b : Best) → next ≡ some b → AtMost out b.rank)
    → AtMost next r
    → AtMost out r
AtMost-trans none out r h f = absurd f
AtMost-trans (some b) out r h f = AtMost-le out b.rank r f (h b refl)

-- What the scan of `syms` makes of what it held before.
record ScanInv (ranks : List (Bytes × ℕ)) (syms : List Bytes) (best out : Option Best)
    : Type 0 where
  origin : (out ≡ best) ⊎ ((p : Best) × (out ≡ some p) × IsRanked ranks syms p)
  bound : (b : Best) → best ≡ some b → AtMost out b.rank
  covers :
      (a b : Bytes) (r : ℕ) → HasPair a b syms → lookup (pair_key a b) ranks ≡ some r → AtMost out r

consider_bound :
    (o : Option ℕ) (x y : Bytes) (best : Option Best) (b : Best)
    → best ≡ some b
    → AtMost (consider o x y best) b.rank
unfolding consider improves
consider_bound none x y none b e = cc
consider_bound none x y (some c) b e = ground arith
consider_bound (some r) x y none b e = cc
consider_bound (some r) x y (some c) b e = ground arith

consider_takes : (x y : Bytes) (best : Option Best) (r : ℕ) → AtMost (consider (some r) x y best) r
unfolding consider improves
consider_takes x y none r = omega arith
consider_takes x y (some c) r = ground arith

consider_origin :
    (o : Option ℕ) (x y : Bytes) (best : Option Best)
    → (consider o x y best ≡ best)
      ⊎ ((r : ℕ) × (o ≡ some r)
          × (consider o x y best ≡ some (record { rank = r; left = x; right = y })))
unfolding consider
consider_origin none x y best = inl refl
consider_origin (some r) x y best = elim (Bool-cases (improves r best)) [
  | inl better ↦ inr (r, refl, rw better)
  | inr worse ↦ inl (rw worse)
]

-- The scan over a list, from what it makes of the tail.
module _ (ranks : List (Bytes × ℕ)) (x y : Bytes) (syms : List Bytes) (best out : Option Best) where
  abbrev taken : Option Best
  taken = consider (lookup (pair_key x y) ranks) x y best

  origin_step :
      ScanInv ranks (y ∷ syms) taken out
      → (out ≡ best) ⊎ ((p : Best) × (out ≡ some p) × IsRanked ranks (x ∷ y ∷ syms) p)
  origin_step later = elim later.origin [
    | inr (p, e, q) ↦ inr (p, e, record { stands = inr q.stands; ranked = q.ranked })
    | inl same ↦ elim (consider_origin (lookup (pair_key x y) ranks) x y best) [
      | inl old ↦ inl (same ∙ old)
      | inr (r, e, new) ↦ inr (
        record { rank = r; left = x; right = y },
        same ∙ new,
        record { stands = inl (refl, refl); ranked = e },
      )
    ]
  ]

  covers_step :
      ScanInv ranks (y ∷ syms) taken out
      → (a b : Bytes) (r : ℕ) → HasPair a b (x ∷ y ∷ syms)
      → lookup (pair_key a b) ranks ≡ some r
      → AtMost out r
  covers_step later a b r (inr h) e = later.covers a b r h e
  covers_step later a b r (inl (ex, ey)) e = AtMost-trans taken out r later.bound (
      subst (λ o. AtMost (consider o x y best) r)
        (sym (ap₂ (λ u v. lookup (pair_key u v) ranks) ex ey ∙ e)) (consider_takes x y best r))

  scan_step : ScanInv ranks (y ∷ syms) taken out → ScanInv ranks (x ∷ y ∷ syms) best out
  scan_step later = record {
    origin = origin_step later;
    bound = λ b e.
        AtMost-trans taken out b.rank later.bound
          (consider_bound (lookup (pair_key x y) ranks) x y best b e);
    covers = covers_step later;
  }

some_inj : {p q : Best} → some p ≡ some q → p ≡ q
some_inj e = cc

some_ne_none : {p : Best} → some p ≡ none → ⊥
some_ne_none e = cc

module _ (ranks : List (Bytes × ℕ)) where
  scan_end :
      (syms : List Bytes) (best : Option Best)
      → ((a b : Bytes) → ¬ HasPair a b syms)
      → ScanInv ranks syms best best
  scan_end syms best no_pair = record {
    origin = inl refl;
    bound = λ b e. rw e (omega arith);
    covers = λ a b r h e. absurd (no_pair a b h);
  }

  best_pair-ScanInv :
      (syms : List Bytes) (best : Option Best) → ScanInv ranks syms best (best_pair ranks syms best)
  unfolding best_pair
  best_pair-ScanInv [] best = scan_end [] best (λ a b h. h)
  best_pair-ScanInv (x ∷ []) best = scan_end (x ∷ []) best (λ a b h. h)
  best_pair-ScanInv (x ∷ y ∷ syms) best =
      scan_step ranks x y syms best _ (best_pair-ScanInv (y ∷ syms) _)

  module _ (syms : List Bytes) (p : Best) (e : best_pair ranks syms none ≡ some p) where
    pub best_pair-IsRanked : IsRanked ranks syms p
    best_pair-IsRanked = elim (best_pair-ScanInv syms none).origin [
      | inl nothing ↦ absurd (some_ne_none (sym e ∙ nothing))
      | inr (q, e', h) ↦ subst (IsRanked ranks syms) (some_inj (sym e' ∙ e)) h
    ]

    pub best_pair_lowest :
        (a b : Bytes) (r : ℕ)
        → HasPair a b syms
        → lookup (pair_key a b) ranks ≡ some r
        → IsRanked ranks syms p × (p.rank ≤ r)
    best_pair_lowest a b r h k =
        (best_pair-IsRanked, rw e at ((best_pair-ScanInv syms none).covers a b r h k))

  -- If no pair is taken, none has a rank.
  pub best_pair-none :
      (syms : List Bytes) (a b : Bytes)
      → best_pair ranks syms none ≡ none
      → HasPair a b syms
      → lookup (pair_key a b) ranks ≡ none
  best_pair-none syms a b e h = elim (Option-cases (lookup (pair_key a b) ranks)) [
    | inl absent ↦ absent
    | inr (r, k) ↦ absurd (rw e at ((best_pair-ScanInv syms none).covers a b r h k))
  ]

-- A pair of lowest rank in the list.
pub record IsLowest (ranks : List (Bytes × ℕ)) (syms : List Bytes) (p : Best) : Type 0 where
  pub found : IsRanked ranks syms p
  pub lowest :
      (a b : Bytes) (r : ℕ) → HasPair a b syms → lookup (pair_key a b) ranks ≡ some r → p.rank ≤ r

-- What a scan finds: a pair of lowest rank, or that no pair has a rank.
abbrev pub Finds : List (Bytes × ℕ) → List Bytes → Option Best → Type 0
Finds ranks syms none = (a b : Bytes) → HasPair a b syms → lookup (pair_key a b) ranks ≡ none
Finds ranks syms (some p) = IsLowest ranks syms p

-- The scan finds a pair that stands in the list, has a rank, and has the lowest one of all pairs of
-- the list, if any of them has a rank, and finds nothing if none has.
pub best_pair-Finds :
    (ranks : List (Bytes × ℕ)) (syms : List Bytes) → Finds ranks syms (best_pair ranks syms none)
best_pair-Finds ranks syms = by_result (best_pair ranks syms none) refl
  where
    by_result : (o : Option Best) → best_pair ranks syms none ≡ o → Finds ranks syms o
    by_result none e = λ a b h. best_pair-none ranks syms a b e h
    by_result (some p) e = record {
      found = best_pair-IsRanked ranks syms p e;
      lowest = λ a b r h k. (best_pair_lowest ranks syms p e a b r h k).1;
    }

-- A pass over a list that holds the pair makes it shorter; it never makes it longer.
length-merge_pass : (a b : Bytes) (syms : List Bytes) → length (merge_pass a b syms) ≤ length syms
unfolding merge_pass
length-merge_pass a b [] = omega arith
length-merge_pass a b (x ∷ []) = omega arith
length-merge_pass a b (x ∷ y ∷ syms) =
    ground (arith, length-merge_pass a b syms, length-merge_pass a b (y ∷ syms))

pub merge_pass_shorter :
    (a b : Bytes) (syms : List Bytes)
    → HasPair a b syms
    → length (merge_pass a b syms) < length syms
unfolding merge_pass
merge_pass_shorter a b [] h = absurd h
merge_pass_shorter a b (x ∷ []) h = absurd h
merge_pass_shorter a b (x ∷ y ∷ syms) (inl (ex, ey)) =
    rw ((bytes_eq_iff x a).1 ex, (bytes_eq_iff y b).1 ey)
      (omega (arith, length-merge_pass a b syms))
merge_pass_shorter a b (x ∷ y ∷ syms) (inr h) =
    ground (arith, length-merge_pass a b syms, merge_pass_shorter a b (y ∷ syms) h)

-- The fuel is enough: with as many rounds as symbols the loop ends because no pair is left to merge.
pub merge_loop_total :
    (f : ℕ) (ranks : List (Bytes × ℕ)) (syms : List Bytes)
    → length syms ≤ f
    → best_pair ranks (merge_loop f ranks syms) none ≡ none
unfolding merge_loop
merge_loop_total zero ranks [] h = unfold best_pair in refl
merge_loop_total zero ranks (x ∷ syms) h = absurd (omega arith)
merge_loop_total (suc f) ranks syms h = elim (Option-cases (best_pair ranks syms none)) [
  | inl none_left ↦ rw (none_left, merge_loop) none_left
  | inr (p, e) ↦
      let shorter =
        merge_pass_shorter p.left p.right syms (best_pair-IsRanked ranks syms p e).stands in
      rw (e, merge_loop) (merge_loop_total f ranks (merge_pass p.left p.right syms) (omega arith))
]
