-- ===== src/Tokenizer/Pretokenizer/Progress.antt =====
-- Every round of the splitting loop takes at least one rune, and none behind the last.
use mathlib.Core.Path.{subst}
use flash_qwen.Prelude.{
  ℕ, zero, suc, ◌+◌, ◌-◌, ◌≤◌, ◌<◌, Bool, true, List, [], ◌∷◌, Option, none, some, length, drop,
  length-drop, ltb, leb, not, ◌&&◌, if◌then◌else◌, ◌≡◌, refl, sym, arith, Bool-cases, inl, inr,
}
use flash_qwen.Tokenizer.Chars.{is_space, is_newline, is_letter, is_punct}
use flash_qwen.Tokenizer.Pretokenizer.{
  Cp, rune_at, while_from, skip, space_run, contraction, space_end, other_end, piece_end,
}

while_from_bounds :
    (p : ℕ → Bool) (rest : List Cp) (j : ℕ)
    → (j ≤ while_from p rest j) × (while_from p rest j ≤ j + length rest)
unfolding while_from
while_from_bounds p [] j = omega arith
while_from_bounds p (c ∷ rest) j = ground (arith, while_from_bounds p rest (j + 1))

module _ (p : ℕ → Bool) (cps : List Cp) (j : ℕ) (h : j ≤ length cps) where
  skip_bounds : (j ≤ skip p cps j) × (skip p cps j ≤ length cps)
  unfolding skip
  skip_bounds = omega (arith, while_from_bounds p (drop j cps) j, length-drop j cps)

drop-cons :
    (cps : List Cp) (j : ℕ)
    → j < length cps
    → (rest : List Cp) × (c : Cp) × (drop j cps ≡ c ∷ rest) × (c.r ≡ rune_at cps j)
drop-cons [] j h = absurd (omega arith)
drop-cons (c ∷ cps) zero h = (cps, c, refl, refl)
drop-cons (c ∷ cps) (suc j) h = drop-cons cps j (omega arith)

while_from_cons :
    (p : ℕ → Bool) (c : Cp) (rest : List Cp) (j : ℕ) → p c.r ≡ true → j < while_from p (c ∷ rest) j
unfolding while_from
while_from_cons p c rest j h = ground (arith, while_from_bounds p rest (j + 1))

-- A run that begins with a matching rune takes it.
skip_first :
    (p : ℕ → Bool) (cps : List Cp) (j : ℕ)
    → j < length cps
    → p (rune_at cps j) ≡ true
    → j < skip p cps j
unfolding skip
skip_first p cps j h t =
    let (rest, c, e, same) = drop-cons cps j h in rw e (while_from_cons p c rest j (rw same t))

abbrev BelowLast : ℕ → ℕ → Option ℕ → Type 0
BelowLast i j none = Unit
BelowLast i j (some l) = (i ≤ l) × (l < j)

record RunInv (i j top : ℕ) (out : ℕ × Option ℕ) : Type 0 where
  from : j ≤ out.0
  upto : out.0 ≤ top
  newline : BelowLast i out.0 out.1

BelowLast-suc : (i j : ℕ) (last : Option ℕ) → BelowLast i j last → BelowLast i (j + 1) last
BelowLast-suc i j none h = tt
BelowLast-suc i j (some l) h = omega arith

RunInv-weaken :
    {i j top : ℕ} {out : ℕ × Option ℕ} (j' top' : ℕ)
    → j' ≤ j
    → top ≤ top'
    → RunInv i j top out
    → RunInv i j' top' out
RunInv-weaken j' top' h t v = record {
  from = omega (arith, v.from);
  upto = omega (arith, v.upto);
  newline = v.newline;
}

space_run-RunInv :
    (rest : List Cp) (i j : ℕ) (last : Option ℕ)
    → i ≤ j
    → BelowLast i j last
    → RunInv i j (j + length rest) (space_run rest j last)
unfolding space_run
space_run-RunInv [] i j last h b = record { from = omega arith; upto = omega arith; newline = b }
space_run-RunInv (c ∷ rest) i j last h b = elim (Bool-cases (is_space c.r)) [
  | inr other ↦ rw other (record { from = omega arith; upto = omega arith; newline = b })
  | inl space ↦ rw space (
      RunInv-weaken j (j + suc (length rest)) (omega arith) (omega arith) (
        space_run-RunInv rest i (j + 1) (if is_newline c.r then some j else last) (omega arith)
          (elim (Bool-cases (is_newline c.r)) [
            | inl line ↦ rw line (omega arith)
            | inr same ↦ rw same (BelowLast-suc i j last b)
          ])))
]

space_run_first :
    (c : Cp) (rest : List Cp) (j : ℕ) → is_space c.r ≡ true → j < (space_run (c ∷ rest) j none).0
unfolding space_run
space_run_first c rest j h = rw h (elim (Bool-cases (is_newline c.r)) [
  | inl line ↦
      rw line
        (omega (arith, (space_run-RunInv rest j (j + 1) (some j) (omega arith) (omega arith)).from))
  | inr same ↦ rw same (omega (arith, (space_run-RunInv rest j (j + 1) none (omega arith) tt).from))
])

-- A run of spaces: at least its first rune is taken.
space_end_bounds :
    (cps : List Cp) (i : ℕ)
    → i < length cps
    → is_space (rune_at cps i) ≡ true
    → (i < space_end cps i) × (space_end cps i ≤ length cps)
unfolding space_end
space_end_bounds cps i h t =
    let (rest, c, e, same) = drop-cons cps i h in
    let inv = space_run-RunInv (drop i cps) i i none (omega arith) tt in
    let first =
      subst (λ l. i < (space_run l i none).0) (sym e) (space_run_first c rest i (rw same t)) in
    finish (space_run (drop i cps) i none).0 (space_run (drop i cps) i none).1 first
      (omega (arith, inv.upto, length-drop i cps)) inv.newline
  where
    finish :
        (j : ℕ) (last : Option ℕ)
        → i < j
        → j ≤ length cps
        → BelowLast i j last
        → (let out : ℕ = elim last [
          | some l ↦ l + 1
          | none ↦
              if ltb j (length cps) && not (is_space (rune_at cps j)) && leb 2 (j - i)
              then j - 1
              else j
        ] in
            (i < out) × (out ≤ length cps))
    finish j (some l) p q b = omega arith
    finish j none p q b = ground arith

module _ (cps : List Cp) (i : ℕ) (h : i < length cps) where
  contraction_bounds : i + contraction cps i ≤ length cps
  unfolding contraction
  contraction_bounds = ground arith

  punct_bounds :
      (k : ℕ)
      → i ≤ k
      → k < length cps
      → is_punct (rune_at cps k) ≡ true
      → (i < skip is_newline cps (skip is_punct cps k))
        × (skip is_newline cps (skip is_punct cps k) ≤ length cps)
  punct_bounds k p q t = omega (
    arith,
    skip_first is_punct cps k q t,
    skip_bounds is_punct cps k (omega arith),
    skip_bounds is_newline cps (skip is_punct cps k) (skip_bounds is_punct cps k (omega arith)).1,
  )

  other_end_bounds : (i < other_end cps i) × (other_end cps i ≤ length cps)
  unfolding other_end
  other_end_bounds =
      ground (arith, space_end_bounds cps i, punct_bounds i (omega arith), punct_bounds (i + 1))

  -- Where the next piece ends: behind its begin, and not behind the text.
  pub piece_end_bounds : (i < piece_end cps i) × (piece_end cps i ≤ length cps)
  unfolding piece_end
  piece_end_bounds = ground (
    arith,
    contraction_bounds,
    other_end_bounds,
    skip_bounds is_letter cps (i + 1),
    skip_bounds is_letter cps (i + 2),
  )
