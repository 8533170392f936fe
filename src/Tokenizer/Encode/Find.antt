-- ===== src/Tokenizer/Encode/Find.antt =====
-- `strings.Index` finds the first occurrence.
use flash_qwen.Prelude.{
  ℕ, zero, suc, ◌≤◌, Bool, true, false, [], ◌∷◌, ◌++◌, Option, none, some, length, drop, Bytes, ◌≡◌,
  refl, arith, if◌then◌else◌,
}
use flash_qwen.Tokenizer.Encode.{has_prefix, index}

-- `sub` stands in `s` at place `i`.
abbrev pub Occurs : Bytes → Bytes → ℕ → Type 0
Occurs s sub i = (has_prefix (drop i s) sub ≡ true) × (i ≤ length s)

pub has_prefix-append : (s p : Bytes) → has_prefix s p ≡ true → p ++ drop (length p) s ≡ s
unfolding has_prefix
has_prefix-append s [] h = refl
has_prefix-append [] (p ∷ ps) h = cc
has_prefix-append (c ∷ s) (p ∷ ps) h = ground (arith, has_prefix-append s ps)

-- What `strings.Index` says: the first occurrence, or that there is none.
abbrev pub Indexes : Bytes → Bytes → Option ℕ → Type 0
Indexes s sub none = (m : ℕ) → ¬ Occurs s sub m
Indexes s sub (some n) = Occurs s sub n × ((m : ℕ) → Occurs s sub m → n ≤ m)

Indexes-cons :
    (c : ℕ) (s sub : Bytes) (b : Bool) (later : Option ℕ)
    → has_prefix (c ∷ s) sub ≡ b
    → Indexes s sub later
    → Indexes (c ∷ s) sub (if b then some 0 else elim later [ none ↦ none | some n ↦ some (suc n) ])
Indexes-cons c s sub true later e r = ((e, omega arith), λ m o. omega arith)
Indexes-cons c s sub false none e r = not_here
  where
    not_here : (m : ℕ) → ¬ Occurs (c ∷ s) sub m
    not_here zero o = cc
    not_here (suc m) o = r m (o.0, omega arith)
Indexes-cons c s sub false (some n) e r = ((r.0.0, omega arith), first)
  where
    first : (m : ℕ) → Occurs (c ∷ s) sub m → suc n ≤ m
    first zero o = absurd (cc)
    first (suc m) o = omega (arith, r.1 m (o.0, omega arith))

Indexes-nil :
    (sub : Bytes) (b : Bool) → has_prefix [] sub ≡ b → Indexes [] sub (if b then some 0 else none)
Indexes-nil sub true e = ((e, omega arith), λ m o. omega arith)
Indexes-nil sub false e = not_here
  where
    not_here : (m : ℕ) → ¬ Occurs [] sub m
    not_here zero o = cc
    not_here (suc m) o = omega arith

pub index-Indexes : (s sub : Bytes) → Indexes s sub (index s sub)
unfolding index
index-Indexes [] sub = Indexes-nil sub (has_prefix [] sub) refl
index-Indexes (c ∷ s) sub =
    Indexes-cons c s sub (has_prefix (c ∷ s) sub) (index s sub) refl (index-Indexes s sub)
