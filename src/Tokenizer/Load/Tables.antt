-- ===== src/Tokenizer/Load/Tables.antt =====
-- Writing values into a table of `Load`.
use mathlib.Core.Path.{subst}
use flash_qwen.Prelude.{
  ℕ, zero, suc, ◌<◌, List, [], ◌∷◌, length, get_or, set, replicate, ◌==◌, ◌≡◌, ◌≢◌, refl, sym, ap,
  ◌∙◌, arith, Bool-cases, ◌⊎◌, inl, inr,
}
use flash_qwen.Tokenizer.Encode.Leftmost.{Among}
use flash_qwen.Tokenizer.{Special}

module _ {ℓ} {A : Type ℓ} where
  pub length-set : (n : ℕ) (v : A) (xs : List A) → length (set xs n v) ≡ length xs
  length-set n v [] = refl
  length-set zero v (x ∷ xs) = refl
  length-set (suc n) v (x ∷ xs) = ap suc (length-set n v xs)

  pub length-replicate : (n : ℕ) (v : A) → length (replicate n v) ≡ n
  length-replicate zero v = refl
  length-replicate (suc n) v = ap suc (length-replicate n v)

  get_or-set : (n : ℕ) (v d : A) (xs : List A) → n < length xs → get_or (set xs n v) n d ≡ v
  get_or-set n v d [] h = absurd (omega arith)
  get_or-set zero v d (x ∷ xs) h = refl
  get_or-set (suc n) v d (x ∷ xs) h = get_or-set n v d xs (omega arith)

  get_or-set_other :
      (n m : ℕ) (v d : A) (xs : List A) → n ≢ m → get_or (set xs n v) m d ≡ get_or xs m d
  get_or-set_other n m v d [] h = refl
  get_or-set_other zero zero v d (x ∷ xs) h = absurd (h refl)
  get_or-set_other zero (suc m) v d (x ∷ xs) h = refl
  get_or-set_other (suc n) zero v d (x ∷ xs) h = refl
  get_or-set_other (suc n) (suc m) v d (x ∷ xs) h = get_or-set_other n m v d xs (λ e. h (ap suc e))

  pub get_or-replicate : (n m : ℕ) (d : A) → get_or (replicate n d) m d ≡ d
  get_or-replicate zero m d = refl
  get_or-replicate (suc n) zero d = refl
  get_or-replicate (suc n) (suc m) d = get_or-replicate n m d

-- Writing the added tokens over the entries of some table, each at its id.
module _ {ℓ} {A : Type ℓ} (value : Special → A) where
  abbrev pub sets : List Special → List A → List A
  sets [] xs = xs
  sets (sp ∷ specials) xs = sets specials (set xs sp.id (value sp))

  pub length-sets : (specials : List Special) (xs : List A) → length (sets specials xs) ≡ length xs
  length-sets [] xs = refl
  length-sets (sp ∷ specials) xs = length-sets specials _ ∙ length-set sp.id (value sp) xs

  -- Where all added tokens of an id agree on the value, that value is read.
  pub get_or-sets :
      (specials : List Special) (xs : List A) (n : ℕ) (v d : A)
      → n < length xs
      → ((sp : Special) → Among sp specials → sp.id ≡ n → value sp ≡ v)
      → ((get_or xs n d ≡ v) ⊎ ((sp : Special) × Among sp specials × (sp.id ≡ n)))
      → get_or (sets specials xs) n d ≡ v
  get_or-sets [] xs n v d h all (inl e) = e
  get_or-sets [] xs n v d h all (inr (sp, a, e)) = absurd a
  get_or-sets (x ∷ specials) xs n v d h all some_value =
      get_or-sets specials (set xs x.id (value x)) n v d
        (omega (arith, length-set x.id (value x) xs)) (λ sp a e. all sp (inr a) e)
        (elim (Bool-cases (x.id == n)) [
          | inl same ↦ inl (here (ground arith))
          | inr differ ↦ later (ground arith) some_value
        ])
    where
      here : x.id ≡ n → get_or (set xs x.id (value x)) n d ≡ v
      here e =
          subst (λ m. get_or (set xs x.id (value x)) m d ≡ v) e
            (get_or-set x.id (value x) d xs (omega arith) ∙ all x (inl refl) e)

      later :
          x.id ≢ n
          → ((get_or xs n d ≡ v) ⊎ ((sp : Special) × Among sp (x ∷ specials) × (sp.id ≡ n)))
          → (get_or (set xs x.id (value x)) n d ≡ v)
            ⊎ ((sp : Special) × Among sp specials × (sp.id ≡ n))
      later ne (inl e) = inl (get_or-set_other x.id n (value x) d xs ne ∙ e)
      later ne (inr (sp, inl same, e)) = absurd (ne (sym (ap (λ (y : Special). y.id) same) ∙ e))
      later ne (inr (sp, inr a, e)) = inr (sp, a, e)

  pub get_or-sets_other :
      (specials : List Special) (xs : List A) (n : ℕ) (d : A)
      → ((sp : Special) → Among sp specials → sp.id ≢ n)
      → get_or (sets specials xs) n d ≡ get_or xs n d
  get_or-sets_other [] xs n d none_of = refl
  get_or-sets_other (x ∷ specials) xs n d none_of =
      get_or-sets_other specials _ n d (λ sp a. none_of sp (inr a))
      ∙ get_or-set_other x.id n (value x) d xs (none_of x (inl refl))
