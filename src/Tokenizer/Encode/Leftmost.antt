-- ===== src/Tokenizer/Encode/Leftmost.antt =====
-- The special that is cut out next is the leftmost one, and the longest of those that begin there.
use mathlib.Core.Path.{subst}
use flash_qwen.Prelude.{
  ℕ, ◌≤◌, ◌<◌, List, [], ◌∷◌, Option, none, some, length, Bytes, ◌≡◌, refl, sym, ◌∙◌, arith, ◌⊎◌,
  inl, inr,
}
use flash_qwen.Tokenizer.{Special}
use flash_qwen.Tokenizer.Encode.{index, Hit, better, find_special}
use flash_qwen.Tokenizer.Encode.Find.{Occurs, Indexes, index-Indexes}

-- The special stands in the list.
abbrev pub Among : Special → List Special → Type 0
Among sp [] = ⊥
Among sp (x ∷ specials) = (sp ≡ x) ⊎ Among sp specials

-- The hit is an occurrence of this special.
pub record IsHit (rest : Bytes) (sp : Special) (hit : Hit) : Type 0 where
  pub occurs : Occurs rest sp.str hit.at
  pub id : hit.id ≡ sp.id
  pub len : hit.len ≡ length sp.str

-- The hit begins no later than place `m`, and is no shorter than `n` if it begins there.
abbrev pub Beats : Hit → ℕ → ℕ → Type 0
Beats hit m n = (hit.at < m) ⊎ ((hit.at ≡ m) × (n ≤ hit.len))

Beats-trans : (x y : Hit) (m n : ℕ) → Beats x y.at y.len → Beats y m n → Beats x m n
Beats-trans x y m n (inl a) (inl b) = inl (omega arith)
Beats-trans x y m n (inl a) (inr b) = inl (omega arith)
Beats-trans x y m n (inr a) (inl b) = inl (omega arith)
Beats-trans x y m n (inr a) (inr b) = inr (omega arith, omega arith)

-- `out` is a hit that beats this place and length.
abbrev BeatsAt : Option Hit → ℕ → ℕ → Type 0
BeatsAt none m n = ⊥
BeatsAt (some hit) m n = Beats hit m n

record FindInv (specials : List Special) (rest : Bytes) (best out : Option Hit) : Type 0 where
  origin :
      (out ≡ best)
      ⊎ ((hit : Hit) × (sp : Special) × (out ≡ some hit) × Among sp specials × IsHit rest sp hit)
  bound : (b : Hit) → best ≡ some b → BeatsAt out b.at b.len
  covers :
      (sp : Special) (m : ℕ)
      → Among sp specials
      → Occurs rest sp.str m
      → BeatsAt out m (length sp.str)

better_bound : (sp : Special) (o : Option ℕ) (b : Hit) → BeatsAt (better sp o (some b)) b.at b.len
unfolding better
better_bound sp none b = inr (omega arith, omega arith)
better_bound sp (some f) b = ground arith

better_takes :
    (sp : Special) (f : ℕ) (best : Option Hit) → BeatsAt (better sp (some f) best) f (length sp.str)
unfolding better
better_takes sp f none = inr (omega arith, omega arith)
better_takes sp f (some b) = ground arith

better_origin :
    (sp : Special) (f : ℕ) (best : Option Hit)
    → (better sp (some f) best ≡ best)
      ⊎ (better sp (some f) best ≡ some (record { at = f; id = sp.id; len = length sp.str }))
unfolding better
better_origin sp f none = inr refl
better_origin sp f (some b) = ground arith

BeatsAt-trans :
    (next out : Option Hit) (m n : ℕ)
    → ((b : Hit) → next ≡ some b → BeatsAt out b.at b.len)
    → BeatsAt next m n
    → BeatsAt out m n
BeatsAt-trans none out m n h f = absurd f
BeatsAt-trans (some b) out m n h f = through out (h b refl)
  where
    through : (out : Option Hit) → BeatsAt out b.at b.len → BeatsAt out m n
    through none g = g
    through (some x) g = Beats-trans x b m n g f

BeatsAt-earlier : (out : Option Hit) (f m n : ℕ) → f ≤ m → BeatsAt out f n → BeatsAt out m n
BeatsAt-earlier none f m n h g = g
BeatsAt-earlier (some x) f m n h (inl g) = inl (omega arith)
BeatsAt-earlier (some x) f m n h (inr g) = earlier
  where
    earlier : Beats x m n
    earlier = omega arith

some_ne_none : {A : Type 0} {a : A} → some a ≡ none → ⊥
some_ne_none e = cc

some_inj : {A : Type 0} {a b : A} → some a ≡ some b → a ≡ b
some_inj e = cc

-- One special more in the search.
module _ (sp : Special) (specials : List Special) (rest : Bytes) (best out : Option Hit) where
  find_absent :
      ((m : ℕ) → ¬ Occurs rest sp.str m)
      → FindInv specials rest best out
      → FindInv (sp ∷ specials) rest best out
  find_absent absent later = record {
    origin = elim later.origin [
      | inl same ↦ inl same
      | inr (hit, x, e, a, i) ↦ inr (hit, x, e, inr a, i)
    ];
    bound = later.bound;
    covers = covers;
  }
    where
      covers :
          (x : Special) (m : ℕ)
          → Among x (sp ∷ specials)
          → Occurs rest x.str m
          → BeatsAt out m (length x.str)
      covers x m (inl e) o = absurd (absent m (subst (λ y. Occurs rest y.str m) e o))
      covers x m (inr a) o = later.covers x m a o

  module _ (f : ℕ) (found : Occurs rest sp.str f)
      (first : (m : ℕ) → Occurs rest sp.str m → f ≤ m) where
    abbrev next : Option Hit
    next = better sp (some f) best

    next_bound : (b : Hit) → best ≡ some b → BeatsAt next b.at b.len
    next_bound b e = rw e (better_bound sp (some f) b)

    find_present : FindInv specials rest next out → FindInv (sp ∷ specials) rest best out
    find_present later = record {
      origin = origin;
      bound = λ b e. BeatsAt-trans next out b.at b.len later.bound (next_bound b e);
      covers = covers;
    }
      where
        origin :
            (out ≡ best)
            ⊎ ((hit : Hit) × (x : Special) × (out ≡ some hit)
                × Among x (sp ∷ specials)
                × IsHit rest x hit)
        origin = elim later.origin [
          | inr (hit, x, e, a, i) ↦ inr (hit, x, e, inr a, i)
          | inl same ↦ elim (better_origin sp f best) [
            | inl old ↦ inl (same ∙ old)
            | inr new ↦ inr (
              record { at = f; id = sp.id; len = length sp.str },
              sp,
              same ∙ new,
              inl refl,
              record { occurs = found; id = refl; len = refl },
            )
          ]
        ]

        covers :
            (x : Special) (m : ℕ)
            → Among x (sp ∷ specials)
            → Occurs rest x.str m
            → BeatsAt out m (length x.str)
        covers x m (inr a) o = later.covers x m a o
        covers x m (inl e) o = rw e (
            BeatsAt-earlier out f m (length sp.str) (first m (subst (λ y. Occurs rest y.str m) e o))
              (BeatsAt-trans next out f (length sp.str) later.bound (better_takes sp f best)))

find_special-FindInv :
    (specials : List Special) (rest : Bytes) (best : Option Hit)
    → FindInv specials rest best (find_special specials rest best)
unfolding find_special
find_special-FindInv [] rest best = record {
  origin = inl refl;
  bound = λ b e. rw e (inr (omega arith, omega arith));
  covers = λ x m a o. absurd a;
}
find_special-FindInv (sp ∷ specials) rest best =
    by_index (index rest sp.str) (index-Indexes rest sp.str)
      (λ b. find_special-FindInv specials rest b)
  where
    by_index :
        (o : Option ℕ)
        → Indexes rest sp.str o
        → ((b : Option Hit) → FindInv specials rest b (find_special specials rest b))
        → FindInv (sp ∷ specials) rest best (find_special specials rest (better sp o best))
    by_index none absent ih = find_absent sp specials rest best _ absent (ih best)
    by_index (some f) found ih = find_present sp specials rest best _ f found.0 found.1 (ih _)

module _ (specials : List Special) (rest : Bytes) where
  pub find_special-IsHit :
      (hit : Hit)
      → find_special specials rest none ≡ some hit
      → (sp : Special) × Among sp specials × IsHit rest sp hit
  find_special-IsHit hit e = elim (find_special-FindInv specials rest none).origin [
    | inl nothing ↦ absurd (some_ne_none (sym e ∙ nothing))
    | inr (x, sp, e', a, i) ↦ (sp, a, subst (IsHit rest sp) (some_inj (sym e' ∙ e)) i)
  ]

  pub find_special_leftmost :
      (hit : Hit) (sp : Special) (m : ℕ)
      → find_special specials rest none ≡ some hit
      → Among sp specials
      → Occurs rest sp.str m
      → ((x : Special) × Among x specials × IsHit rest x hit) × Beats hit m (length sp.str)
  find_special_leftmost hit sp m e a o = (
    find_special-IsHit hit e,
    rw e at ((find_special-FindInv specials rest none).covers sp m a o),
  )

  pub find_special-none :
      (sp : Special) (m : ℕ)
      → find_special specials rest none ≡ none
      → Among sp specials
      → ¬ Occurs rest sp.str m
  find_special-none sp m e a o = rw e at ((find_special-FindInv specials rest none).covers sp m a o)

  -- A hit that is an occurrence of a special of the table, and the leftmost one, and the longest there.
  pub record IsLeftmost (hit : Hit) : Type 0 where
    pub special : Special
    pub among : Among special specials
    pub is_hit : IsHit rest special hit
    pub beats :
        (sp : Special) (m : ℕ)
        → Among sp specials
        → Occurs rest sp.str m
        → Beats hit m (length sp.str)

  -- What a search finds: a leftmost hit, or that no special occurs.
  abbrev pub Finds : Option Hit → Type 0
  Finds none = (sp : Special) (m : ℕ) → Among sp specials → ¬ Occurs rest sp.str m
  Finds (some hit) = IsLeftmost hit

  -- In whatever order the table stands, what the search finds is an occurrence of one of its specials,
  -- and each occurrence of a special begins behind it, or there and is no longer. It finds nothing
  -- only if no special occurs.
  pub find_special-Finds : Finds (find_special specials rest none)
  find_special-Finds = by_result (find_special specials rest none) refl
    where
      by_result : (o : Option Hit) → find_special specials rest none ≡ o → Finds o
      by_result none e = λ sp m a o. find_special-none sp m e a o
      by_result (some hit) e =
          let (x, a, i) = find_special-IsHit hit e in
          record {
            special = x;
            among = a;
            is_hit = i;
            beats = λ sp m b o. (find_special_leftmost hit sp m e b o).1;
          }
