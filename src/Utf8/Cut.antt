-- ===== src/Utf8/Cut.antt =====
-- The whole runes at the front of a byte sequence, as a relation.
use flash_qwen.Prelude.{
  ℕ, zero, suc, ◌≤◌, true, false, [], ◌∷◌, ◌++◌, append_assoc, length, take, drop, take-append-drop,
  Bytes, ◌≡◌, refl, sym, ap, ◌∙◌, arith,
}
use flash_qwen.Utf8.Size.{size, size_bounds, full_rune-append, not_full-length}
use flash_qwen.Utf8.{full_rune}

-- `Cut rest whole done`: `whole` is the runes `done`, then `rest`, which begins with no full rune.
pub data Cut (rest : Bytes) : Bytes → Bytes → Type 0 where
  stop :
      {whole done : Bytes} → done ≡ [] → whole ≡ rest → full_rune rest ≡ false → Cut rest whole done
  step :
      {whole done : Bytes} (later : Bytes)
      → full_rune whole ≡ true
      → done ≡ take (size whole) whole ++ later
      → Cut rest (drop (size whole) whole) later
      → Cut rest whole done

-- The cut splits the bytes, and leaves three at most.
pub Cut-append : {r s d : Bytes} → Cut r s d → (d ++ r ≡ s) × (length r ≤ 3)
Cut-append {r} {s} {d} (stop e e' h) = (rw (e, e') refl, not_full-length r h)
Cut-append {r} {s} {d} (step later h e c) = (
  rw (e, append_assoc)
      (ap (λ x. take (size s) s ++ x) (Cut-append c).0 ∙ take-append-drop (size s) s),
  (Cut-append c).1,
)

-- A full sequence has a first byte.
pub full_rune-size : (s : Bytes) → full_rune s ≡ true → (1 ≤ size s) × (size s ≤ length s)
unfolding full_rune
full_rune-size [] h = cc
full_rune-size (b ∷ s) h = size_bounds b s

pub take-append_left : (n : ℕ) (s t : Bytes) → n ≤ length s → take n (s ++ t) ≡ take n s
take-append_left zero s t h = refl
take-append_left (suc n) [] t h = absurd (omega arith)
take-append_left (suc n) (b ∷ s) t h = ap (◌∷◌ b) (take-append_left n s t (omega arith))

pub drop-append_left : (n : ℕ) (s t : Bytes) → n ≤ length s → drop n (s ++ t) ≡ drop n s ++ t
drop-append_left zero s t h = refl
drop-append_left (suc n) [] t h = absurd (omega arith)
drop-append_left (suc n) (b ∷ s) t h = drop-append_left n s t (omega arith)

module _ (s t : Bytes) (h : full_rune s ≡ true) where
  pub size-append : size (s ++ t) ≡ size s
  size-append = ap (λ p. p.1) (full_rune-append s t h).1

  pub take-size-append : take (size (s ++ t)) (s ++ t) ≡ take (size s) s
  take-size-append = rw size-append (take-append_left (size s) s t (full_rune-size s h).1)

  pub drop-size-append : drop (size (s ++ t)) (s ++ t) ≡ drop (size s) s ++ t
  drop-size-append = rw size-append (drop-append_left (size s) s t (full_rune-size s h).1)

-- Cutting what was left over together with further bytes goes on where the first cut stopped.
pub Cut-trans :
    {r s d : Bytes} {r' d' : Bytes} (t : Bytes)
    → Cut r s d
    → Cut r' (r ++ t) d'
    → Cut r' (s ++ t) (d ++ d')
Cut-trans t (stop e e' h) c = rw (e, e') c
Cut-trans {s = s} {d' = d'} t (step later h e c) c' =
    step (later ++ d') (full_rune-append s t h).0
      (rw (e, take-size-append s t h) (append_assoc _ later d'))
      (rw (drop-size-append s t h) (Cut-trans t c c'))

-- There is one cut at most.
pub Cut-unique : {r s d r' d' : Bytes} → Cut r s d → Cut r' s d' → (d ≡ d') × (r ≡ r')
Cut-unique (stop e e' h) (stop f f' g) = (e ∙ sym f, sym e' ∙ f')
Cut-unique (stop e e' h) (step l g f c) = cc
Cut-unique (step l g f c) (stop e e' h) = cc
Cut-unique {s = s} (step l h e c) (step l' h' e' c') =
    let (p, q) = Cut-unique c c' in (rw (e, e') (ap (λ x. take (size s) s ++ x) p), q)
