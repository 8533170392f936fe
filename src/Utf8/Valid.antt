-- ===== src/Utf8/Valid.antt =====
-- Cutting a valid text gives valid texts.
use flash_qwen.Prelude.{
  ℕ, zero, suc, ◌≢◌, true, false, [], ◌∷◌, ◌++◌, append-nil, take, drop, Bytes, ◌≡◌, refl, sym, ap,
  ◌∙◌, arith,
}
use flash_qwen.Utf8.Size.{size, full_rune-append}
use flash_qwen.Utf8.Cut.{Cut, stop, step, drop-size-append}
use flash_qwen.Utf8.{decode_rune, full_rune, rune_error}

-- utf8.Valid: no rune is an invalid byte, which decodes to `RuneError` with size one.
pub data IsValid : Bytes → Type 0 where
  nil : {s : Bytes} → s ≡ [] → IsValid s
  rune :
      {s : Bytes}
      → full_rune s ≡ true
      → decode_rune s ≢ (rune_error, 1)
      → IsValid (drop (size s) s)
      → IsValid s

-- The bytes of a valid rune stand on their own.
rune_alone :
    (s : Bytes)
    → full_rune s ≡ true
    → decode_rune s ≢ (rune_error, 1)
    → (full_rune (take (size s) s) ≡ true) × (decode_rune (take (size s) s) ≡ decode_rune s)
unfolding full_rune decode_rune
rune_alone [] h ne = cc
rune_alone (b ∷ []) h ne = ground arith
rune_alone (b ∷ b1 ∷ []) h ne = ground arith
rune_alone (b ∷ b1 ∷ b2 ∷ []) h ne = ground arith
rune_alone (b ∷ b1 ∷ b2 ∷ b3 ∷ s) h ne = ground arith

drop-take : (n : ℕ) (s : Bytes) → drop n (take n s) ≡ []
drop-take zero s = refl
drop-take (suc n) [] = refl
drop-take (suc n) (b ∷ s) = drop-take n s

-- A valid rune in front of a valid text gives a valid text.
rune_front :
    (s t : Bytes)
    → full_rune s ≡ true
    → decode_rune s ≢ (rune_error, 1)
    → IsValid t
    → IsValid (take (size s) s ++ t)
rune_front s t h ne v =
    let (full, same) = rune_alone s h ne in
    let head : Bytes = take (size s) s in
    let (full', same') = full_rune-append head t full in
    rune full' (λ e. ne (sym (same' ∙ same) ∙ e))
      (rw (drop-size-append head t full) (rw (drop-head full same) v))
  where
    drop-head :
        full_rune (take (size s) s) ≡ true
        → decode_rune (take (size s) s) ≡ decode_rune s
        → drop (size (take (size s) s)) (take (size s) s) ≡ []
    drop-head full same =
        ap (λ (p : ℕ × ℕ). drop (p.1) (take (size s) s)) same ∙ drop-take (size s) s

IsValid-cases :
    {s : Bytes}
    → IsValid s
    → full_rune s ≡ true
    → (decode_rune s ≢ (rune_error, 1)) × IsValid (drop (size s) s)
unfolding full_rune
IsValid-cases (nil e) h = cc
IsValid-cases (rune h' ne v) h = (ne, v)

-- The whole runes cut off the front of a valid text are valid, and so is what is left.
pub Cut-IsValid :
    {r s d : Bytes} (t : Bytes) → Cut r s d → IsValid (s ++ t) → IsValid d × IsValid (r ++ t)
Cut-IsValid t (stop e e' h) v = (nil e, rw e' at v)
Cut-IsValid {s = s} t (step later h e c) v =
    let (ne, rest) = IsValid-cases v (full_rune-append s t h).0 in
    let (dv, rv) = Cut-IsValid t c (rw (drop-size-append s t h) at rest) in
    (rw e (rune_front s later h (λ x. ne ((full_rune-append s t h).1 ∙ x)) dv), rv)

-- Nothing is left of a valid text.
pub Cut-nil : {r s d : Bytes} → Cut r s d → IsValid s → r ≡ []
Cut-nil {r} c v = left (rw append-nil at (Cut-IsValid [] c (rw append-nil v)).1) (rest_not_full c)
  where
    rest_not_full : {r s d : Bytes} → Cut r s d → full_rune r ≡ false
    rest_not_full (stop e e' h) = h
    rest_not_full (step l h e c') = rest_not_full c'

    left : IsValid r → full_rune r ≡ false → r ≡ []
    left (nil e) h = e
    left (rune h' ne w) h = cc
