-- ===== src/Utf8/Size.antt =====
-- How many bytes a rune takes, and what more bytes behind it change.
use flash_qwen.Prelude.{
  ℕ, suc, ◌≤◌, true, false, [], ◌∷◌, ◌++◌, length, ltb, Bytes, ◌≡◌, refl, arith, Bool-cases, inl,
  inr,
}
use flash_qwen.Utf8.{
  decode_rune, full_rune, decode2, decode3, decode4, full2, full3, full4, rune_self,
}

-- The size of the first rune.
abbrev pub size : Bytes → ℕ
size s = (decode_rune s).1

size2 : (b0 : ℕ) (s : Bytes) → (1 ≤ (decode2 b0 s).1) × ((decode2 b0 s).1 ≤ suc (length s))
unfolding decode2
size2 b0 [] = omega arith
size2 b0 (b1 ∷ s) = ground arith

size3 : (b0 : ℕ) (s : Bytes) → (1 ≤ (decode3 b0 s).1) × ((decode3 b0 s).1 ≤ suc (length s))
unfolding decode3
size3 b0 [] = omega arith
size3 b0 (b1 ∷ []) = omega arith
size3 b0 (b1 ∷ b2 ∷ s) = ground arith

size4 : (b0 : ℕ) (s : Bytes) → (1 ≤ (decode4 b0 s).1) × ((decode4 b0 s).1 ≤ suc (length s))
unfolding decode4
size4 b0 [] = omega arith
size4 b0 (b1 ∷ []) = omega arith
size4 b0 (b1 ∷ b2 ∷ []) = omega arith
size4 b0 (b1 ∷ b2 ∷ b3 ∷ s) = ground arith

-- A rune takes at least one byte and no more than there are.
pub size_bounds : (b : ℕ) (s : Bytes) → (1 ≤ size (b ∷ s)) × (size (b ∷ s) ≤ suc (length s))
unfolding decode_rune
size_bounds b s = ground (arith, size2 b s, size3 b s, size4 b s)

full2-append : (b0 : ℕ) (s t : Bytes) → full2 s ≡ true → decode2 b0 (s ++ t) ≡ decode2 b0 s
unfolding full2 decode2
full2-append b0 [] t h = cc
full2-append b0 (b1 ∷ s) t h = refl

full3-append :
    (b0 : ℕ) (s t : Bytes)
    → full3 b0 s ≡ true
    → (full3 b0 (s ++ t) ≡ true) × (decode3 b0 (s ++ t) ≡ decode3 b0 s)
unfolding full3 decode3
full3-append b0 [] t h = cc
full3-append b0 (b1 ∷ []) [] h = ground arith
full3-append b0 (b1 ∷ []) (c ∷ t) h = ground arith
full3-append b0 (b1 ∷ b2 ∷ s) t h = (refl, refl)

full4-append :
    (b0 : ℕ) (s t : Bytes)
    → full4 b0 s ≡ true
    → (full4 b0 (s ++ t) ≡ true) × (decode4 b0 (s ++ t) ≡ decode4 b0 s)
unfolding full4 decode4
full4-append b0 [] t h = cc
full4-append b0 (b1 ∷ []) [] h = ground arith
full4-append b0 (b1 ∷ []) (c ∷ []) h = ground arith
full4-append b0 (b1 ∷ []) (c ∷ d ∷ []) h = ground arith
full4-append b0 (b1 ∷ []) (c ∷ d ∷ e ∷ t) h = ground arith
full4-append b0 (b1 ∷ b2 ∷ []) [] h = ground arith
full4-append b0 (b1 ∷ b2 ∷ []) (c ∷ t) h = ground arith
full4-append b0 (b1 ∷ b2 ∷ b3 ∷ s) t h = (refl, refl)

full2-append_full : (s t : Bytes) → full2 s ≡ true → full2 (s ++ t) ≡ true
unfolding full2
full2-append_full [] t h = cc
full2-append_full (b1 ∷ s) t h = refl

-- A rune that is full keeps its value and its size, whatever bytes follow.
pub full_rune-append :
    (s t : Bytes)
    → full_rune s ≡ true
    → (full_rune (s ++ t) ≡ true) × (decode_rune (s ++ t) ≡ decode_rune s)
unfolding full_rune decode_rune
full_rune-append [] t h = cc
full_rune-append (b ∷ s) t h = elim (Bool-cases (ltb b 0xC2)) [
  | inl low ↦ ground arith
  | inr lead ↦ elim (Bool-cases (ltb b 0xE0)) [
    | inl two ↦ ground (arith, full2-append b s t, full2-append_full s t)
    | inr _ ↦ elim (Bool-cases (ltb b 0xF0)) [
      | inl three ↦ ground (arith, full3-append b s t)
      | inr _ ↦ ground (arith, full4-append b s t)
    ]
  ]
]

-- What is not a full rune is three bytes at most.
pub not_full-length : (s : Bytes) → full_rune s ≡ false → length s ≤ 3
unfolding full_rune full2 full3 full4
not_full-length [] h = omega arith
not_full-length (b ∷ []) h = omega arith
not_full-length (b ∷ b1 ∷ []) h = omega arith
not_full-length (b ∷ b1 ∷ b2 ∷ []) h = omega arith
not_full-length (b ∷ b1 ∷ b2 ∷ b3 ∷ s) h = ground arith

-- A byte below `RuneSelf` is a full rune of one byte.
pub full_rune_ascii :
    (b : ℕ) (s : Bytes)
    → ltb b rune_self ≡ true
    → (full_rune (b ∷ s) ≡ true) × (decode_rune (b ∷ s) ≡ (b, 1))
unfolding full_rune decode_rune
full_rune_ascii b s h = ground arith
