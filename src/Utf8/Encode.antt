-- ===== src/Utf8/Encode.antt =====
-- `string(r)` for a rune, and ranging over a string.
use flash_qwen.Prelude.{
  ℕ, zero, suc, ◌+◌, ◌/◌, ◌%◌, ◌≤◌, ◌<◌, true, false, ◌||◌, List, [], ◌∷◌, ◌++◌, length, drop,
  Bytes, ◌≡◌, refl, ap, ◌∙◌, arith, ltb, within, if◌then◌else◌, length-drop, Bool-cases, inl, inr,
}
use flash_qwen.Utf8.Size.{size, size_bounds}
use flash_qwen.Utf8.{decode_rune}

-- string(r): what is no code point is written as `RuneError`
unfoldable pub encode_rune : ℕ → Bytes
encode_rune r =
    if ltb r 0x80
    then r ∷ []
    else if ltb r 0x800
    then (0xC0 + r / 64) ∷ (0x80 + r % 64) ∷ []
    else if within 0xD800 0xDFFF r || ltb 0x10FFFF r
    then 0xEF ∷ 0xBF ∷ 0xBD ∷ []
    else if ltb r 0x10000
    then (0xE0 + r / 4096) ∷ (0x80 + r / 64 % 64) ∷ (0x80 + r % 64) ∷ []
    else (0xF0 + r / 262144) ∷ (0x80 + r / 4096 % 64) ∷ (0x80 + r / 64 % 64) ∷ (0x80 + r % 64) ∷ []

-- `for _, r := range s`, with fuel
runes_from : ℕ → Bytes → List ℕ
runes_from zero s = []
runes_from (suc f) [] = []
runes_from (suc f) (b ∷ s) = (decode_rune (b ∷ s)).0 ∷ runes_from f (drop (size (b ∷ s)) (b ∷ s))

unfoldable pub runes : Bytes → List ℕ
unfolding runes_from
runes s = runes_from (length s) s

-- Runes of one or two bytes are read back, whatever follows them.
pub decode-encode :
    (r : ℕ) (t : Bytes) → r < 0x800 → decode_rune (encode_rune r ++ t) ≡ (r, length (encode_rune r))
unfolding decode_rune encode_rune
decode-encode r t h = ground arith

-- More fuel than bytes does not change the runes.
runes_from-fuel :
    (f g : ℕ) (s : Bytes) → length s ≤ f → length s ≤ g → runes_from f s ≡ runes_from g s
unfolding runes_from
runes_from-fuel zero zero s hf hg = refl
runes_from-fuel zero (suc g) [] hf hg = refl
runes_from-fuel zero (suc g) (b ∷ s) hf hg = absurd (omega arith)
runes_from-fuel (suc f) zero [] hf hg = refl
runes_from-fuel (suc f) zero (b ∷ s) hf hg = absurd (omega arith)
runes_from-fuel (suc f) (suc g) [] hf hg = refl
runes_from-fuel (suc f) (suc g) (b ∷ s) hf hg =
    ap (λ x. (decode_rune (b ∷ s)).0 ∷ x)
      (runes_from-fuel f g (drop (size (b ∷ s)) (b ∷ s)) (shorter f hf) (shorter g hg))
  where
    shorter : (k : ℕ) → suc (length s) ≤ suc k → length (drop (size (b ∷ s)) (b ∷ s)) ≤ k
    shorter k h = omega (arith, length-drop (size (b ∷ s)) (b ∷ s), size_bounds b s)

pub runes-cons :
    (b : ℕ) (s : Bytes)
    → runes (b ∷ s) ≡ (decode_rune (b ∷ s)).0 ∷ runes (drop (size (b ∷ s)) (b ∷ s))
unfolding runes
runes-cons b s =
    ap (λ x. (decode_rune (b ∷ s)).0 ∷ x)
      (runes_from-fuel (length s) (length rest) rest
        (omega (arith, length-drop (size (b ∷ s)) (b ∷ s), size_bounds b s)) (omega arith))
  where
    rest : Bytes
    rest = drop (size (b ∷ s)) (b ∷ s)

-- Ranging over an encoded rune and what follows it gives the rune first.
pub runes-encode : (r : ℕ) (t : Bytes) → r < 0x800 → runes (encode_rune r ++ t) ≡ r ∷ runes t
runes-encode r t h = elim (Bool-cases (ltb r 0x80)) [
  | inl low ↦ rw (one low) (runes-cons r t ∙ tail1 low)
  | inr high ↦ rw (two high) (runes-cons _ _ ∙ tail2 high)
]
  where
    one : ltb r 0x80 ≡ true → encode_rune r ≡ r ∷ []
    one low = unfold encode_rune in rw low

    two : ltb r 0x80 ≡ false → encode_rune r ≡ (0xC0 + r / 64) ∷ (0x80 + r % 64) ∷ []
    two high = unfold encode_rune in ground arith

    tail1 :
        ltb r 0x80 ≡ true
        → (decode_rune (r ∷ t)).0 ∷ runes (drop (size (r ∷ t)) (r ∷ t)) ≡ r ∷ runes t
    tail1 low =
        ap (λ (p : ℕ × ℕ). p.0 ∷ runes (drop (p.1) (r ∷ t))) (rw (one low) at (decode-encode r t h))

    tail2 :
        ltb r 0x80 ≡ false
        → (let s : Bytes = (0xC0 + r / 64) ∷ (0x80 + r % 64) ∷ t in
            (decode_rune s).0 ∷ runes (drop (size s) s))
          ≡ r ∷ runes t
    tail2 high =
        ap (λ (p : ℕ × ℕ). p.0 ∷ runes (drop (p.1) ((0xC0 + r / 64) ∷ (0x80 + r % 64) ∷ t)))
          (rw (two high) at (decode-encode r t h))
