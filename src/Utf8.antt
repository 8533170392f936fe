-- ===== src/Utf8.antt =====
-- What the program uses of Go's unicode/utf8 and of ranging over a string: `DecodeRune`, `FullRune`,
-- `RuneError`, `RuneSelf` and `string(r)` for the runes of one or two bytes. A byte sequence that is
-- no rune counts as one byte and decodes to `RuneError`.
pub mod Size
pub mod Cut
pub mod Valid
pub mod Encode
use flash_qwen.Prelude.{
  ℕ, ◌+◌, ◌-◌, ◌*◌, ◌/◌, ◌%◌, Bool, true, false, not, ◌&&◌, ◌||◌, [], ◌∷◌, ltb, within, ◌==◌,
  if◌then◌else◌, Bytes, ◌≡◌, refl,
}

abbrev pub rune_error : ℕ
rune_error = 0xFFFD

abbrev pub rune_self : ℕ
rune_self = 0x80

-- The second byte is held to a range that the first byte selects.
second : ℕ → ℕ → Bool
second b0 b1 =
    within (if b0 == 0xE0 then 0xA0 else if b0 == 0xF0 then 0x90 else 0x80)
      (if b0 == 0xED then 0x9F else if b0 == 0xF4 then 0x8F else 0xBF) b1

cont : ℕ → Bool
cont b = within 0x80 0xBF b

abbrev bad : ℕ × ℕ
bad = (rune_error, 1)

decode2 : ℕ → Bytes → ℕ × ℕ
decode2 b0 [] = bad
decode2 b0 (b1 ∷ s) = if second b0 b1 then (b0 % 32 * 64 + b1 % 64, 2) else bad

decode3 : ℕ → Bytes → ℕ × ℕ
decode3 b0 (b1 ∷ b2 ∷ s) =
    if second b0 b1 && cont b2 then (b0 % 16 * 4096 + b1 % 64 * 64 + b2 % 64, 3) else bad
decode3 b0 _ = bad

decode4 : ℕ → Bytes → ℕ × ℕ
decode4 b0 (b1 ∷ b2 ∷ b3 ∷ s) =
    if second b0 b1 && cont b2 && cont b3
    then (b0 % 8 * 262144 + b1 % 64 * 4096 + b2 % 64 * 64 + b3 % 64, 4)
    else bad
decode4 b0 _ = bad

-- utf8.DecodeRune: the first rune and its size in bytes
unfoldable pub decode_rune : Bytes → ℕ × ℕ
unfolding second cont decode2 decode3 decode4
decode_rune [] = (rune_error, 0)
decode_rune (b0 ∷ s) =
    if ltb b0 rune_self
    then (b0, 1)
    else if ltb b0 0xC2
    then bad
    else if ltb b0 0xE0
    then decode2 b0 s
    else if ltb b0 0xF0
    then decode3 b0 s
    else if ltb b0 0xF5
    then decode4 b0 s
    else bad

full2 : Bytes → Bool
full2 [] = false
full2 (b1 ∷ s) = true

full3 : ℕ → Bytes → Bool
full3 b0 [] = false
full3 b0 (b1 ∷ []) = not (second b0 b1)
full3 b0 (b1 ∷ b2 ∷ s) = true

full4 : ℕ → Bytes → Bool
full4 b0 [] = false
full4 b0 (b1 ∷ []) = not (second b0 b1)
full4 b0 (b1 ∷ b2 ∷ []) = not (second b0 b1) || not (cont b2)
full4 b0 (b1 ∷ b2 ∷ b3 ∷ s) = true

-- utf8.FullRune: more bytes would not change the first rune
unfoldable pub full_rune : Bytes → Bool
unfolding second cont full2 full3 full4
full_rune [] = false
full_rune (b0 ∷ s) =
    if ltb b0 0xC2
    then true
    else if ltb b0 0xE0
    then full2 s
    else if ltb b0 0xF0
    then full3 b0 s
    else if ltb b0 0xF5
    then full4 b0 s
    else true

decode_euro : decode_rune (0xE2 ∷ 0x82 ∷ 0xAC ∷ b'x' ∷ []) ≡ (0x20AC, 3)
unfolding decode_rune
decode_euro = refl

surrogate_is_bad : decode_rune (0xED ∷ 0xA0 ∷ 0x80 ∷ []) ≡ (rune_error, 1)
unfolding decode_rune
surrogate_is_bad = refl
