-- ===== src/Server/Routes/Ids.antt =====
-- internal/server/types.go: `newID` does not merge two random numbers.
use flash_qwen.Prelude.{
  ℕ, zero, suc, ◌/◌, ◌%◌, ◌^◌, ◌<◌, [], ◌∷◌, ◌++◌, length, length-append, Bytes, codes, ◌≡◌, refl,
  sym, ap, ◌∙◌, arith,
}
use flash_qwen.Server.Routes.{hex_digit, hex_from, hex16, new_id}

hex_digit_injective : (c d : ℕ) → c < 16 → d < 16 → hex_digit c ≡ hex_digit d → c ≡ d
unfolding hex_digit
hex_digit_injective c d p q e = ground arith

-- Fronts of the same length agree, and so do the rests.
append_parts :
    (xs ys us vs : Bytes) → length xs ≡ length ys → xs ++ us ≡ ys ++ vs → (xs ≡ ys) × (us ≡ vs)
append_parts [] [] us vs l e = (refl, e)
append_parts [] (y ∷ ys) us vs l e = absurd (omega arith)
append_parts (x ∷ xs) [] us vs l e = absurd (omega arith)
append_parts (x ∷ xs) (y ∷ ys) us vs l e =
    let (same, rest) = append_parts xs ys us vs (omega arith) (cc) in (cc, rest)

length-hex_from : (k n : ℕ) → length (hex_from k n) ≡ k
unfolding hex_from
length-hex_from zero n = refl
length-hex_from (suc k) n = omega (
  arith,
  length-append (hex_from k (n / 16)) (hex_digit (n % 16) ∷ []),
  length-hex_from k (n / 16),
)

-- `n` has at most `k` digits.
abbrev Fits : ℕ → ℕ → Type 0
Fits zero n = n ≡ 0
Fits (suc k) n = Fits k (n / 16)

hex_from_injective : (k m n : ℕ) → Fits k m → Fits k n → hex_from k m ≡ hex_from k n → m ≡ n
unfolding hex_from
hex_from_injective zero m n p q e = p ∙ sym q
hex_from_injective (suc k) m n p q e =
    let (front, digit) =
      append_parts (hex_from k (m / 16)) (hex_from k (n / 16)) _ _
        (length-hex_from k (m / 16) ∙ sym (length-hex_from k (n / 16))) e in
    omega (
      arith,
      hex_from_injective k (m / 16) (n / 16) p q front,
      hex_digit_injective (m % 16) (n % 16) (omega arith) (omega arith)
          (ap (λ (l : Bytes). first l) digit),
    )
  where
    first : Bytes → ℕ
    first [] = 0
    first (b ∷ s) = b

Fits-u64 : (n : ℕ) → n < 2 ^ 64 → Fits 16 n
Fits-u64 n h = omega arith

-- Two ids of completions are the same only when both of their 64-bit random numbers are.
pub new_id_injective :
    (a b c d : ℕ)
    → a < 2 ^ 64
    → b < 2 ^ 64
    → c < 2 ^ 64
    → d < 2 ^ 64
    → new_id a b ≡ new_id c d
    → (a ≡ c) × (b ≡ d)
unfolding new_id hex_from hex16
new_id_injective a b c d p q r s e =
    let (_, random) = append_parts (codes "chatcmpl-") (codes "chatcmpl-") _ _ refl e in
    let (first, second) =
      append_parts (hex_from 16 a) (hex_from 16 c) _ _
        (length-hex_from 16 a ∙ sym (length-hex_from 16 c)) random in
    (
      hex_from_injective 16 a c (Fits-u64 a p) (Fits-u64 c r) first,
      hex_from_injective 16 b d (Fits-u64 b q) (Fits-u64 d s) second,
    )
