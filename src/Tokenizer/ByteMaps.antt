-- ===== src/Tokenizer/ByteMaps.antt =====
-- `buildByteMaps` and `symToBytes`: the GPT-2 table between bytes and the runes that spell them.
use flash_qwen.Prelude.{
  ℕ, zero, suc, ◌+◌, ◌<◌, ◌≤◌, Bool-cases, inl, inr, Bool, true, false, ◌&&◌, ◌||◌, List, [], ◌∷◌,
  ◌++◌, Option, none, some, map, get_or, ltb, within, ◌==◌, if◌then◌else◌, Bytes, All, ◌≡◌, refl,
  arith, append_assoc, append-nil, sym, ap, ◌∙◌, length,
}
use flash_qwen.Utf8.Encode.{encode_rune, runes, runes-encode}

printable : ℕ → Bool
printable b = within b'!' b'~' b || within 0xA1 0xAC b || within 0xAE 0xFF b

-- The runes of the bytes from `b` on; `n` counts those that are not printable.
byte_cps : ℕ → ℕ → ℕ → List ℕ
byte_cps zero b n = []
byte_cps (suc rounds) b n =
    let shown = printable b in
    (if shown then b else 256 + n) ∷ byte_cps rounds (b + 1) (if shown then n else n + 1)

cps : List ℕ
unfolding byte_cps printable
cps = byte_cps 256 0 0

unfoldable pub byte_to_sym : List Bytes
unfolding cps encode_rune
byte_to_sym = map encode_rune cps

number_from : ℕ → List ℕ → List (ℕ × ℕ)
number_from b [] = []
number_from b (cp ∷ rest) = (cp, b) ∷ number_from (b + 1) rest

unfoldable pub cp_to_byte : List (ℕ × ℕ)
unfolding cps number_from
cp_to_byte = number_from 0 cps

pub lookup_cp : ℕ → List (ℕ × ℕ) → Option ℕ
lookup_cp cp [] = none
lookup_cp cp ((k, b) ∷ m) = if k == cp then some b else lookup_cp cp m

unsymbol : List (ℕ × ℕ) → List ℕ → Bytes
unsymbol m [] = []
unsymbol m (cp ∷ rest) = elim (lookup_cp cp m) [
  | none ↦ unsymbol m rest
  | some b ↦ b ∷ unsymbol m rest
]

unfoldable pub sym_to_bytes : List (ℕ × ℕ) → Bytes → Bytes
unfolding unsymbol lookup_cp runes
sym_to_bytes m sym = unsymbol m (runes sym)

-- t.byteToSym[b]
abbrev pub sym_of : List Bytes → ℕ → Bytes
sym_of table b = get_or table b []

abbrev check_byte : ℕ → Bool
check_byte b =
    ltb (get_or cps b 0) 0x800
    && (elim (lookup_cp (get_or cps b 0) cp_to_byte) [ none ↦ false | some c ↦ c == b ])

-- A test holds for the `k` numbers from `lo` on.
unfoldable pub every : (ℕ → Bool) → ℕ → ℕ → Bool
every test zero lo = true
every test (suc k) lo = test lo && every test k (lo + 1)

pub test-every :
    (test : ℕ → Bool) (k lo b : ℕ) → lo ≤ b → b < lo + k → every test k lo ≡ true → test b ≡ true
unfolding every
test-every test zero lo b from upto all = absurd (omega arith)
test-every test (suc k) lo b from upto all = elim (Bool-cases (lo == b)) [
  | inl here ↦ ground (arith, ap test {x = lo} {y = b})
  | inr further ↦ test-every test k (lo + 1) b (ground arith) (ground arith) (ground (arith, all))
]

byte_table : every check_byte 256 0 ≡ true
unfolding every byte_cps printable cps number_from cp_to_byte lookup_cp
byte_table = refl

byte_checked : (b : ℕ) → b < 256 → check_byte b ≡ true
byte_checked b h = test-every check_byte 256 0 b (omega arith) h byte_table

checked :
    (b : ℕ) → b < 256 → (get_or cps b 0 < 0x800) × (lookup_cp (get_or cps b 0) cp_to_byte ≡ some b)
checked b h = ground (arith, byte_checked b h)

get_or-map :
    (xs : List ℕ) (b : ℕ)
    → b < length xs
    → get_or (map encode_rune xs) b [] ≡ encode_rune (get_or xs b 0)
get_or-map [] b h = absurd (omega arith)
get_or-map (x ∷ xs) zero h = refl
get_or-map (x ∷ xs) (suc b) h = get_or-map xs b (omega arith)

length-cps : length cps ≡ 256
unfolding cps byte_cps printable
length-cps = refl

sym_of-cp : (b : ℕ) → b < 256 → sym_of byte_to_sym b ≡ encode_rune (get_or cps b 0)
unfolding byte_to_sym
sym_of-cp b h = get_or-map cps b (omega (arith, length-cps))

unsymbol-some :
    (m : List (ℕ × ℕ)) (cp b : ℕ) (rest : List ℕ)
    → lookup_cp cp m ≡ some b
    → unsymbol m (cp ∷ rest) ≡ b ∷ unsymbol m rest
unfolding unsymbol
unsymbol-some m cp b rest e = rw (e, unsymbol)

-- How a run of bytes is spelled in symbols.
abbrev pub spell : Bytes → Bytes
spell [] = []
spell (b ∷ s) = sym_of byte_to_sym b ++ spell s

pub spell-append : (s t : Bytes) → spell (s ++ t) ≡ spell s ++ spell t
spell-append [] t = refl
spell-append (b ∷ s) t = simp (spell-append s t, append_assoc)

-- Spelled bytes are read back, whatever symbols follow.
pub sym_to_bytes-append :
    (s rest : Bytes)
    → All (λ b. b < 256) s
    → sym_to_bytes cp_to_byte (spell s ++ rest) ≡ s ++ sym_to_bytes cp_to_byte rest
unfolding sym_to_bytes
sym_to_bytes-append [] rest h = refl
sym_to_bytes-append (b ∷ s) rest (hb, hs) =
    ap (λ x. unsymbol cp_to_byte (runes x)) (append_assoc (sym_of byte_to_sym b) (spell s) rest)
    ∙ rw (sym_of-cp b hb) (
        rw (runes-encode (get_or cps b 0) (spell s ++ rest) (checked b hb).0) (
          rw
            (unsymbol-some cp_to_byte (get_or cps b 0) b (runes (spell s ++ rest)) (checked b hb).1)
            (ap (◌∷◌ b) (sym_to_bytes-append s rest hs))))

-- The byte 1, which joins the keys of merges, spells no byte and is left out.
pub sym_to_bytes-join :
    (rest : Bytes) → sym_to_bytes cp_to_byte (1 ∷ rest) ≡ sym_to_bytes cp_to_byte rest
unfolding sym_to_bytes
sym_to_bytes-join rest =
    ap (unsymbol cp_to_byte) {x = runes (1 ∷ rest)} {y = 1 ∷ runes rest}
      (unfold encode_rune in runes-encode 1 rest (omega arith))
    ∙ (unfold unsymbol lookup_cp cp_to_byte number_from cps byte_cps printable in refl)

sym_to_bytes-nil : sym_to_bytes cp_to_byte [] ≡ []
unfolding sym_to_bytes runes
sym_to_bytes-nil = refl

-- The two tables are inverse to each other: spelled bytes are read back.
pub sym_to_bytes-spell : (s : Bytes) → All (λ b. b < 256) s → sym_to_bytes cp_to_byte (spell s) ≡ s
sym_to_bytes-spell s h =
    ap (sym_to_bytes cp_to_byte) (sym (append-nil (spell s)))
    ∙ sym_to_bytes-append s [] h
    ∙ ap (λ x. s ++ x) sym_to_bytes-nil
    ∙ append-nil s
