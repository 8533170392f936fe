-- ===== src/Tokenizer/Pretokenizer.antt =====
-- `decodeCPs` and the splitting loop of `pretokenizeAndBPE`. Each round of the loop hands the bytes
-- from rune `i` up to rune `piece_end i` to `applyBPE` and goes on there.
pub mod Progress
pub mod Split
use flash_qwen.Prelude.{
  ℕ, zero, suc, ◌+◌, ◌-◌, Bool, true, false, not, ◌&&◌, ◌||◌, List, [], ◌∷◌, Option, none, some,
  length, get_or, take, drop, ltb, leb, ◌==◌, if◌then◌else◌, Bytes, codes, ◌≡◌, refl,
}
use flash_qwen.Tokenizer.Chars.{is_number, is_space, is_newline, is_letter, is_punct, lower}
use flash_qwen.Utf8.Size.{size}
use flash_qwen.Utf8.{decode_rune}

pub record Cp : Type 0 where
  pub r : ℕ
  pub off : ℕ

cps_from : ℕ → Bytes → ℕ → List Cp
cps_from zero s off = []
cps_from (suc f) [] off = []
cps_from (suc f) (b ∷ s) off =
    record { r = (decode_rune (b ∷ s)).0; off = off }
    ∷ cps_from f (drop (size (b ∷ s)) (b ∷ s)) (off + size (b ∷ s))

pub decode_cps : Bytes → List Cp
unfolding cps_from
decode_cps s = cps_from (length s) s 0

-- cps[i].r
abbrev rune_at : List Cp → ℕ → ℕ
rune_at cps i = (get_or cps i (record { r = 0; off = 0 })).r

-- cps[i].off, and the length of the text behind the last rune
abbrev off_at : List Cp → ℕ → ℕ → ℕ
off_at [] end i = end
off_at (c ∷ cps) end zero = c.off
off_at (c ∷ cps) end (suc i) = off_at cps end i

bytes_of : Bytes → List Cp → ℕ → ℕ → Bytes
bytes_of text cps a b =
    let bo = off_at cps (length text) a in
    let eo = off_at cps (length text) b in take (eo - bo) (drop bo text)

-- for j < n && p(cps[j].r) { j++ }
while_from : (ℕ → Bool) → List Cp → ℕ → ℕ
while_from p [] j = j
while_from p (c ∷ rest) j = if p c.r then while_from p rest (j + 1) else j

skip : (ℕ → Bool) → List Cp → ℕ → ℕ
unfolding while_from
skip p cps j = while_from p (drop j cps) j

-- The loop over a run of spaces also keeps the place of the last newline.
space_run : List Cp → ℕ → Option ℕ → ℕ × Option ℕ
space_run [] j last = (j, last)
space_run (c ∷ rest) j last =
    if is_space c.r
    then space_run rest (j + 1) (if is_newline c.r then some j else last)
    else (j, last)

-- How many runes a contraction at `i` takes, 0 if there is none.
contraction : List Cp → ℕ → ℕ
contraction cps i =
    let n = length cps in
    let a = lower (rune_at cps (i + 1)) in
    let b = if ltb (i + 2) n then lower (rune_at cps (i + 2)) else 0 in
    if rune_at cps i == b'\'' && ltb (i + 1) n
    then (if a == b's' || a == b't' || a == b'm' || a == b'd'
        then 2
        else if (a == b'r' && b == b'e') || (a == b'v' && b == b'e') || (a == b'l' && b == b'l')
        then 3
        else 0)
    else 0

-- case 5 of the loop
space_end : List Cp → ℕ → ℕ
unfolding space_run
space_end cps i =
    let (j, last) = space_run (drop i cps) i none in
    elim last [
      | some l ↦ l + 1
      | none ↦
          if ltb j (length cps) && not (is_space (rune_at cps j)) && leb 2 (j - i) then j - 1 else j
    ]

-- cases 4 to 6: punctuation, spaces, and a rune by itself
other_end : List Cp → ℕ → ℕ
other_end cps i =
    let c = rune_at cps i in
    let k =
      if c == b' ' && ltb (i + 1) (length cps) && is_punct (rune_at cps (i + 1))
      then i + 1
      else i in
    if is_punct (rune_at cps k)
    then skip is_newline cps (skip is_punct cps k)
    else if is_space c
    then space_end cps i
    else i + 1

-- Where the piece that begins at rune `i` ends.
pub piece_end : List Cp → ℕ → ℕ
piece_end cps i =
    let c = rune_at cps i in
    let l = contraction cps i in
    if ltb 0 l
    then i + l
    else if is_letter c
    then skip is_letter cps (i + 1)
    else if not (is_newline c)
        && not (is_number c)
        && ltb (i + 1) (length cps)
        && is_letter (rune_at cps (i + 1))
    then skip is_letter cps (i + 2)
    else if is_number c
    then i + 1
    else other_end cps i

pieces_from : ℕ → Bytes → List Cp → ℕ → List Bytes
pieces_from zero text cps i = []
pieces_from (suc f) text cps i =
    let more = bytes_of text cps i (piece_end cps i) ∷ pieces_from f text cps (piece_end cps i) in
    if ltb i (length cps) then more else []

-- The words that the loop hands to `applyBPE`, in order.
unfoldable pub pieces : Bytes → List Bytes
unfolding decode_cps bytes_of piece_end contraction skip other_end space_end pieces_from
pieces text = let cps = decode_cps text in pieces_from (length cps) text cps 0
