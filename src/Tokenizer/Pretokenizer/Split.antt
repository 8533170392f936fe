-- ===== src/Tokenizer/Pretokenizer/Split.antt =====
-- The pieces of a text, joined, are the text.
use flash_qwen.Prelude.{
  ℕ, zero, suc, ◌+◌, ◌≤◌, List, [], ◌∷◌, ◌++◌, length, drop, length-drop, slice-append-drop,
  drop_all, concat, ltb, ◌≡◌, refl, sym, ap, ◌∙◌, arith, Bool-cases, inl, inr, Bytes,
}
use flash_qwen.Tokenizer.Pretokenizer.{
  Cp, cps_from, decode_cps, off_at, bytes_of, piece_end, pieces_from, pieces,
}
use flash_qwen.Tokenizer.Pretokenizer.Progress.{piece_end_bounds}
use flash_qwen.Utf8.Size.{size, size_bounds}

-- The offsets of the runes begin at `off`, rise, and end at `top`.
off_at-cps_from :
    (f : ℕ) (s : Bytes) (off : ℕ)
    → length s ≤ f
    → off_at (cps_from f s off) (off + length s) 0 ≡ off
unfolding cps_from
off_at-cps_from zero [] off h = omega arith
off_at-cps_from zero (b ∷ s) off h = absurd (omega arith)
off_at-cps_from (suc f) [] off h = omega arith
off_at-cps_from (suc f) (b ∷ s) off h = refl

abbrev Rises : List Cp → ℕ → ℕ → Type 0
Rises [] lo top = lo ≤ top
Rises (c ∷ cps) lo top = (lo ≤ c.off) × Rises cps c.off top

Rises-weaken : (cps : List Cp) (lo lo' top : ℕ) → lo' ≤ lo → Rises cps lo top → Rises cps lo' top
Rises-weaken [] lo lo' top h r = omega arith
Rises-weaken (c ∷ cps) lo lo' top h r = (omega arith, r.1)

cps_from-Rises :
    (f : ℕ) (s : Bytes) (off top : ℕ) → off + length s ≡ top → Rises (cps_from f s off) off top
unfolding cps_from
cps_from-Rises zero s off top h = omega arith
cps_from-Rises (suc f) [] off top h = omega arith
cps_from-Rises (suc f) (b ∷ s) off top h = (
  omega arith,
  Rises-weaken _ (off + size (b ∷ s)) off top (omega arith) (
      cps_from-Rises f (drop (size (b ∷ s)) (b ∷ s)) (off + size (b ∷ s)) top
        (omega (arith, length-drop (size (b ∷ s)) (b ∷ s), size_bounds b s))),
)

off_at-ge : (cps : List Cp) (lo top j : ℕ) → Rises cps lo top → lo ≤ off_at cps top j
off_at-ge [] lo top j r = r
off_at-ge (c ∷ cps) lo top zero r = r.0
off_at-ge (c ∷ cps) lo top (suc j) r =
    off_at-ge cps lo top j (Rises-weaken cps c.off lo top r.0 r.1)

-- A later rune has no smaller offset.
off_at_mono :
    (cps : List Cp) (lo top i j : ℕ)
    → Rises cps lo top
    → i ≤ j
    → off_at cps top i ≤ off_at cps top j
off_at_mono [] lo top i j r h = omega arith
off_at_mono (c ∷ cps) lo top zero zero r h = omega arith
off_at_mono (c ∷ cps) lo top zero (suc j) r h = off_at-ge cps c.off top j r.1
off_at_mono (c ∷ cps) lo top (suc i) zero r h = absurd (omega arith)
off_at_mono (c ∷ cps) lo top (suc i) (suc j) r h = off_at_mono cps c.off top i j r.1 (omega arith)

off_at_end : (cps : List Cp) (top i : ℕ) → length cps ≤ i → off_at cps top i ≡ top
off_at_end [] top i h = refl
off_at_end (c ∷ cps) top zero h = absurd (omega arith)
off_at_end (c ∷ cps) top (suc i) h = off_at_end cps top i (omega arith)

module _ (text : Bytes) (cps : List Cp) (r : Rises cps 0 (length text)) where
  bytes_of-append :
      (i j : ℕ)
      → i ≤ j
      → bytes_of text cps i j ++ drop (off_at cps (length text) j) text
        ≡ drop (off_at cps (length text) i) text
  unfolding bytes_of
  bytes_of-append i j h =
      slice-append-drop (off_at cps (length text) i) (off_at cps (length text) j) text
        (off_at_mono cps 0 (length text) i j r h)

  drop_end : (i : ℕ) → length cps ≤ i → drop (off_at cps (length text) i) text ≡ []
  drop_end i h = rw (off_at_end cps (length text) i h) (drop_all (length text) text (omega arith))

  concat-pieces_from :
      (f i : ℕ)
      → length cps ≤ f + i
      → concat (pieces_from f text cps i) ≡ drop (off_at cps (length text) i) text
  unfolding pieces_from
  concat-pieces_from zero i h = sym (drop_end i (omega arith))
  concat-pieces_from (suc f) i h = elim (Bool-cases (ltb i (length cps))) [
    | inr over ↦ rw over (sym (drop_end i (ground arith)))
    | inl inside ↦
        let (first, last) = piece_end_bounds cps i (ground arith) in
        rw inside (
          ap (λ x. bytes_of text cps i (piece_end cps i) ++ x)
            (concat-pieces_from f (piece_end cps i) (omega arith))
          ∙ bytes_of-append i (piece_end cps i) (omega arith))
  ]

-- The splitting loop stops, and loses, repeats and reorders nothing: the words that it hands to
-- `applyBPE`, joined in order, are the text, whatever bytes it holds.
pub concat-pieces : (text : Bytes) → concat (pieces text) ≡ text
unfolding pieces decode_cps
concat-pieces text =
    concat-pieces_from text (cps_from (length text) text 0)
      (cps_from-Rises (length text) text 0 (length text) (omega arith))
      (length (cps_from (length text) text 0)) 0 (omega arith)
    ∙ ap (λ n. drop n text) (start ∙ off_at-cps_from (length text) text 0 (omega arith))
  where
    start :
        off_at (cps_from (length text) text 0) (length text) 0
        ≡ off_at (cps_from (length text) text 0) (0 + length text) 0
    start = ap (λ n. off_at (cps_from (length text) text 0) n 0) (omega arith)
