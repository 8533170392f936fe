-- ===== src/Chatml/Stream/Runes.antt =====
-- `takeRunes` hands out exactly the whole runes of what is pending.
use mathlib.Core.Path.{subst}
use flash_qwen.Chatml.Stream.{Stream, runes_end, take_runes}
use flash_qwen.Prelude.{
  ℕ, zero, suc, ◌+◌, ◌-◌, ◌≤◌, ◌<◌, true, false, [], ◌∷◌, ◌++◌, length, length-drop, get_or, take,
  drop, drop-drop, drop_all, ltb, ◌==◌, Bytes, ◌≡◌, refl, sym, ap, ◌∙◌, arith, Bool-cases, inl, inr,
}
use flash_qwen.Utf8.Cut.{Cut, stop, step, full_rune-size}
use flash_qwen.Utf8.Size.{size, full_rune_ascii}
use flash_qwen.Utf8.{full_rune, rune_self}

take-nil : (n : ℕ) → take {A = ℕ} n [] ≡ []
take-nil zero = refl
take-nil (suc n) = refl

take-add : (m n : ℕ) (s : Bytes) → take (m + n) s ≡ take m s ++ take n (drop m s)
take-add zero n s = ap (λ k. take k s) (omega arith)
take-add (suc m) n [] = take-nil (suc m + n) ∙ sym (take-nil n)
take-add (suc m) n (b ∷ s) =
    ap (λ k. take k (b ∷ s)) {x = suc m + n} {y = suc (m + n)} (omega arith)
    ∙ ap (◌∷◌ b) (take-add m n s)

drop-cons : (p : Bytes) (i : ℕ) → i < length p → drop i p ≡ get_or p i 0 ∷ drop (suc i) p
drop-cons [] i h = absurd (omega arith)
drop-cons (b ∷ p) zero h = refl
drop-cons (b ∷ p) (suc i) h = drop-cons p i (omega arith)

-- An ASCII byte at `i` is a full rune of size one.
ascii_at :
    (p : Bytes) (i : ℕ)
    → i < length p
    → ltb (get_or p i 0) rune_self ≡ true
    → (full_rune (drop i p) ≡ true) × (size (drop i p) ≡ 1)
ascii_at p i h low =
    let (full, one) = full_rune_ascii (get_or p i 0) (drop (suc i) p) low in
    (ap full_rune (drop-cons p i h) ∙ full, ap size (drop-cons p i h) ∙ ap (λ (x : ℕ × ℕ). x.1) one)

full_inside : (p : Bytes) (i : ℕ) → full_rune (drop i p) ≡ true → i < length p
full_inside p i h = elim (Bool-cases (ltb i (length p))) [
  | inl inside ↦ ground arith
  | inr over ↦ absurd (empty (drop_all i p (ground arith)))
]
  where
    empty : drop i p ≡ [] → ⊥
    empty e = omega (arith, full_rune-size (drop i p) h, ap length e)

-- A round of the loop that goes on takes one rune.
runes_end-full :
    (f : ℕ) (p : Bytes) (i : ℕ)
    → full_rune (drop i p) ≡ true
    → runes_end (suc f) p i ≡ runes_end f p (i + size (drop i p))
unfolding runes_end
runes_end-full f p i h = elim (Bool-cases (ltb (get_or p i 0) rune_self)) [
  | inl low ↦ ground (
    arith,
    full_inside p i h,
    ap (λ k. runes_end f p (i + k)) (ascii_at p i (full_inside p i h) low).1,
  )
  | inr high ↦ ground (arith, full_inside p i h)
]

-- The loop ends where no full rune begins.
runes_end-stop :
    (f : ℕ) (p : Bytes) (i : ℕ) → full_rune (drop i p) ≡ false → runes_end (suc f) p i ≡ i
unfolding runes_end
runes_end-stop f p i h = elim (Bool-cases (ltb (get_or p i 0) rune_self)) [
  | inl low ↦ ground (arith, ascii_at p i)
  | inr high ↦ ground arith
]

-- From place `i` the loop ends at a place `e` inside the bytes, and the bytes between are whole runes.
record EndsAt (p : Bytes) (i e : ℕ) : Type 0 where
  from : i ≤ e
  upto : e ≤ length p
  cut : Cut (drop e p) (drop i p) (take (e - i) (drop i p))

EndsAt-step :
    (p : Bytes) (i e : ℕ)
    → full_rune (drop i p) ≡ true
    → EndsAt p (i + size (drop i p)) e
    → EndsAt p i e
EndsAt-step p i e h v =
    let n : ℕ = size (drop i p) in
    record {
      from = omega (arith, v.from);
      upto = v.upto;
      cut =
          step (take (e - (i + n)) (drop (i + n) p)) h
            (ap (λ k. take k (drop i p)) {x = e - i} {y = n + (e - (i + n))} (omega (arith, v.from))
              ∙ take-add n (e - (i + n)) (drop i p)
              ∙ ap (λ x. take n (drop i p) ++ take (e - (i + n)) x) (drop-drop n i p))
            (subst (λ x. Cut (drop e p) x (take (e - (i + n)) (drop (i + n) p)))
              (sym (drop-drop n i p)) v.cut);
    }

EndsAt-stop : (p : Bytes) (i : ℕ) → i ≤ length p → full_rune (drop i p) ≡ false → EndsAt p i i
EndsAt-stop p i h f = record {
  from = omega arith;
  upto = h;
  cut = stop (ap (λ k. take k (drop i p)) {x = i - i} {y = 0} (omega arith)) refl f;
}

pub full_rune-nil : full_rune [] ≡ false
unfolding full_rune
full_rune-nil = refl

runes_end-EndsAt :
    (f : ℕ) (p : Bytes) (i : ℕ) → i ≤ length p → length p ≤ f + i → EndsAt p i (runes_end f p i)
runes_end-EndsAt zero p i h k =
    unfold runes_end in
    EndsAt-stop p i h (ap full_rune (drop_all i p (omega arith)) ∙ full_rune-nil)
runes_end-EndsAt (suc f) p i h k = elim (Bool-cases (full_rune (drop i p))) [
  | inr ended ↦ rw (runes_end-stop f p i ended) (EndsAt-stop p i h ended)
  | inl full ↦
      let (least, most) = full_rune-size (drop i p) full in
      rw (runes_end-full f p i full) (
        EndsAt-step p i (runes_end f p (i + size (drop i p))) full (
          runes_end-EndsAt f p (i + size (drop i p)) (omega (arith, length-drop i p))
            (omega arith)))
]

whole_runes : (p : Bytes) (e : ℕ) → EndsAt p 0 e → Cut (drop e p) p (take e p)
whole_runes p e v = subst (λ k. Cut (drop e p) p (take k p)) {x = e - 0} {y = e} (omega arith) v.cut

-- `takeRunes` stops, stays inside the buffer, hands out the whole runes at the front of it and keeps
-- the rest, which begins with no full rune.
pub take_runes-Cut : (s : Stream) → Cut (take_runes s).0.pending s.pending (take_runes s).1
unfolding take_runes
take_runes-Cut s =
    let e : ℕ = runes_end (length s.pending) s.pending 0 in
    let cut =
      whole_runes s.pending e
        (runes_end-EndsAt (length s.pending) s.pending 0 (omega arith) (omega arith)) in
    elim (Bool-cases (e == 0)) [
      | inl none_whole ↦ rw none_whole (
          subst (λ k. Cut (drop k s.pending) s.pending (take k s.pending)) {x = e} {y = 0}
            (ground arith) cut)
      | inr some_whole ↦ rw some_whole cut
    ]
