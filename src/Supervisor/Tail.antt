-- ===== src/Supervisor/Tail.antt =====
-- The tail buffer after any writes.
use flash_qwen.Prelude.{
  ℕ, zero, suc, ◌+◌, ◌-◌, ◌≤◌, List, [], ◌∷◌, ◌++◌, append_assoc, append-nil, length, length-append,
  length-drop, drop, drop-drop, concat, ltb, Bytes, ◌≡◌, refl, sym, ap, ◌∙◌, arith, Bool-cases, inl,
  inr,
}
use flash_qwen.Supervisor.{TailBuffer, write}

-- The last `n` bytes.
abbrev pub last : ℕ → Bytes → Bytes
last n s = drop (length s - n) s

pub writes : TailBuffer → List Bytes → TailBuffer
writes t [] = t
writes t (p ∷ ps) = writes (write t p).0 ps

drop-append_left : (n : ℕ) (s t : Bytes) → n ≤ length s → drop n (s ++ t) ≡ drop n s ++ t
drop-append_left zero s t h = refl
drop-append_left (suc n) [] t h = absurd (omega arith)
drop-append_left (suc n) (b ∷ s) t h = drop-append_left n s t (omega arith)

-- Dropping early bytes first does not change the last ones.
pub last-append : (n : ℕ) (s t : Bytes) → last n (last n s ++ t) ≡ last n (s ++ t)
last-append n s t =
    let k : ℕ = length s - n in
    ap (λ x. last n x) (sym (drop-append_left k s t (omega arith)))
    ∙ ap (λ m. drop (m - n) (drop k (s ++ t))) (length-drop k (s ++ t))
    ∙ drop-drop (length (s ++ t) - k - n) k (s ++ t)
    ∙ ap (λ m. drop m (s ++ t)) {x = k + (length (s ++ t) - k - n)} {y = length (s ++ t) - n}
        (omega (arith, length-append s t))

pub write-last :
    (t : TailBuffer) (p : Bytes)
    → ((write t p).0.buf ≡ last t.max (t.buf ++ p)) × ((write t p).0.max ≡ t.max)
unfolding write
write-last t p = elim (Bool-cases (ltb t.max (length (t.buf ++ p)))) [
  | inl over ↦ rw over (refl, refl)
  | inr fits ↦
      rw fits (
        ap (λ m. drop m (t.buf ++ p)) {x = 0} {y = length (t.buf ++ p) - t.max} (ground arith),
        refl,
      )
]

writes-last :
    (t : TailBuffer) (ps : List Bytes) (s : Bytes)
    → t.buf ≡ last t.max s
    → (writes t ps).buf ≡ last t.max (s ++ concat ps)
unfolding writes
writes-last t [] s h = h ∙ ap (last t.max) (sym (append-nil s))
writes-last t (p ∷ ps) s h =
    let (buf, max) = write-last t p in
    writes-last (write t p).0 ps (s ++ p) (
      buf
      ∙ ap (λ x. last t.max (x ++ p)) h
      ∙ last-append t.max s p
      ∙ ap (λ m. last m (s ++ p)) (sym max))
    ∙ ap (λ m. last m ((s ++ p) ++ concat ps)) max
    ∙ ap (last t.max) (append_assoc s p (concat ps))

last-length : (n : ℕ) (s : Bytes) → length (last n s) ≤ n
last-length n s = omega (arith, length-drop (length s - n) s)

-- After any writes, however the output is cut into them, an empty buffer holds exactly the last `max`
-- bytes of all that was written, and never more than `max`.
pub writes_tail :
    (max : ℕ) (ps : List Bytes)
    → (let t = writes (record { buf = []; max = max }) ps in
        (t.buf ≡ last max (concat ps)) × (length t.buf ≤ max))
writes_tail max ps =
    let e =
      writes-last (record { buf = []; max = max }) ps []
        (ap (λ m. drop m []) {x = 0} {y = 0 - max} (omega arith)) in
    (e, omega (arith, ap length e, last-length max (concat ps)))
