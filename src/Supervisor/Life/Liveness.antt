-- ===== src/Supervisor/Life/Liveness.antt =====
-- `Stop` returns once the process is dead.
use flash_qwen.Prelude.{
  ℕ, zero, suc, ◌+◌, ◌≤◌, ◌<◌, false, [], ◌∷◌, append-nil, Option, length, length-append, ◌==◌,
  Bytes, ◌≡◌, refl, sym, ap, ◌∙◌, ◌⊎◌, inl, inr, arith, Bool-cases, ==_iff,
}
use flash_qwen.Supervisor.Life.{
  Child, alive, dead, Reaper, waiting, stored, closed, Life, Runs, emits, copies, dies, waits,
  closes, StopPc, idle, signalled, received, finished, Stops, signals, receives, removes, System,
  update, Step, runs, stops, Leads, here, next,
}
use flash_qwen.Supervisor.{write}

-- What the reaper and a call have left to do.
abbrev reaper_left : Reaper → ℕ
reaper_left waiting = 2
reaper_left stored = 1
reaper_left closed = 0

abbrev call_left : StopPc → ℕ
call_left idle = 3
call_left signalled = 2
call_left received = 1
call_left finished = 0

abbrev pub left_to_do : ℕ → System → ℕ
left_to_do i s = length s.life.pipe + reaper_left s.life.reaper + call_left (s.pc i)

update_self : (pc : ℕ → StopPc) (i : ℕ) (q : StopPc) → update pc i q i ≡ q
update_self pc i q = ground (arith, ==_iff i i)

alive_dead : {c : Child} {e : Option Bytes} → c ≡ alive → c ≡ dead e → ⊥
alive_dead a d = cc

Runs-le :
    {s t : Life} {x : Option Bytes}
    → Runs s t
    → s.child ≡ dead x
    → length t.pipe + reaper_left t.reaper ≤ length s.pipe + reaper_left s.reaper
Runs-le (emits p a e) d = absurd (alive_dead a d)
Runs-le (copies p rest n a e) d = rw (e, a) (omega (arith, length-append p rest))
Runs-le (dies x a e) d = absurd (alive_dead a d)
Runs-le (waits x a b c e) d = rw (e, c) (omega arith)
Runs-le (closes a e) d = rw (e, a) (omega arith)

Runs-dead : {s t : Life} {x : Option Bytes} → Runs s t → s.child ≡ dead x → t.child ≡ dead x
Runs-dead (emits p a e) d = absurd (alive_dead a d)
Runs-dead (copies p rest n a e) d = rw e d
Runs-dead (dies x a e) d = absurd (alive_dead a d)
Runs-dead (waits x a b c e) d = rw e d
Runs-dead (closes a e) d = rw e d

Stops-le :
    {p q : StopPc} {s t : Life}
    → Stops p s q t
    → (t.pipe ≡ s.pipe) × (t.reaper ≡ s.reaper) × (t.child ≡ s.child) × (call_left q < call_left p)
Stops-le (signals a b e) = rw (a, b, e) (refl, refl, refl, omega arith)
Stops-le (receives a c b e) = rw (a, b, e) (refl, refl, refl, omega arith)
Stops-le (removes a b e) = rw (a, b, e) (refl, refl, refl, omega arith)

update-le :
    (pc : ℕ → StopPc) (j i : ℕ) (q : StopPc)
    → call_left q < call_left (pc j)
    → call_left (update pc j q i) ≤ call_left (pc i)
update-le pc j i q h = elim (Bool-cases (j == i)) [
  | inl same ↦ rw same (omega (arith, ap (λ k. call_left (pc k)) ((==_iff j i).0 same)))
  | inr differ ↦ rw differ (omega arith)
]

-- No step of anyone puts more in the way of a call.
Step-le :
    (i : ℕ) {s t : System} {x : Option Bytes}
    → Step s t
    → s.life.child ≡ dead x
    → (left_to_do i t ≤ left_to_do i s) × (t.life.child ≡ dead x)
Step-le i {s = s} (runs l r e) d = rw e (omega (arith, Runs-le r d), Runs-dead r d)
Step-le i {s = s} (stops j q l r e) d =
    let (pipe, reaper, child, less) = Stops-le r in
    rw e
      (omega (arith, ap length pipe, ap reaper_left reaper, update-le s.pc j i q less), child ∙ d)

-- A step of the process's side, or of the call itself, that takes the call further.
data Further (i : ℕ) (s : System) : Type 0 where
  by_reaper :
      (l : Life)
      → Runs s.life l
      → length l.pipe + reaper_left l.reaper < length s.life.pipe + reaper_left s.life.reaper
      → Further i s
  by_call : (q : StopPc) (l : Life) → Stops (s.pc i) s.life q l → Further i s
  returned : s.pc i ≡ finished → Further i s

reap-Further :
    (i : ℕ) (s : System) (x : Option Bytes) (p : Bytes)
    → s.life.child ≡ dead x
    → s.life.reaper ≡ waiting
    → s.life.pipe ≡ p
    → Further i s
reap-Further i s x [] d w e =
    by_reaper (record s.life { wait_err = x; reaper = stored }) (waits x d e w refl)
      (rw w (omega arith))
reap-Further i s x (b ∷ p) d w e =
    by_reaper (record s.life { tail = (write s.life.tail (b ∷ p)).0; pipe = [] })
      (copies (b ∷ p) [] (omega arith) (e ∙ sym (append-nil (b ∷ p))) refl) (rw e (omega arith))

wait-Further :
    (i : ℕ) (s : System) (x : Option Bytes) (r : Reaper)
    → s.life.child ≡ dead x
    → s.pc i ≡ signalled
    → s.life.reaper ≡ r
    → Further i s
wait-Further i s x waiting d p e = reap-Further i s x s.life.pipe d e refl
wait-Further i s x stored d p e =
    by_reaper (record s.life { reaper = closed }) (closes e refl) (rw e (omega arith))
wait-Further i s x closed d p e = by_call received s.life (receives p e refl refl)

Further-at :
    (i : ℕ) (s : System) (x : Option Bytes) (p : StopPc)
    → s.life.child ≡ dead x
    → s.pc i ≡ p
    → Further i s
Further-at i s x idle d e = by_call signalled s.life (signals e refl refl)
Further-at i s x signalled d e = wait-Further i s x s.life.reaper d e refl
Further-at i s x received d e =
    by_call finished (record s.life { file = false }) (removes e refl refl)
Further-at i s x finished d e = returned e

abbrev pub Advances : ℕ → System → Type 0
Advances i s = (s.pc i ≡ finished) ⊎ ((t : System) × Step s t × (left_to_do i t < left_to_do i s))

Further-Advances : (i : ℕ) (s : System) → Further i s → Advances i s
Further-Advances i s (returned e) = inl e
Further-Advances i s (by_reaper l r h) =
    inr (record { life = l; pc = s.pc }, runs l r refl, omega arith)
Further-Advances i s (by_call q l r) =
    let (pipe, reaper, child, less) = Stops-le r in
    inr (
      record { life = l; pc = update s.pc i q },
      stops i q l r refl,
      omega (arith, ap length pipe, ap reaper_left reaper, ap call_left (update_self s.pc i q)),
    )

-- As long as a call has not returned, some step takes it further.
advance : (i : ℕ) (s : System) (x : Option Bytes) → s.life.child ≡ dead x → Advances i s
advance i s x d = Further-Advances i s (Further-at i s x (s.pc i) d refl)

Leads-trans : {s t u : System} → Leads s t → Leads t u → Leads s u
Leads-trans l (here t e) = rw e l
Leads-trans l (next t u m st) = next t u (Leads-trans l m) st

stop_within :
    (f : ℕ) (i : ℕ) (s : System) (x : Option Bytes)
    → left_to_do i s < f
    → s.life.child ≡ dead x
    → (t : System) × Leads s t × (t.pc i ≡ finished)
stop_within zero i s x h d = absurd (omega arith)
stop_within (suc f) i s x h d = elim (advance i s x d) [
  | inl e ↦ (s, here s refl, e)
  | inr (t, st, less) ↦
      let (u, l, e) = stop_within f i t x (omega arith) (Step-le i st d).1 in
      (u, Leads-trans (next s t (here s refl) st) l, e)
]

-- A call of `Stop` does not hang once the process is dead, whoever else calls it: it can return from
-- every such state, no step of anyone takes it further from its return, and as long as it has not
-- returned some step takes it closer.
pub stop-Advances :
    (i : ℕ) (s t : System) (x : Option Bytes)
    → s.life.child ≡ dead x
    → Step s t
    → Advances i s
      × (left_to_do i t ≤ left_to_do i s)
      × ((u : System) × Leads s u × (u.pc i ≡ finished))
stop-Advances i s t x d st =
    (advance i s x d, (Step-le i st d).0, stop_within (suc (left_to_do i s)) i s x (omega arith) d)
