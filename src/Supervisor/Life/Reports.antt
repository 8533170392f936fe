-- ===== src/Supervisor/Life/Reports.antt =====
-- What `Exited` reports, whatever has happened before.
use mathlib.Core.Path.{ap₂}
use flash_qwen.Prelude.{
  ℕ, [], ◌∷◌, ◌++◌, append-nil, Option, none, some, codes, Bytes, ◌≡◌, ◌≢◌, refl, sym, ap, ◌∙◌, inl,
  inr, arith,
}
use flash_qwen.Supervisor.Life.Sound.{IsSound, Reach-IsOrdered, Runs-keep, Stops-keep}
use flash_qwen.Supervisor.Life.{
  Child, alive, dead, Reaper, waiting, stored, closed, Life, tail_max, Runs, emits, copies, dies,
  waits, closes, Stops, signals, receives, removes, System, StopPc, Step, runs, stops, Reach, later,
  Leads, here, next, observed, observed_at,
}
use flash_qwen.Supervisor.Tail.{last}
use flash_qwen.Supervisor.{reaped, exited, wait_text, tail_text}

alive_dead : {c : Child} {e : Option Bytes} → c ≡ alive → c ≡ dead e → ⊥
alive_dead a d = cc

cons_nil : {b : ℕ} {p : Bytes} → b ∷ p ≡ [] → ⊥
cons_nil e = cc

pub settled_of :
    (s : Life) → IsSound s → s.reaper ≡ closed → (s.child ≡ dead s.wait_err) × (s.pipe ≡ [])
settled_of s v h = elim v.settled [ inl w ↦ absurd (waiting_ne_closed w h) | inr d ↦ d ]
  where
    waiting_ne_closed : s.reaper ≡ waiting → s.reaper ≡ closed → ⊥
    waiting_ne_closed a b = cc

module _ (trim_space : Bytes → Bytes) where
  abbrev pub report : Life → Option Bytes
  report s = exited trim_space s.tail (observed s)

  -- The text of an exit status, and that of what is left of stderr once it is trimmed.
  abbrev pub status_text : Option Bytes → Bytes
  status_text none = []
  status_text (some e) = codes " (" ++ (e ++ codes ")")

  abbrev pub stderr_text : Bytes → Bytes
  stderr_text [] = []
  stderr_text (b ∷ t) = codes "; engine stderr:\n" ++ (b ∷ t)

  -- The report for an exit status and all of stderr: the status, and the last 8 KiB of stderr.
  abbrev pub full_report : Option Bytes → Bytes → Option Bytes
  full_report e output = some (
      codes "engine process exited"
      ++ (status_text e ++ stderr_text (trim_space (last tail_max output))))

  wait_text_lem : (e : Option Bytes) → wait_text e ≡ status_text e
  unfolding wait_text
  wait_text_lem none = refl
  wait_text_lem (some e) = refl

  tail_text_lem : (t : Bytes) → tail_text trim_space t ≡ stderr_text t
  unfolding tail_text
  tail_text_lem [] = refl
  tail_text_lem (b ∷ t) = ground arith

  exited-full_report :
      (e : Option Bytes) (output : Bytes)
      → exited trim_space (record { buf = last tail_max output; max = tail_max }) (reaped e)
        ≡ full_report e output
  unfolding exited
  exited-full_report e output =
      ap (λ x. some (codes "engine process exited" ++ x))
        (ap₂ (λ u v. u ++ v) (wait_text_lem e) (tail_text_lem (trim_space (last tail_max output))))

  -- Nothing is reported before the process has been reaped, and then its own status with the end of
  -- all that it wrote.
  abbrev pub ReportsAt : Reaper → Life → Type 0
  ReportsAt waiting s = report s ≡ none
  ReportsAt stored s = report s ≡ none
  ReportsAt closed s = (e : Option Bytes) × (s.child ≡ dead e) × (report s ≡ full_report e s.output)

  abbrev pub Reports : Life → Type 0
  Reports s = ReportsAt s.reaper s

  -- A report stands.
  abbrev pub Stands : Reaper → Life → Life → Type 0
  Stands waiting s t = Unit {0}
  Stands stored s t = Unit {0}
  Stands closed s t = report t ≡ report s

  silent_lem : (s : Life) (r : Reaper) → s.reaper ≡ r → r ≢ closed → report s ≡ none
  unfolding exited observed observed_at
  silent_lem s waiting e h = rw e refl
  silent_lem s stored e h = rw e refl
  silent_lem s closed e h = absurd (h refl)

  told_lem : (s : Life) → s.reaper ≡ closed → observed s ≡ reaped s.wait_err
  unfolding observed observed_at
  told_lem s h = rw h refl

  IsSound-ReportsAt : (s : Life) (r : Reaper) → s.reaper ≡ r → IsSound s → ReportsAt r s
  IsSound-ReportsAt s waiting h v = silent_lem s waiting h (cc)
  IsSound-ReportsAt s stored h v = silent_lem s stored h (cc)
  IsSound-ReportsAt s closed h v =
      let (died, drained) = settled_of s v h in
      (
        s.wait_err,
        died,
        ap₂ (λ t p. exited trim_space t p) (tail_of drained) (told_lem s h)
            ∙ exited-full_report s.wait_err s.output,
      )
    where
      tail_of : s.pipe ≡ [] → s.tail ≡ record { buf = last tail_max s.output; max = tail_max }
      tail_of drained =
          let all = v.whole ∙ ap (λ x. v.copied ++ x) drained ∙ append-nil v.copied in
          λ i. record { buf = (v.kept ∙ ap (last tail_max) (sym all)) i; max = v.limit i }

-- Behind the reaper's end neither the process nor the copying does anything.
over : {s t : Life} → Runs s t → IsSound s → s.reaper ≡ closed → ⊥
over {s = s} (emits p a e) v h = alive_dead a (settled_of s v h).0
over {s = s} (copies [] rest n a e) v h = omega arith
over {s = s} (copies (b ∷ p) rest n a e) v h = cons_nil (sym a ∙ (settled_of s v h).1)
over {s = s} (dies x a e) v h = alive_dead a (settled_of s v h).0
over (waits x a b c e) v h = cc
over (closes a e) v h = cc

Step-closed : {s t : System} → Step s t → s.life.reaper ≡ closed → t.life.reaper ≡ closed
Step-closed (runs l r e) h = rw e ((Runs-keep r).0 h)
Step-closed (stops i q l r e) h = rw e ((Stops-keep r).0 h)

module _ (trim_space : Bytes → Bytes) where
  Stops-report :
      {p q : StopPc} {s t : Life} → Stops p s q t → report trim_space t ≡ report trim_space s
  unfolding observed
  Stops-report (signals a b e) = rw e refl
  Stops-report (receives a c b e) = rw e refl
  Stops-report (removes a b e) = rw e refl

  Step-report :
      {s t : System}
      → Step s t
      → IsSound s.life
      → s.life.reaper ≡ closed
      → report trim_space t.life ≡ report trim_space s.life
  Step-report (runs l r e) v h = absurd (over r v h)
  Step-report (stops i q l r e) v h = rw e (Stops-report r)

  Leads-closed :
      {s t : System}
      → Reach s
      → Leads s t
      → s.life.reaper ≡ closed
      → Reach t × (t.life.reaper ≡ closed) × (report trim_space t.life ≡ report trim_space s.life)
  Leads-closed {s = s} r (here t e) h = (rw e r, rw e h, rw e refl)
  Leads-closed {s = s} r (next t u l st) h =
      let (reach, shut, same) = Leads-closed r l h in
      (
        later t u reach st,
        Step-closed st shut,
        Step-report st (Reach-IsOrdered reach).life shut ∙ same,
      )

  Leads-Stands :
      (s t : System) (x : Reaper)
      → s.life.reaper ≡ x
      → Reach s
      → Leads s t
      → Stands trim_space x s.life t.life
  Leads-Stands s t waiting e r l = tt
  Leads-Stands s t stored e r l = tt
  Leads-Stands s t closed e r l = (Leads-closed r l e).2

  -- However the process, the copying of its stderr, the reaper and any calls of `Stop` interleave:
  -- `Exited` reports nothing before the process has been reaped; from then on it reports the status
  -- that the process died with and the last 8 KiB of all that it wrote; and no further steps change
  -- the report.
  pub Reach-Reports :
      (s t : System)
      → Reach s
      → Leads s t
      → Reports trim_space s.life × Stands trim_space s.life.reaper s.life t.life
  Reach-Reports s t r l = (
    IsSound-ReportsAt trim_space s.life s.life.reaper refl (Reach-IsOrdered r).life,
    Leads-Stands s t s.life.reaper refl r l,
  )
