-- ===== src/Supervisor/Life/Sound.antt =====
-- What holds of the process, the reaper and each call of `Stop`, in any interleaving.
use flash_qwen.Prelude.{
  ℕ, ◌<◌, false, [], ◌∷◌, ◌++◌, append_assoc, Option, length, ◌==◌, Bytes, ◌≡◌, refl, sym, ap, ◌∙◌,
  ◌⊎◌, inl, inr, arith, Bool-cases,
}
use flash_qwen.Supervisor.Life.{
  Child, alive, dead, Reaper, waiting, stored, closed, Life, tail_max, spawned, Runs, emits, copies,
  dies, waits, closes, StopPc, idle, signalled, received, finished, Stops, signals, receives,
  removes, System, update, Step, runs, stops, Reach, start, later,
}
use flash_qwen.Supervisor.Tail.{last, write-last, last-append}

-- The tail is the end of what was copied, and the reaper goes on only behind the process's death.
pub record IsSound (s : Life) : Type 0 where
  pub copied : Bytes
  pub whole : s.output ≡ copied ++ s.pipe
  pub kept : s.tail.buf ≡ last tail_max copied
  pub limit : s.tail.max ≡ tail_max
  pub settled : (s.reaper ≡ waiting) ⊎ ((s.child ≡ dead s.wait_err) × (s.pipe ≡ []))

spawned-IsSound : IsSound spawned
spawned-IsSound = record {
  copied = [];
  whole = refl;
  kept = refl;
  limit = refl;
  settled = inl refl;
}

alive_ne_dead : {c : Child} {e : Option Bytes} → c ≡ alive → c ≡ dead e → ⊥
alive_ne_dead a d = cc

stored_ne_waiting : {r : Reaper} → r ≡ stored → r ≡ waiting → ⊥
stored_ne_waiting a b = cc

-- While the process lives, nothing has been reaped.
still_waiting : {s : Life} → IsSound s → s.child ≡ alive → s.reaper ≡ waiting
still_waiting v a = elim v.settled [ inl w ↦ w | inr (d, _) ↦ absurd (alive_ne_dead a d) ]

-- Bytes are copied only while they are there, so before the reaper goes on.
copy_waiting :
    (s : Life) (p rest : Bytes) → IsSound s → 0 < length p → s.pipe ≡ p ++ rest → s.reaper ≡ waiting
copy_waiting s [] rest v n a = absurd (omega arith)
copy_waiting s (b ∷ p) rest v n a = elim v.settled [ inl w ↦ w | inr (_, drained) ↦ cc ]

pub Runs-IsSound : {s t : Life} → Runs s t → IsSound s → IsSound t
Runs-IsSound {s = s} (emits p a e) v = rw e (record {
  copied = v.copied;
  whole = ap (λ x. x ++ p) v.whole ∙ append_assoc v.copied s.pipe p;
  kept = v.kept;
  limit = v.limit;
  settled = inl (still_waiting v a);
})
Runs-IsSound {s = s} (copies p rest n a e) v =
    let (buf, max) = write-last s.tail p in
    rw e (record {
      copied = v.copied ++ p;
      whole = v.whole ∙ ap (λ x. v.copied ++ x) a ∙ sym (append_assoc v.copied p rest);
      kept =
          buf
          ∙ ap (λ m. last m (s.tail.buf ++ p)) v.limit
          ∙ ap (λ x. last tail_max (x ++ p)) v.kept
          ∙ last-append tail_max v.copied p;
      limit = max ∙ v.limit;
      settled = inl (copy_waiting s p rest v n a);
    })
Runs-IsSound {s = s} (dies x a e) v = rw e (record {
  copied = v.copied;
  whole = v.whole;
  kept = v.kept;
  limit = v.limit;
  settled = inl (still_waiting v a);
})
Runs-IsSound {s = s} (waits x a b c e) v = rw e (record {
  copied = v.copied;
  whole = v.whole;
  kept = v.kept;
  limit = v.limit;
  settled = inr (a, b);
})
Runs-IsSound {s = s} (closes a e) v = rw e (record {
  copied = v.copied;
  whole = v.whole;
  kept = v.kept;
  limit = v.limit;
  settled = inr (elim v.settled [ inl w ↦ absurd (stored_ne_waiting a w) | inr d ↦ d ]);
})

-- A call of `Stop` is behind its wait only if the process has been reaped, and at its end only if the
-- extracted binary is gone.
abbrev pub AtPc : StopPc → Life → Type 0
AtPc idle s = Unit {0}
AtPc signalled s = Unit {0}
AtPc received s = s.reaper ≡ closed
AtPc finished s = (s.reaper ≡ closed) × (s.file ≡ false)

pub record IsOrdered (s : System) : Type 0 where
  pub life : IsSound s.life
  pub calls : (i : ℕ) → AtPc (s.pc i) s.life

-- Nothing that the process or a call does takes back what another call has waited for.
AtPc-keep :
    (p : StopPc) (s t : Life)
    → (s.reaper ≡ closed → t.reaper ≡ closed)
    → (s.file ≡ false → t.file ≡ false)
    → AtPc p s
    → AtPc p t
AtPc-keep idle s t r f h = tt
AtPc-keep signalled s t r f h = tt
AtPc-keep received s t r f h = r h
AtPc-keep finished s t r f h = (r h.0, f h.1)

pub Runs-keep :
    {s t : Life}
    → Runs s t
    → (s.reaper ≡ closed → t.reaper ≡ closed) × (s.file ≡ false → t.file ≡ false)
Runs-keep (emits p a e) = ground arith
Runs-keep (copies p rest n a e) = ground arith
Runs-keep (dies x a e) = ground arith
Runs-keep (waits x a b c e) = ground arith
Runs-keep (closes a e) = ground arith

pub Stops-keep :
    {p q : StopPc} {s t : Life}
    → Stops p s q t
    → (s.reaper ≡ closed → t.reaper ≡ closed) × (s.file ≡ false → t.file ≡ false)
Stops-keep (signals a b e) = ground arith
Stops-keep (receives a c b e) = ground arith
Stops-keep (removes a b e) = ground arith

Stops-AtPc : {p q : StopPc} {s t : Life} → Stops p s q t → AtPc p s → AtPc q t
Stops-AtPc (signals a b e) h = rw b tt
Stops-AtPc (receives a c b e) h = rw (b, e) c
Stops-AtPc (removes a b e) h = rw (b, e) (rw a at h, refl)

Stops-IsSound : {p q : StopPc} {s t : Life} → Stops p s q t → IsSound s → IsSound t
Stops-IsSound (signals a b e) v = rw e v
Stops-IsSound (receives a c b e) v = rw e v
Stops-IsSound (removes a b e) v = rw e (record {
  copied = v.copied;
  whole = v.whole;
  kept = v.kept;
  limit = v.limit;
  settled = v.settled;
})

AtPc-update :
    (pc : ℕ → StopPc) (i : ℕ) (q : StopPc) (t : Life)
    → AtPc q t
    → ((j : ℕ) → AtPc (pc j) t)
    → (j : ℕ) → AtPc (update pc i q j) t
AtPc-update pc i q t h k j = elim (Bool-cases (i == j)) [
  | inl same ↦ rw same h
  | inr differ ↦ rw differ (k j)
]

Step-IsOrdered : {s t : System} → Step s t → IsOrdered s → IsOrdered t
Step-IsOrdered {s = s} (runs l r e) v =
    let (closed_kept, gone_kept) = Runs-keep r in
    rw e (record {
      life = Runs-IsSound r v.life;
      calls = λ i. AtPc-keep (s.pc i) s.life l closed_kept gone_kept (v.calls i);
    })
Step-IsOrdered {s = s} (stops i q l r e) v =
    let (closed_kept, gone_kept) = Stops-keep r in
    rw e (record {
      life = Stops-IsSound r v.life;
      calls =
          AtPc-update s.pc i q l (Stops-AtPc r (v.calls i))
            (λ j. AtPc-keep (s.pc j) s.life l closed_kept gone_kept (v.calls j));
    })

pub Reach-IsOrdered : {s : System} → Reach s → IsOrdered s
Reach-IsOrdered (start s e) = rw e (record { life = spawned-IsSound; calls = λ i. tt })
Reach-IsOrdered (later s t r st) = Step-IsOrdered st (Reach-IsOrdered r)
