-- ===== src/Engine/Client/Ready.antt =====
-- `WaitReady`: which round ends the wait, and that one does.
use flash_qwen.Engine.Client.{Result, ok, err, Poll, wait_ready, timed_out, exited}
use flash_qwen.Engine.{ModelInfo}
use flash_qwen.Prelude.{
  true, false, List, [], ◌∷◌, none, some, Bytes, ◌≡◌, ◌≢◌, arith, ◌⊎◌, inl, inr, Option-cases,
  Bool-cases,
}

-- A round that ends the wait, and what it returns: an answer counts before a report of death, and
-- that before the deadline.
pub data Settles (timeout : Bytes) (p : Poll) (r : Result ModelInfo) : Type 0 where
  answered : (info : ModelInfo) → p.model ≡ some info → r ≡ ok info → Settles timeout p r
  died : (e : Bytes) → p.model ≡ none → p.exit ≡ some e → r ≡ err (exited e) → Settles timeout p r
  expired :
      p.model ≡ none
      → p.exit ≡ none
      → p.late ≡ true
      → r ≡ err (timed_out timeout)
      → Settles timeout p r

-- A round after which the client polls again.
pub record IsIdle (p : Poll) : Type 0 where
  pub silent : p.model ≡ none
  pub alive : p.exit ≡ none
  pub early : p.late ≡ false

pub data Waits (timeout : Bytes) (r : Result ModelInfo) : List Poll → Type 0 where
  now : {p : Poll} {polls : List Poll} → Settles timeout p r → Waits timeout r (p ∷ polls)
  later :
      {p : Poll} {polls : List Poll}
      → IsIdle p
      → Waits timeout r polls
      → Waits timeout r (p ∷ polls)

-- The wait returns what the first round that is not idle decides.
pub wait_ready-Waits :
    (timeout : Bytes) (polls : List Poll) (r : Result ModelInfo)
    → wait_ready timeout polls ≡ some r
    → Waits timeout r polls
unfolding wait_ready
wait_ready-Waits timeout [] r h = cc
wait_ready-Waits timeout (p ∷ polls) r h = elim (Option-cases p.model) [
  | inl silent ↦ elim (Option-cases p.exit) [
    | inl alive ↦ elim (Bool-cases p.late) [
      | inl late ↦ now (expired silent alive late (ground arith))
      | inr early ↦
          later (record { silent = silent; alive = alive; early = early })
            (wait_ready-Waits timeout polls r (ground arith))
    ]
    | inr (e, dead) ↦ now (died e silent dead (ground arith))
  ]
  | inr (info, up) ↦ now (answered info up (ground arith))
]

-- The client does not wait for ever: the rounds suffice as soon as one of them is not idle.
abbrev pub HasEnd : List Poll → Type 0
HasEnd [] = ⊥
HasEnd (p ∷ polls) = (p.model ≢ none) ⊎ (p.exit ≢ none) ⊎ (p.late ≡ true) ⊎ HasEnd polls

-- As soon as an answer, a death or the deadline falls into the rounds, the wait returns.
pub wait_ready_total :
    (timeout : Bytes) (polls : List Poll)
    → HasEnd polls
    → (r : Result ModelInfo) × (wait_ready timeout polls ≡ some r)
unfolding wait_ready
wait_ready_total timeout [] h = absurd h
wait_ready_total timeout (p ∷ polls) h = elim (Option-cases p.model) [
  | inr (info, up) ↦ (ok info, rw (up, wait_ready))
  | inl silent ↦ elim (Option-cases p.exit) [
    | inr (e, dead) ↦ (err (exited e), rw (silent, wait_ready) (rw (dead, wait_ready)))
    | inl alive ↦ elim (Bool-cases p.late) [
      | inl late ↦ (err (timed_out timeout), ground arith)
      | inr early ↦
          let (r, e) = wait_ready_total timeout polls (remaining h silent alive early) in
          (r, ground arith)
    ]
  ]
]
  where
    remaining : HasEnd (p ∷ polls) → p.model ≡ none → p.exit ≡ none → p.late ≡ false → HasEnd polls
    remaining (inl f) m x l = absurd (f m)
    remaining (inr (inl f)) m x l = absurd (f x)
    remaining (inr (inr (inl f))) m x l = cc
    remaining (inr (inr (inr f))) m x l = f
