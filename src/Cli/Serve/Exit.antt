-- ===== src/Cli/Serve/Exit.antt =====
-- How `serve` ends.
use mathlib.Core.Path.{subst}
use flash_qwen.Cli.Serve.{
  Goroutine, busy, leaving, stopping, Who, main, handler, caller, exit_code, Ending, exited, killed,
  Signal, interrupt, terminate, other, caught, Serving, at, Moves, engine_runs, kills, notifies,
  returns, receives, closes, stops, exits, opened, Serves, begin, go,
}
use flash_qwen.Prelude.{ℕ, Bool, true, false, Option, none, some, Bytes, ◌≡◌, refl, ◌⊎◌, inl, inr}
use flash_qwen.Supervisor.Life.{
  Child, dead, Reaper, closed, Life, StopPc, idle, finished, System, Reach, start, later, runs,
}
use flash_qwen.Supervisor.Life.Reports.{settled_of}
use flash_qwen.Supervisor.Life.Sound.{Reach-IsOrdered, AtPc}
use flash_qwen.Supervisor.Life

-- A goroutine in `Stop` has closed the connection.
abbrev HasClosed : Goroutine → Bool → Type 0
HasClosed busy conn = Unit {0}
HasClosed leaving conn = Unit {0}
HasClosed stopping conn = conn ≡ false

-- The one that ended the program has come to the end of `Stop`.
abbrev Ended : Option Ending → Serving → Type 0
Ended none s = Unit {0}
Ended (some (killed g)) s = caught s.notified g ≡ false
Ended (some (exited code)) s =
    (w : Who) × (code ≡ exit_code w) × (at w s ≡ stopping) × (s.system.pc (caller w) ≡ finished)

record IsOrderly (s : Serving) : Type 0 where
  reach : Reach s.system
  main_closed : HasClosed s.at_main s.open_conn
  handler_closed : HasClosed s.at_handler s.open_conn
  ended : Ended s.ending s

opened-IsOrderly : IsOrderly opened
opened-IsOrderly = record {
  reach = start opened.system refl;
  main_closed = tt;
  handler_closed = tt;
  ended = tt;
}

HasClosed-false : (g : Goroutine) → HasClosed g false
HasClosed-false busy = tt
HasClosed-false leaving = tt
HasClosed-false stopping = refl

running-Ended : (s : Serving) → s.ending ≡ none → Ended s.ending s
running-Ended s o = rw o tt

Moves-IsOrderly : {s t : Serving} → Moves s t → s.ending ≡ none → IsOrderly s → IsOrderly t
Moves-IsOrderly {s = s} (engine_runs l r e) o v = rw e (record {
  reach = later s.system _ v.reach (runs l r refl);
  main_closed = v.main_closed;
  handler_closed = v.handler_closed;
  ended = running-Ended _ o;
})
Moves-IsOrderly {s = s} (kills g n e) o v = rw e (record {
  reach = v.reach;
  main_closed = v.main_closed;
  handler_closed = v.handler_closed;
  ended = n;
})
Moves-IsOrderly {s = s} (notifies n e) o v = rw e (record {
  reach = v.reach;
  main_closed = v.main_closed;
  handler_closed = v.handler_closed;
  ended = running-Ended _ o;
})
Moves-IsOrderly {s = s} (returns n g e) o v = rw e (record {
  reach = v.reach;
  main_closed = tt;
  handler_closed = v.handler_closed;
  ended = running-Ended _ o;
})
Moves-IsOrderly {s = s} (receives x n g e) o v = rw e (record {
  reach = v.reach;
  main_closed = v.main_closed;
  handler_closed = tt;
  ended = running-Ended _ o;
})
Moves-IsOrderly {s = s} (closes main g e) o v = rw e (record {
  reach = v.reach;
  main_closed = refl;
  handler_closed = HasClosed-false s.at_handler;
  ended = running-Ended _ o;
})
Moves-IsOrderly {s = s} (closes handler g e) o v = rw e (record {
  reach = v.reach;
  main_closed = HasClosed-false s.at_main;
  handler_closed = refl;
  ended = running-Ended _ o;
})
Moves-IsOrderly {s = s} (stops w q l g r e) o v = rw e (record {
  reach = later s.system _ v.reach (Life.stops (caller w) q l r refl);
  main_closed = v.main_closed;
  handler_closed = v.handler_closed;
  ended = running-Ended _ o;
})
Moves-IsOrderly {s = s} (exits w g f e) o v = rw e (record {
  reach = v.reach;
  main_closed = v.main_closed;
  handler_closed = v.handler_closed;
  ended = (w, refl, at_same w g, f);
})
  where
    at_same :
        (w : Who)
        → at w s ≡ stopping
        → at w (record s { ending = some (exited (exit_code w)) }) ≡ stopping
    at_same main g = g
    at_same handler g = g

Serves-IsOrderly : {s : Serving} → Serves s → IsOrderly s
Serves-IsOrderly (begin s e) = rw e opened-IsOrderly
Serves-IsOrderly (go s t r o m) = Moves-IsOrderly m o (Serves-IsOrderly r)

-- Nothing is left: the connection is closed, the process dead and reaped, the binary removed.
pub record IsDown (s : Serving) : Type 0 where
  pub conn : s.open_conn ≡ false
  pub reaped : s.system.life.reaper ≡ closed
  pub dead_child : (e : Option Bytes) × (s.system.life.child ≡ dead e)
  pub file : s.system.life.file ≡ false

conn_closed : (s : Serving) (w : Who) → IsOrderly s → at w s ≡ stopping → s.open_conn ≡ false
conn_closed s main v g = subst (λ x. HasClosed x s.open_conn) g v.main_closed
conn_closed s handler v g = subst (λ x. HasClosed x s.open_conn) g v.handler_closed

-- What the end of the program says of the state that it leaves.
abbrev pub EndsDown : Ending → Serving → Type 0
EndsDown (killed g) s = (s.notified ≡ false) ⊎ (g ≡ other)
EndsDown (exited code) s = IsDown s × ((code ≡ 0) ⊎ (code ≡ 1))

exit_codes : (w : Who) (code : ℕ) → code ≡ exit_code w → (code ≡ 0) ⊎ (code ≡ 1)
exit_codes main code e = inr e
exit_codes handler code e = inl e

EndsDown-of : (s : Serving) (x : Ending) → IsOrderly s → Ended (some x) s → EndsDown x s
EndsDown-of s (killed g) v n = uncaught s.notified g n
  where
    uncaught : (b : Bool) (x : Signal) → caught b x ≡ false → (b ≡ false) ⊎ (x ≡ other)
    uncaught false x h = inl refl
    uncaught true interrupt h = cc
    uncaught true terminate h = cc
    uncaught true other h = inr refl
EndsDown-of s (exited code) v (w, same, g, f) =
    let ordered = Reach-IsOrdered v.reach in
    let (shut, gone) : AtPc finished s.system.life =
      subst (λ p. AtPc p s.system.life) f (ordered.calls (caller w)) in
    (
      record {
        conn = conn_closed s w v g;
        reaped = shut;
        dead_child = (s.system.life.wait_err, (settled_of s.system.life ordered.life shut).0);
        file = gone;
      },
      exit_codes w code same,
    )

-- In every interleaving of the server, the handler of signals, two calls of `Stop` and the engine
-- process: when `serve` exits by its own code, the connection is closed, the process is dead and
-- reaped and the extracted binary is removed, and the status is 0 or 1. The only other end in the model
-- is by a signal, which is neither SIGINT nor SIGTERM if `signal.Notify` has been called; of the state
-- that it leaves nothing is said.
pub Serves-EndsDown : (s : Serving) (x : Ending) → Serves s → s.ending ≡ some x → EndsDown x s
Serves-EndsDown s x r e =
    let v = Serves-IsOrderly r in EndsDown-of s x v (subst (λ o. Ended o s) e v.ended)
