-- ===== src/Examples/Process.antt =====
-- The engine process, the server's goroutines and its replies on concrete runs.
use flash_qwen.Cli.Serve.Exit.{EndsDown, Serves-EndsDown}
use flash_qwen.Cli.Serve.{
  main, leaving, stopping, exited, Serving, Moves, engine_runs, notifies, returns, closes, stops,
  exits, opened, Serves, begin, go,
}
use flash_qwen.Prelude.{ℕ, true, false, [], Option, some, Bytes, codes, ◌≡◌, ◌≤◌, refl, arith}
use flash_qwen.Supervisor.Life.Liveness.{Advances, left_to_do, stop-Advances}
use flash_qwen.Supervisor.Life.Reports.{Reports, Stands, Reach-Reports}
use flash_qwen.Supervisor.Life.{
  Life, dead, waiting, stored, closed, spawned, tail_max, Runs, emits, copies, dies, waits, StopPc,
  idle, signalled, received, finished, Stops, signals, receives, removes, System, update, Step,
  runs, Reach, start, later, Leads, here, next,
}
use flash_qwen.Supervisor.Life
use flash_qwen.Supervisor.{write}

abbrev keep_bytes : Bytes → Bytes
keep_bytes b = b

abbrev boom : Bytes
boom = codes "boom\n"

abbrev status : Option Bytes
status = some (codes "exit status 1")

-- The process writes one line, which is copied, dies, and is reaped.
abbrev wrote : Life
wrote = record spawned { pipe = boom; output = boom }

abbrev copied : Life
copied = record wrote { tail = record { buf = boom; max = tail_max }; pipe = [] }

abbrev died : Life
died = record copied { child = dead status }

abbrev waited : Life
waited = record died { wait_err = status; reaper = stored }

abbrev reaped : Life
reaped = record waited { reaper = closed }

wrote_runs : Runs spawned wrote
wrote_runs = emits boom refl refl

copied_runs : Runs wrote copied
unfolding write
copied_runs = copies boom [] (omega arith) refl refl

died_runs : Runs copied died
died_runs = dies status refl refl

waited_runs : Runs died waited
waited_runs = waits status refl refl refl refl

reaped_runs : Runs waited reaped
reaped_runs = Life.closes refl refl

abbrev calls : ℕ → StopPc
calls i = idle

abbrev called : ℕ → StopPc
called = update calls 0 signalled

abbrev with_life : Life → System
with_life l = record { life = l; pc = calls }

abbrev in_call : Life → System
in_call l = record { life = l; pc = called }

life_runs :
    {s t : Life} {pc : ℕ → StopPc}
    → Runs s t
    → Step (record { life = s; pc = pc }) (record { life = t; pc = pc })
life_runs {t = t} r = runs t r refl

reached : Reach (in_call died)
reached =
    later (with_life died) (in_call died)
      (later (with_life copied) (with_life died)
        (later (with_life wrote) (with_life copied)
          (later (with_life spawned) (with_life wrote) (start (with_life spawned) refl)
            (life_runs wrote_runs))
          (life_runs copied_runs))
        (life_runs died_runs))
      (Step.stops 0 signalled died (signals refl refl refl) refl)

reached_reaped : Reach (in_call reaped)
reached_reaped =
    later (in_call waited) (in_call reaped)
      (later (in_call died) (in_call waited) reached (life_runs waited_runs))
      (life_runs reaped_runs)

abbrev returning : System
returning = record { life = reaped; pc = update called 0 received }

return_leads : Leads (in_call reaped) returning
return_leads =
    next (in_call reaped) returning (here (in_call reaped) refl)
      (Step.stops 0 received reaped (receives refl refl refl refl) refl)

Reach-Reports_example : Reports keep_bytes reaped × Stands keep_bytes closed reaped reaped
Reach-Reports_example =
    Reach-Reports keep_bytes (in_call reaped) returning reached_reaped return_leads

stop-Advances_example :
    Advances 0 (in_call died)
    × (left_to_do 0 (in_call waited) ≤ left_to_do 0 (in_call died))
    × ((u : System) × Leads (in_call died) u × (u.pc 0 ≡ finished))
stop-Advances_example =
    stop-Advances 0 (in_call died) (in_call waited) status refl (life_runs waited_runs)

-- `Run` returns an error, and the program tears the engine down.
abbrev shut : Serving
shut = record opened { notified = true; at_main = stopping; open_conn = false }

abbrev with_system : Life → (ℕ → StopPc) → Serving
with_system l pc = record shut { system = record { life = l; pc = pc } }

serve_stops :
    (l : Life) (pc : ℕ → StopPc) (q : StopPc) (l2 : Life)
    → Stops (pc 0) l q l2
    → Moves (with_system l pc) (with_system l2 (update pc 0 q))
serve_stops l pc q l2 r = stops main q l2 refl r refl

serve_runs :
    (l l2 : Life) (pc : ℕ → StopPc) → Runs l l2 → Moves (with_system l pc) (with_system l2 pc)
serve_runs l l2 pc r = engine_runs l2 r refl

abbrev received_calls : ℕ → StopPc
received_calls = update called 0 received

abbrev finished_calls : ℕ → StopPc
finished_calls = update received_calls 0 finished

abbrev cleared : Life
cleared = record reaped { file = false }

shut-Serves : Serves shut
shut-Serves =
    go (record opened { notified = true; at_main = leaving }) shut
      (go (record opened { notified = true }) (record opened { notified = true; at_main = leaving })
        (go opened (record opened { notified = true }) (begin opened refl) refl
          (notifies refl refl))
        refl (returns refl refl refl))
      refl (closes main refl refl)

died-Serves : Serves (with_system died called)
died-Serves =
    go (with_system copied called) _
      (go (with_system wrote called) _
        (go (with_system spawned called) _
          (go shut (with_system spawned called) shut-Serves refl
            (serve_stops spawned calls signalled spawned (signals refl refl refl)))
          refl (serve_runs spawned wrote called wrote_runs))
        refl (serve_runs wrote copied called copied_runs))
      refl (serve_runs copied died called died_runs)

finished-Serves : Serves (with_system cleared finished_calls)
finished-Serves =
    go (with_system reaped received_calls) _
      (go (with_system reaped called) (with_system reaped received_calls)
        (go (with_system waited called) _
          (go (with_system died called) _ died-Serves refl
            (serve_runs died waited called waited_runs))
          refl (serve_runs waited reaped called reaped_runs))
        refl (serve_stops reaped called received reaped (receives refl refl refl refl)))
      refl (serve_stops reaped received_calls finished cleared (removes refl refl refl))

abbrev ended : Serving
ended = record (with_system cleared finished_calls) { ending = some (exited 1) }

ended-Serves : Serves ended
ended-Serves =
    go (with_system cleared finished_calls) ended finished-Serves refl (exits main refl refl refl)

Serves-EndsDown_example : EndsDown (exited 1) ended
Serves-EndsDown_example = Serves-EndsDown ended (exited 1) ended-Serves refl
