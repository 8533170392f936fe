-- ===== src/Cli/Serve.antt =====
-- `runServe` of cmd/flashqwen/serve.go, behind a successful `open`: the main goroutine, which serves,
-- and the one that waits for a signal, beside the engine process. Gin's `Run` returns only with an
-- error. A signal that is not caught ends the program; those that the program ignores are left out.
pub mod Exit
use flash_qwen.Prelude.{
  ℕ, Bool, true, false, Option, none, some, List, [], ◌∷◌, length, ◌==◌, if◌then◌else◌, Bytes, ◌≡◌,
}
use flash_qwen.Supervisor.Life.{Life, Runs, StopPc, idle, finished, Stops, System, update, spawned}

-- Where a goroutine stands: serving or waiting for a signal, at `conn.Close()`, in `sup.Stop()`.
pub data Goroutine : Type 0 where
  busy leaving stopping : Goroutine

-- The two goroutines call `Stop` as callers 0 and 1.
pub data Who : Type 0 where
  main handler : Who

abbrev pub caller : Who → ℕ
caller main = 0
caller handler = 1

-- log.Fatal exits with status 1, and the handler with 0.
abbrev pub exit_code : Who → ℕ
exit_code main = 1
exit_code handler = 0

-- SIGINT, SIGTERM, and any other signal that ends a program by default.
pub data Signal : Type 0 where
  interrupt terminate other : Signal

-- What `signal.Notify` registers.
abbrev pub registered : Signal → Bool
registered interrupt = true
registered terminate = true
registered other = false

-- Whether a signal goes to the channel.
abbrev pub caught : Bool → Signal → Bool
caught false g = false
caught true g = registered g

-- How the program ends: with a status, or by a signal.
pub data Ending : Type 0 where
  exited : ℕ → Ending
  killed : Signal → Ending

pub record Serving : Type 0 where
  pub system : System
  pub open_conn : Bool
  pub notified : Bool
  pub at_main : Goroutine
  pub at_handler : Goroutine
  pub ending : Option Ending

abbrev pub at : Who → Serving → Goroutine
at main s = s.at_main
at handler s = s.at_handler

abbrev pub move : Who → Goroutine → Serving → Serving
move main g s = record s { at_main = g }
move handler g s = record s { at_handler = g }

pub data Moves (s t : Serving) : Type 0 where
  -- the engine process, the copying of its stderr and its reaper
  engine_runs :
      (l : Life)
      → Runs s.system.life l
      → t ≡ record s { system = record { life = l; pc = s.system.pc } }
      → Moves s t
  -- a signal that is not caught
  kills :
      (g : Signal)
      → caught s.notified g ≡ false
      → t ≡ record s { ending = some (killed g) }
      → Moves s t
  notifies : s.notified ≡ false → t ≡ record s { notified = true } → Moves s t
  -- `Run` returns
  returns : s.notified ≡ true → s.at_main ≡ busy → t ≡ record s { at_main = leaving } → Moves s t
  -- the handler receives a signal
  receives :
      (g : Signal)
      → caught s.notified g ≡ true
      → s.at_handler ≡ busy
      → t ≡ record s { at_handler = leaving }
      → Moves s t
  closes :
      (w : Who)
      → at w s ≡ leaving
      → t ≡ move w stopping (record s { open_conn = false })
      → Moves s t
  stops :
      (w : Who) (q : StopPc) (l : Life)
      → at w s ≡ stopping
      → Stops (s.system.pc (caller w)) s.system.life q l
      → t ≡ record s { system = record { life = l; pc = update s.system.pc (caller w) q } }
      → Moves s t
  exits :
      (w : Who)
      → at w s ≡ stopping
      → s.system.pc (caller w) ≡ finished
      → t ≡ record s { ending = some (exited (exit_code w)) }
      → Moves s t

-- `open` has returned.
abbrev pub opened : Serving
opened = record {
  system = record { life = spawned; pc = λ i. idle };
  open_conn = true;
  notified = false;
  at_main = busy;
  at_handler = busy;
  ending = none;
}

-- The program runs until it ends.
pub data Serves : Serving → Type 0 where
  begin : (s : Serving) → s ≡ opened → Serves s
  go : (s t : Serving) → Serves s → s.ending ≡ none → Moves s t → Serves t
