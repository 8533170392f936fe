-- ===== src/Supervisor/Life.antt =====
-- The life of an engine process: the goroutine that `Start` leaves behind to reap it, the copying
-- of its stderr into the tail, and any number of concurrent calls of `Stop`. os/exec copies stderr
-- in order and lets `Wait` return once the process is dead and all of it is copied; writing to the
-- terminal does not fail.
pub mod Sound
pub mod Reports
pub mod Liveness
use flash_qwen.Prelude.{
  ℕ, ◌<◌, Bool, true, false, List, [], ◌∷◌, ◌++◌, Option, none, some, length, ◌==◌, if◌then◌else◌,
  Bytes, ◌≡◌,
}
use flash_qwen.Supervisor.{TailBuffer, write, Process, running, reaped, exited}

pub data Child : Type 0 where
  alive : Child
  dead : Option Bytes → Child

-- The goroutine `e.waitErr = cmd.Wait(); close(e.done)`.
pub data Reaper : Type 0 where
  waiting stored closed : Reaper

-- `pipe` is stderr that is not copied yet, and `output` all that the process has ever written to
-- it.
pub record Life : Type 0 where
  pub child : Child
  pub output : Bytes
  pub pipe : Bytes
  pub tail : TailBuffer
  pub reaper : Reaper
  pub wait_err : Option Bytes
  pub file : Bool

-- 8 << 10
abbrev pub tail_max : ℕ
tail_max = 8192

-- What `Start` returns.
abbrev pub spawned : Life
spawned = record {
  child = alive;
  output = [];
  pipe = [];
  tail = record { buf = []; max = tail_max };
  reaper = waiting;
  wait_err = none;
  file = true;
}

-- What the process, the copying of its stderr and the reaper do.
pub data Runs (s t : Life) : Type 0 where
  emits :
      (p : Bytes)
      → s.child ≡ alive
      → t ≡ record s { pipe = s.pipe ++ p; output = s.output ++ p }
      → Runs s t
  copies :
      (p rest : Bytes)
      → 0 < length p
      → s.pipe ≡ p ++ rest
      → t ≡ record s { tail = (write s.tail p).0; pipe = rest }
      → Runs s t
  dies : (e : Option Bytes) → s.child ≡ alive → t ≡ record s { child = dead e } → Runs s t
  waits :
      (e : Option Bytes)
      → s.child ≡ dead e
      → s.pipe ≡ []
      → s.reaper ≡ waiting
      → t ≡ record s { wait_err = e; reaper = stored }
      → Runs s t
  closes : s.reaper ≡ stored → t ≡ record s { reaper = closed } → Runs s t

-- Where a call of `Stop` stands: before SIGTERM, at `<-e.done`, before `os.Remove`, at its end.
pub data StopPc : Type 0 where
  idle signalled received finished : StopPc

-- The process may ignore the signal, or be dead already; so SIGTERM itself changes nothing here.
pub data Stops (p : StopPc) (s : Life) (q : StopPc) (t : Life) : Type 0 where
  signals : p ≡ idle → q ≡ signalled → t ≡ s → Stops p s q t
  receives : p ≡ signalled → s.reaper ≡ closed → q ≡ received → t ≡ s → Stops p s q t
  removes : p ≡ received → q ≡ finished → t ≡ record s { file = false } → Stops p s q t

pub record System : Type 0 where
  pub life : Life
  pub pc : ℕ → StopPc

abbrev pub update : (ℕ → StopPc) → ℕ → StopPc → ℕ → StopPc
update f i q j = if i == j then q else f j

pub data Step (s t : System) : Type 0 where
  runs : (l : Life) → Runs s.life l → t ≡ record s { life = l } → Step s t
  stops :
      (i : ℕ) (q : StopPc) (l : Life)
      → Stops (s.pc i) s.life q l
      → t ≡ record { life = l; pc = update s.pc i q }
      → Step s t

pub data Reach : System → Type 0 where
  start : (s : System) → s ≡ record { life = spawned; pc = λ i. idle } → Reach s
  later : (s t : System) → Reach s → Step s t → Reach t

-- Any number of further steps.
pub data Leads (s : System) : System → Type 0 where
  here : (t : System) → t ≡ s → Leads s t
  next : (t u : System) → Leads s t → Step t u → Leads s u

observed_at : Reaper → Option Bytes → Process
observed_at waiting e = running
observed_at stored e = running
observed_at closed e = reaped e

-- What the `select` of `Exited` sees.
unfoldable pub observed : Life → Process
unfolding observed_at
observed s = observed_at s.reaper s.wait_err
