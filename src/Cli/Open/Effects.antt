-- ===== src/Cli/Open/Effects.antt =====
-- What the acts of an `open` leave behind.
use flash_qwen.Cli.Open.{Act, supervisor, dialed, closed, signalled, reaped, removed}
use flash_qwen.Prelude.{
  Bool, true, false, List, [], ◌∷◌, ◌++◌, Option, none, some, map, Bytes, ◌≡◌, refl, bytes_eq,
  if◌then◌else◌,
}
use flash_qwen.Supervisor.Start.Leaves
use flash_qwen.Supervisor.Start.Leaves.{Held, nothing, leaves, Passes, orphan, start-Leaves}
use flash_qwen.Supervisor.Start.{Action}

-- What `Start` has left, and whether the connection is open.
pub record Holdings : Type 0 where
  pub held : Held
  pub connection : Bool

-- The removal of a path takes the file that is there, if it is that one.
unfoldable pub without : Option Bytes → Bytes → Option Bytes
without none path = none
without (some file) path = if bytes_eq file path then none else some file

-- The signal by itself changes nothing; a process that `Wait` has returned for is gone.
unfoldable pub apply : Holdings → Act → Holdings
unfolding Leaves.apply without
apply h (supervisor a) = record h { held = Leaves.apply h.held a }
apply h dialed = record h { connection = true }
apply h closed = record h { connection = false }
apply h signalled = h
apply h reaped = record h { held = record h.held { process = none } }
apply h (removed path) = record h { held = record h.held { file = without h.held.file path } }

unfoldable pub holds : Holdings → List Act → Holdings
unfolding apply
holds h [] = h
holds h (a ∷ acts) = holds (apply h a) acts

abbrev pub idle : Holdings
idle = record { held = nothing; connection = false }

pub holds-append : (h : Holdings) (xs ys : List Act) → holds h (xs ++ ys) ≡ holds (holds h xs) ys
unfolding holds
holds-append h [] ys = refl
holds-append h (a ∷ xs) ys = holds-append (apply h a) xs ys

pub holds-supervisor :
    (h : Holdings) (actions : List Action)
    → holds h (map supervisor actions) ≡ record h { held = leaves h.held actions }
unfolding holds apply leaves Leaves.apply
holds-supervisor h [] = refl
holds-supervisor h (a ∷ actions) = holds-supervisor (apply h (supervisor a)) actions
