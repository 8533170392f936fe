-- ===== src/Cli/Open.antt =====
-- `open` of cmd/flashqwen/common.go, over what each of its steps does: the vocabulary that Load reads,
-- the constants of ChatML, `Start`, `Dial`, and the rounds of `WaitReady`.
pub mod Effects
pub mod Holds
use flash_qwen.Chatml.{EosField, Format}
use flash_qwen.Chatml
use flash_qwen.Engine.Client.{
  Failure, err_over_capacity, err_engine_internal, transport, err_prompt_too_long, timed_out,
  exited, Result, ok, err, error_text, Poll, wait_ready,
}
use flash_qwen.Engine.Generate.{Generator, new_generator}
use flash_qwen.Engine.{ModelInfo}
use flash_qwen.Prelude.{
  Bool, true, false, List, [], ◌∷◌, ◌++◌, Option, none, some, map, Bytes, codes,
}
use flash_qwen.Supervisor.Start
use flash_qwen.Supervisor.Start.{Action, Engine, Host, Options, Started, engine, error}
use flash_qwen.Tokenizer.Load.Files.{Loaded, loaded, load_error}
use flash_qwen.Tokenizer.{Tokenizer}

-- What the files and the environment give: `tokenizer` is what Load returns, and `dial_error` the
-- error of grpc.NewClient, if any. `dies` is whether the engine process has died, or dies behind the
-- SIGTERM that `Stop` sends: it may ignore it.
pub record World : Type 0 where
  pub tokenizer : Loaded Tokenizer
  pub eos : EosField
  pub host : Host
  pub dial_error : Option Bytes
  pub polls : List Poll
  pub dies : Bool

-- `session`; its `stop` closes the connection and stops this engine.
pub record Session : Type 0 where
  pub gen : Generator
  pub info : ModelInfo
  pub engine : Engine

-- What is done, in order: what `Start` does, and the connection; and of `Stop` the signal, the end of
-- the wait for the process, and the path that is removed.
pub data Act : Type 0 where
  supervisor : Action → Act
  dialed closed signalled reaped : Act
  removed : Bytes → Act

pub data Opened : Type 0 where
  session : Session → Opened
  failed : Bytes → Opened

-- `Stop`; none if it blocks at `<-e.done`, as long as the process does not die
unfoldable pub stop_engine : Bool → Engine → Option (List Act)
stop_engine false e = none
stop_engine true e = some (signalled ∷ reaped ∷ removed e.path ∷ [])

after : List Act → Option (List Act) → Option (List Act)
after acts none = none
after acts (some later) = some (acts ++ later)

-- the session's `stop`
unfoldable pub stop : Bool → Session → Option (List Act)
unfolding stop_engine after
stop dies s = after (closed ∷ []) (stop_engine dies s.engine)

-- startupTimeout, as text
abbrev pub startup_timeout : Bytes
startup_timeout = codes "30m0s"

-- An engine whose exit was reported is dead.
dead_by : Failure → Bool → Bool
dead_by (exited e) dies = true
dead_by (err_over_capacity e) dies = dies
dead_by (err_engine_internal e) dies = dies
dead_by (transport e) dies = dies
dead_by (err_prompt_too_long n max_ctx) dies = dies
dead_by (timed_out e) dies = dies

fail_with : Bytes → Option (List Act) → Option (Opened × List Act)
fail_with e none = none
fail_with e (some acts) = some (failed e, acts)

ready : Bool → Format → Tokenizer → Engine → Result ModelInfo → Option (Opened × List Act)
unfolding new_generator stop_engine after dead_by fail_with
ready dies cm tok e (err f) =
    fail_with (error_text f) (after (dialed ∷ closed ∷ []) (stop_engine (dead_by f dies) e))
ready dies cm tok e (ok info) = some (
  session (record { gen = new_generator cm tok info.max_ctx; info = info; engine = e }),
  dialed ∷ [],
)

-- none if the rounds run out
await : Bool → Format → Tokenizer → Engine → Option (Result ModelInfo) → Option (Opened × List Act)
unfolding ready
await dies cm tok e none = none
await dies cm tok e (some r) = ready dies cm tok e r

connect : World → Format → Tokenizer → Engine → Option Bytes → Option (Opened × List Act)
unfolding await wait_ready fail_with stop_engine
connect w cm tok e (some f) = fail_with f (stop_engine w.dies e)
connect w cm tok e none = await w.dies cm tok e (wait_ready startup_timeout w.polls)

behind : List Action → Option (Opened × List Act) → Option (Opened × List Act)
behind actions none = none
behind actions (some (out, later)) = some (out, map supervisor actions ++ later)

launched : World → Format → Tokenizer → Started × List Action → Option (Opened × List Act)
unfolding connect behind
launched w cm tok (error e, actions) = some (failed e, map supervisor actions)
launched w cm tok (engine e, actions) = behind actions (connect w cm tok e w.dial_error)

-- `open`, which is no name here; none if it does not return
module _ {Float : Type 0} (format_float : Float → Bytes) where
  with_tokenizer : Options Float → World → Loaded Tokenizer → Option (Opened × List Act)
  unfolding launched Chatml.load Start.start
  with_tokenizer o w (load_error e) = some (failed e, [])
  with_tokenizer o w (loaded tok) =
      launched w (Chatml.load w.eos tok) tok (Start.start format_float o w.host)

  unfoldable pub open_model : Options Float → World → Option (Opened × List Act)
  unfolding with_tokenizer
  open_model o w = with_tokenizer o w w.tokenizer
