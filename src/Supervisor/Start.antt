-- ===== src/Supervisor/Start.antt =====
-- `Start` and `freePort`: what they ask of the operating system, in order, and what comes of each
-- answer. The text of a float is a parameter.
pub mod Leaves
use flash_qwen.Prelude.Int.{ℤ}
use flash_qwen.Prelude.{List, [], ◌∷◌, ◌++◌, Option, none, some, Bytes, codes, int_text}
use flash_qwen.Supervisor.Life.{Life, spawned}

pub data Answer : Type 0 where
  given failed : Bytes → Answer

-- What os.CreateTemp, Write, os.Chmod, net.Listen and cmd.Start answer; none is no error.
pub record Host : Type 0 where
  pub temp : Answer
  pub write_error : Option Bytes
  pub chmod_error : Option Bytes
  pub listen : Answer
  pub start_error : Option Bytes

pub data Action : Type 0 where
  created removed chmodded listened unlistened : Bytes → Action
  executed : Bytes → List Bytes → Action

pub record Options (Float : Type 0) : Type 0 where
  pub model_dir : Bytes
  pub slots : ℤ
  pub max_ctx : ℤ
  pub max_waiting : ℤ
  pub token_budget : ℤ
  pub prefill_chunk : ℤ
  pub gpu_mem_fraction : Float

-- `Engine`: the address, the path of the extracted binary, and the process with its reaper.
pub record Engine : Type 0 where
  pub addr : Bytes
  pub path : Bytes
  pub life : Life

pub data Started : Type 0 where
  engine : Engine → Started
  error : Bytes → Started

unfoldable pub free_port : Answer → Answer × List Action
free_port (failed e) = (failed e, [])
free_port (given addr) = (given addr, listened addr ∷ unlistened addr ∷ [])

module _ {Float : Type 0} (format_float : Float → Bytes) where
  unfoldable pub engine_args : Options Float → Bytes → List Bytes
  engine_args o addr =
      codes "--model"
      ∷ o.model_dir
      ∷ codes "--address"
      ∷ addr
      ∷ codes "--slots"
      ∷ int_text o.slots
      ∷ codes "--max-ctx"
      ∷ int_text o.max_ctx
      ∷ codes "--max-waiting"
      ∷ int_text o.max_waiting
      ∷ codes "--token-budget"
      ∷ int_text o.token_budget
      ∷ codes "--prefill-chunk"
      ∷ int_text o.prefill_chunk
      ∷ codes "--gpu-mem-fraction"
      ∷ format_float o.gpu_mem_fraction
      ∷ []

  launch : Options Float → Bytes → Bytes → Option Bytes → Started × List Action
  unfolding engine_args
  launch o path addr (some e) = (error (codes "start engine: " ++ e), removed path ∷ [])
  launch o path addr none = (
    engine (record { addr = addr; path = path; life = spawned }),
    executed path (engine_args o addr) ∷ [],
  )

  find_port : Options Float → Host → Bytes → Answer × List Action → Started × List Action
  unfolding launch
  find_port o h path (failed e, actions) = (error e, actions ++ removed path ∷ [])
  find_port o h path (given addr, actions) =
      let (started, later) = launch o path addr h.start_error in (started, actions ++ later)

  make_executable : Options Float → Host → Bytes → Option Bytes → Started × List Action
  unfolding find_port free_port
  make_executable o h path (some e) = (error e, [])
  make_executable o h path none =
      let (started, later) = find_port o h path (free_port h.listen) in
      (started, chmodded path ∷ later)

  write_binary : Options Float → Host → Bytes → Option Bytes → Started × List Action
  unfolding make_executable
  write_binary o h path (some e) = (error e, [])
  write_binary o h path none = make_executable o h path h.chmod_error

  extract : Options Float → Host → Answer → Started × List Action
  unfolding write_binary
  extract o h (failed e) = (error e, [])
  extract o h (given path) =
      let (started, later) = write_binary o h path h.write_error in (started, created path ∷ later)

  unfoldable pub start : Options Float → Host → Started × List Action
  unfolding extract
  start o h = extract o h h.temp
