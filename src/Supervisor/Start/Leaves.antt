-- ===== src/Supervisor/Start/Leaves.antt =====
-- What a `Start` leaves behind.
use flash_qwen.Prelude.{
  List, [], ◌∷◌, Option, none, some, Bytes, bytes_eq, codes, int_text, if◌then◌else◌, ◌≡◌, refl,
}
use flash_qwen.Supervisor.Life.{spawned}
use flash_qwen.Supervisor.Start.{
  Answer, given, failed, Host, Action, created, removed, chmodded, listened, unlistened, executed,
  Options, Started, engine, error, engine_args, extract, start,
}

-- The extracted file, the address that is listened on, and the process with its arguments.
pub record Held : Type 0 where
  pub file : Option Bytes
  pub port : Option Bytes
  pub process : Option (Bytes × List Bytes)

unfoldable pub apply : Held → Action → Held
apply h (created path) = record h { file = some path }
apply h (removed path) = record h { file = none }
apply h (chmodded path) = h
apply h (listened addr) = record h { port = some addr }
apply h (unlistened addr) = record h { port = none }
apply h (executed path args) = record h { process = some (path, args) }

unfoldable pub leaves : Held → List Action → Held
unfolding apply
leaves h [] = h
leaves h (a ∷ actions) = leaves (apply h a) actions

abbrev pub nothing : Held
nothing = record { file = none; port = none; process = none }

-- The value that follows an option.
pub option_value : Bytes → List Bytes → Option Bytes
option_value name [] = none
option_value name (x ∷ []) = none
option_value name (x ∷ y ∷ args) =
    let later = option_value name args in if bytes_eq x name then some y else later

module _ {Float : Type 0} (format_float : Float → Bytes) where
  -- Each option of the engine has the value that was asked for.
  pub record Passes (o : Options Float) (addr : Bytes) (args : List Bytes) : Type 0 where
    pub model : option_value (codes "--model") args ≡ some o.model_dir
    pub address : option_value (codes "--address") args ≡ some addr
    pub slots : option_value (codes "--slots") args ≡ some (int_text o.slots)
    pub max_ctx : option_value (codes "--max-ctx") args ≡ some (int_text o.max_ctx)
    pub max_waiting : option_value (codes "--max-waiting") args ≡ some (int_text o.max_waiting)
    pub token_budget : option_value (codes "--token-budget") args ≡ some (int_text o.token_budget)
    pub prefill_chunk :
        option_value (codes "--prefill-chunk") args ≡ some (int_text o.prefill_chunk)
    pub gpu_mem_fraction :
        option_value (codes "--gpu-mem-fraction") args ≡ some (format_float o.gpu_mem_fraction)

  engine_args-Passes :
      (o : Options Float) (addr : Bytes) → Passes o addr (engine_args format_float o addr)
  unfolding engine_args option_value
  engine_args-Passes o addr = record {
    model = refl;
    address = refl;
    slots = refl;
    max_ctx = refl;
    max_waiting = refl;
    token_budget = refl;
    prefill_chunk = refl;
    gpu_mem_fraction = refl;
  }

  -- The file that a failed start leaves: none, but for a failure to write it or to make it executable.
  abbrev pub orphan : Answer → Option Bytes → Option Bytes → Option Bytes
  orphan (failed e) write_error chmod_error = none
  orphan (given path) (some e) chmod_error = some path
  orphan (given path) none (some e) = some path
  orphan (given path) none none = none

  abbrev pub Leaves : Options Float → Host → Started → Held → Type 0
  Leaves o h (engine e) held =
      (args : List Bytes) × (held
        ≡ record { file = some e.path; port = none; process = some (e.path, args) })
      × (e.life ≡ spawned)
      × Passes o e.addr args
  Leaves o h (error text) held =
      held
      ≡ record { file = orphan h.temp h.write_error h.chmod_error; port = none; process = none }

  -- A `Start` that succeeds leaves the extracted binary and one process that runs it, with every
  -- option as asked for and the port released to it. One that fails leaves no process and no port, and
  -- no file, except when the file could not be written or made executable: then it stays behind.
  pub start-Leaves :
      (o : Options Float) (h : Host)
      → Leaves o h (start format_float o h).0 (leaves nothing (start format_float o h).1)
  unfolding start leaves
  start-Leaves o h = by_answers h.temp h.write_error h.chmod_error h.listen h.start_error
    where
      by_answers :
          (temp : Answer) (write_error chmod_error : Option Bytes) (listen : Answer)
          (start_error : Option Bytes)
          → (let host : Host = record {
            temp = temp;
            write_error = write_error;
            chmod_error = chmod_error;
            listen = listen;
            start_error = start_error;
          } in
              let out = extract format_float o host temp in
              Leaves o host out.0 (leaves nothing out.1))
      by_answers (failed e) w c l s = refl
      by_answers (given path) (some e) c l s = refl
      by_answers (given path) none (some e) l s = refl
      by_answers (given path) none none (failed e) s = refl
      by_answers (given path) none none (given addr) (some e) = refl
      by_answers (given path) none none (given addr) none =
          (engine_args format_float o addr, refl, refl, engine_args-Passes o addr)
