-- ===== src/Cli/Flags.antt =====
-- The flags of the two commands, and what they hand to `open`. Go's `flag` package, which reads the
-- arguments, is outside of the model, and so is its exit on an argument that it cannot read.
use flash_qwen.Cli.Chat.{Chat}
use flash_qwen.Prelude.Int.{ℤ, pos}
use flash_qwen.Prelude.{
  Bool, false, [], Option, none, some, length, ◌==◌, if◌then◌else◌, Bytes, codes,
}
use flash_qwen.Supervisor.Start.{Options}

pub record ServeFlags (Float : Type 0) : Type 0 where
  pub model : Bytes
  pub addr : Bytes
  pub slots : ℤ
  pub max_ctx : ℤ
  pub max_waiting : ℤ
  pub token_budget : ℤ
  pub prefill_chunk : ℤ
  pub gpu_mem_fraction : Float

pub record ChatFlags : Type 0 where
  pub model : Bytes
  pub max_ctx : ℤ
  pub think : Bool

abbrev pub chat_defaults : ChatFlags
chat_defaults = record { model = []; max_ctx = pos 4096; think = false }

-- The conversation that `runChat` begins with.
unfoldable pub new_chat : ChatFlags → Chat
new_chat f = record { history = []; thinking = f.think }

-- `nine_tenths` is the constant 0.9.
module _ {Float : Type 0} (nine_tenths : Float) where
  abbrev pub serve_defaults : ServeFlags Float
  serve_defaults = record {
    model = [];
    addr = codes ":8000";
    slots = pos 16;
    max_ctx = pos 4096;
    max_waiting = pos 0;
    token_budget = pos 1024;
    prefill_chunk = pos 512;
    gpu_mem_fraction = nine_tenths;
  }

  -- none is log.Fatal
  unfoldable pub serve_options : ServeFlags Float → Option (Options Float)
  serve_options f =
      if length f.model == 0
      then none
      else some (record {
        model_dir = f.model;
        slots = f.slots;
        max_ctx = f.max_ctx;
        max_waiting = f.max_waiting;
        token_budget = f.token_budget;
        prefill_chunk = f.prefill_chunk;
        gpu_mem_fraction = f.gpu_mem_fraction;
      })

  unfoldable pub chat_options : ChatFlags → Option (Options Float)
  chat_options f =
      if length f.model == 0
      then none
      else some (record {
        model_dir = f.model;
        slots = pos 1;
        max_ctx = f.max_ctx;
        max_waiting = pos 0;
        token_budget = pos 1024;
        prefill_chunk = pos 512;
        gpu_mem_fraction = nine_tenths;
      })
