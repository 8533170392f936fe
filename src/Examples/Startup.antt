-- ===== src/Examples/Startup.antt =====
-- A start of the engine and the opening of a session on concrete input.
use flash_qwen.Prelude.{true, ℕ, false, [], ◌∷◌, ◌++◌, itoa, none, some, Bytes, codes, inl, inr}
use flash_qwen.Chatml.{many}
use flash_qwen.Cli.Open.{World, open_model}
use flash_qwen.Cli.Open.Holds.{Outcome, open_model-Outcome}
use flash_qwen.Examples.Vocab.{vocab}
use flash_qwen.Tokenizer.Load.Files.{loaded}
use flash_qwen.Supervisor.Start.{given, Host, Options}
use flash_qwen.Prelude.Int.{pos}

-- A fraction in hundredths, as text.
abbrev format_percent : ℕ → Bytes
format_percent n = codes "0." ++ itoa n

abbrev options : Options ℕ
options = record {
  model_dir = codes "/models/qwen";
  slots = pos 16;
  max_ctx = pos 4096;
  max_waiting = pos 0;
  token_budget = pos 1024;
  prefill_chunk = pos 512;
  gpu_mem_fraction = 90;
}

abbrev host : Host
host = record {
  temp = given (codes "/tmp/flashqwen-engine-1");
  write_error = none;
  chmod_error = none;
  listen = given (codes "127.0.0.1:40001");
  start_error = none;
}

-- The engine answers in the second round.
abbrev world : World
world = record {
  tokenizer = loaded vocab;
  eos = many (pos 259 ∷ []);
  host = host;
  dial_error = none;
  polls =
      record { model = none; exit = none; late = false }
      ∷ record {
        model = some (record { id = codes "qwen"; max_ctx = pos 4096; vocab_size = pos 260 });
        exit = none;
        late = false;
      }
      ∷ [];
  dies = true;
}

open_model-Outcome_example :
    Outcome format_percent options world (open_model format_percent options world)
open_model-Outcome_example =
    open_model-Outcome format_percent options world (inr (inr (inr (inl (λ e. cc)))))
