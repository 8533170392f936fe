-- ===== src/Server/Service.antt =====
-- The server on its text tier: `New` of internal/server/server.go, and the handlers with `Generate`
-- and `Complete` behind them. The random numbers of an id, the time and the engine are arguments.
pub mod Answers
pub mod Completes
use flash_qwen.Chatml
use flash_qwen.Engine.Client.{Result, Rpc}
use flash_qwen.Engine.Generate.{Generator, GenerateRequest, Floats, generate}
use flash_qwen.Engine.{Request, Completion}
use flash_qwen.Prelude.{ℕ, Bool, true, false, List, Option, Bytes}
use flash_qwen.Server.Chat.{Envelope, Reply, chat_completions}
use flash_qwen.Engine.Raw.{complete}
use flash_qwen.Server.Completions.{completions}
use flash_qwen.Server.Completions
use flash_qwen.Server.Routes.{ModelList, model_list, new_id}
use flash_qwen.Server.{ChatRequest, CompletionRequest}

pub record Server : Type 0 where
  pub gen : Generator
  pub model : Bytes

unfoldable pub new_server : Generator → Bytes → Server
new_server gen model = record { gen = gen; model = model }

-- `listModels`, at the time `now`
unfoldable pub list_models : Server → ℕ → ModelList
unfolding model_list
list_models s now = model_list s.model now

-- What a request finds: two random numbers and the time.
pub record Moment : Type 0 where
  pub random : ℕ × ℕ
  pub now : ℕ

unfoldable pub envelope : Server → Moment → Envelope
unfolding new_id
envelope s m = record { id = new_id m.random.0 m.random.1; created = m.now; model = s.model }

module _ (fl : Floats) (marshal : Bytes → Option Bytes → Bytes → Bytes)
    (unmarshal : Bytes → Option (Bytes × Bytes)) where
  generation :
      Generator
      → (GenerateRequest fl.Float32 → Rpc)
      → Request fl.Float
      → List (Bytes × Option Chatml.ToolCall) × Result Completion
  unfolding generate
  generation g engine req =
      let (p, result) = generate unmarshal fl marshal g engine req in (p.deltas, result)

  -- The client stays connected, and its writer flushes.
  unfoldable pub chat_service :
      Server
      → Moment
      → (GenerateRequest fl.Float32 → Rpc)
      → Bytes
      → Option (ChatRequest fl.Float)
      → Reply
  unfolding chat_completions envelope generation
  chat_service s m engine bind_error body =
      chat_completions (envelope s m) true false (generation s.gen engine) bind_error body

module _ (fl : Floats) (marshal : Bytes → Option Bytes → Bytes → Bytes) where
  raw_generation :
      Generator
      → (GenerateRequest fl.Float32 → Rpc)
      → Request fl.Float
      → List Bytes × Result Completion
  unfolding complete
  raw_generation g engine req =
      let (p, result) = complete fl marshal g engine req in (p.deltas, result)

  -- The client stays connected, and its writer flushes.
  unfoldable pub completion_service :
      Server
      → Moment
      → (GenerateRequest fl.Float32 → Rpc)
      → Bytes
      → Option (CompletionRequest fl.Float)
      → Completions.Reply
  unfolding completions envelope raw_generation
  completion_service s m engine bind_error body =
      completions (envelope s m) true false (raw_generation s.gen engine) bind_error body
