-- ===== src/Server/Sse.antt =====
-- The bytes of a streamed reply: `data: …` and a blank line for each event. json.Marshal is a
-- parameter.
pub mod Events
use flash_qwen.Prelude.{List, [], ◌∷◌, ◌++◌, flat_map, Bytes, codes}
use flash_qwen.Server.Chat.{ChatCompletion, Frame, chunk, failure, done}
use flash_qwen.Server.Completions
use flash_qwen.Server.Completions.{TextCompletion}
use flash_qwen.Server.{ErrorBody}

-- fmt.Fprintf(c.Writer, "data: %s\n\n", b)
unfoldable pub data_event : Bytes → Bytes
data_event b = codes "data: " ++ (b ++ codes "\n\n")

-- What json.Marshal writes for a chunk of either handler, and for the object of an error.
pub record Marshal : Type 0 where
  pub chat_completion : ChatCompletion → Bytes
  pub error_object : ErrorBody → Bytes
  pub text_completion : TextCompletion → Bytes

module _ (m : Marshal) where
  unfoldable pub payload : Frame → Bytes
  payload (chunk cc) = m.chat_completion cc
  payload (failure body) = m.error_object body
  payload done = codes "[DONE]"

  unfoldable pub wire : List Frame → Bytes
  unfolding data_event payload
  wire [] = []
  wire (f ∷ frames) = data_event (payload f) ++ wire frames

  -- those of `streamCompletion`
  unfoldable pub raw_payload : Completions.Frame → Bytes
  raw_payload (Completions.chunk tc) = m.text_completion tc
  raw_payload (Completions.failure body) = m.error_object body
  raw_payload Completions.done = codes "[DONE]"

  unfoldable pub raw_wire : List Completions.Frame → Bytes
  unfolding data_event raw_payload
  raw_wire [] = []
  raw_wire (f ∷ frames) = data_event (raw_payload f) ++ raw_wire frames
