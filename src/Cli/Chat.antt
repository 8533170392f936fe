-- ===== src/Cli/Chat.antt =====
-- cmd/flashqwen/chat.go: the interactive loop, over the lines that are read. What it prints and asks
-- of the text tier comes back in order; the marks around the text are left out.
pub mod History
use flash_qwen.Chatml.{ToolCall, Message}
use flash_qwen.Engine.Client.{Result, ok, err, error_text}
use flash_qwen.Engine.{Request, Completion}
use flash_qwen.Prelude.Int.{pos}
use flash_qwen.Prelude.{
  ℕ, ◌-◌, Bool, true, false, ◌||◌, ◌==◌, List, [], ◌∷◌, ◌++◌, Option, none, some, length, take, map,
  bytes_eq, if◌then◌else◌, Bytes, codes,
}

pub record Chat : Type 0 where
  pub history : List Message
  pub thinking : Bool

pub data Event (Float : Type 0) : Type 0 where
  asked : Request Float → Event Float
  printed : Bytes → Event Float

abbrev pub user : Bytes → Message
user line = record { role = codes "user"; content = line; tool_calls = []; tool_call_id = [] }

abbrev pub assistant : Bytes → Message
assistant text = record {
  role = codes "assistant";
  content = text;
  tool_calls = [];
  tool_call_id = [];
}

-- strings.TrimRight(line, "\r\n")
trim_right : Bytes → Bytes
trim_right [] = []
trim_right (b ∷ line) =
    let rest = trim_right line in
    if length rest == 0 then (if b == 13 || b == 10 then [] else b ∷ []) else b ∷ rest

module _ {Float : Type 0}
    (generate : Request Float → List (Bytes × Option ToolCall) × Result Completion) where
  ask : List Message → Bool → Request Float
  ask history thinking = record {
    messages = history;
    tools = [];
    enable_thinking = thinking;
    max_tokens = pos 0;
    temperature = none;
    top_p = none;
    ignore_eos = false;
    raw_prompt = [];
    input_ids = [];
  }

  show_deltas : List (Bytes × Option ToolCall) → List (Event Float)
  show_deltas deltas = map (λ (d : Bytes × Option ToolCall). printed d.0) deltas

  -- Behind `Generate`; `history` ends with the user's line.
  settle : Chat → List Message → Result Completion → Chat × List (Event Float)
  settle c history (err e) = (
    record c { history = take (length history - 1) history },
    printed (codes "[error: " ++ (error_text e ++ codes "]\n")) ∷ [],
  )
  settle c history (ok res) = (record c { history = history ++ assistant res.text ∷ [] }, [])

  answer : Chat → Bytes → Chat × List (Event Float)
  unfolding ask show_deltas settle
  answer c line =
      let history = c.history ++ user line ∷ [] in
      let req = ask history c.thinking in
      let (deltas, result) = generate req in
      let (c', events) = settle c history result in (c', asked req ∷ (show_deltas deltas ++ events))

  -- One round of the loop; none if it returns.
  handle : Chat → Bytes → Option (Chat × List (Event Float))
  unfolding answer
  handle c line =
      if bytes_eq line (codes "/exit") || bytes_eq line (codes "/quit")
      then none
      else if bytes_eq line []
      then some (c, [])
      else if bytes_eq line (codes "/reset")
      then some (record c { history = [] }, printed (codes "[context cleared]\n") ∷ [])
      else if bytes_eq line (codes "/think on")
      then some (record c { thinking = true }, printed (codes "[thinking on]\n") ∷ [])
      else if bytes_eq line (codes "/think off")
      then some (record c { thinking = false }, printed (codes "[thinking off]\n") ∷ [])
      else some (answer c line)

  -- The loop, up to a command that ends it or the end of the input.
  unfoldable pub run_chat : Chat → List Bytes → Chat × List (Event Float)
  unfolding handle trim_right
  run_chat c [] = (c, [])
  run_chat c (line ∷ lines) = elim (handle c (trim_right line)) [
    | none ↦ (c, [])
    | some (c', events) ↦ let (last, later) = run_chat c' lines in (last, events ++ later)
  ]
