-- ===== src/Chatml/Render.antt =====
-- internal/chatml/render.go: the ChatML prompt of a conversation. What `json.Marshal` writes for a
-- function of a name, a description if there is one, and parameters is a parameter.
pub mod Turns
use flash_qwen.Chatml.{ToolCall, Message, ToolDef}
use flash_qwen.Prelude.{
  Bool, false, List, [], ◌∷◌, ◌++◌, Option, none, some, length, ◌==◌, bytes_eq, if◌then◌else◌,
  Bytes, codes, flat_map,
}

module _ (marshal : Bytes → Option Bytes → Bytes → Bytes) where
  unfoldable pub tool_json : ToolDef → Bytes
  tool_json t =
      marshal t.name (if bytes_eq t.description [] then none else some t.description)
        (if length t.parameters_json == 0 then codes "{}" else t.parameters_json)

unfoldable pub has_role : Bytes → Message → Bool
has_role role m = bytes_eq m.role role

-- Whether the message before, or behind, is the result of a tool.
unfoldable pub is_tool : Option Message → Bool
unfolding has_role
is_tool none = false
is_tool (some m) = has_role (codes "tool") m

unfoldable pub head : List Message → Option Message
head [] = none
head (m ∷ msgs) = some m

tool_call_text : ToolCall → Bytes
tool_call_text tc =
    codes "\n<tool_call>\n{\"name\": \""
    ++ (tc.name
        ++ (codes "\", \"arguments\": "
            ++ ((if bytes_eq tc.arguments_json [] then codes "{}" else tc.arguments_json)
                ++ codes "}\n</tool_call>")))

abbrev pub im_end : Bytes
im_end = codes "<|im_end|>\n"

abbrev pub open_user : Bytes
open_user = codes "<|im_start|>user\n"

pub tool_response : Message → Bytes
tool_response m = codes "<tool_response>\n" ++ (m.content ++ codes "\n</tool_response>\n")

-- One round of the loop over the messages: `prev` is msgs[i-1], none at the first, `next` msgs[i+1].
turn : Option Message → Message → Option Message → Bytes
unfolding has_role is_tool tool_call_text tool_response flat_map
turn prev m next =
    if has_role (codes "user") m
    then open_user ++ (m.content ++ im_end)
    else if has_role (codes "assistant") m
    then codes "<|im_start|>assistant\n"
      ++ (m.content ++ (flat_map tool_call_text m.tool_calls ++ im_end))
    else if has_role (codes "tool") m
    then (if is_tool prev then [] else open_user)
      ++ (tool_response m ++ (if is_tool next then [] else im_end))
    else []

pub turns : Option Message → List Message → Bytes
unfolding turn head
turns prev [] = []
turns prev (m ∷ msgs) = turn prev m (head msgs) ++ turns (some m) msgs

-- The messages behind a leading system message, and that message's content.
system_of : List Message → Option Bytes
system_of [] = none
system_of (m ∷ msgs) = if has_role (codes "system") m then some m.content else none

rest_of : List Message → List Message
rest_of [] = []
rest_of (m ∷ msgs) = if has_role (codes "system") m then msgs else m ∷ msgs

module _ (marshal : Bytes → Option Bytes → Bytes → Bytes) where
  tool_lines : List ToolDef → Bytes
  unfolding flat_map tool_json
  tool_lines tools = flat_map (λ t. codes "\n" ++ tool_json marshal t) tools

  header : Option Bytes → List ToolDef → Bytes
  unfolding tool_lines
  header none [] = []
  header (some system) [] = codes "<|im_start|>system\n" ++ (system ++ im_end)
  header system (t ∷ tools) =
      codes "<|im_start|>system\n"
      ++ ((elim system [ none ↦ [] | some content ↦ content ++ codes "\n\n" ])
          ++ (codes
                "# Tools\n\nYou may call one or more functions to assist with the user query.\n\nYou are provided with function signatures within <tools></tools> XML tags:\n<tools>"
              ++ (tool_lines (t ∷ tools)
                  ++ codes
                      "\n</tools>\n\nFor each function call, return a json object with function name and arguments within <tool_call></tool_call> XML tags:\n<tool_call>\n{\"name\": <function-name>, \"arguments\": <args-json-object>}\n</tool_call><|im_end|>\n")))

  unfoldable pub render : List Message → List ToolDef → Bool → Bytes
  unfolding header turns system_of rest_of has_role
  render msgs tools enable_thinking =
      header (system_of msgs) tools
      ++ (turns none (rest_of msgs)
          ++ (codes "<|im_start|>assistant\n"
              ++ (if enable_thinking then [] else codes "<think>\n\n</think>\n\n")))
