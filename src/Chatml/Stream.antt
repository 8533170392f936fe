-- ===== src/Chatml/Stream.antt =====
-- internal/chatml/stream.go: token ids into text deltas and tool calls. What `json.Unmarshal` makes
-- of a tool call's bytes, the name and the raw arguments, is a parameter.
pub mod Runes
pub mod Deltas
pub mod Calls
use flash_qwen.Chatml.{ToolCall, Format}
use flash_qwen.Prelude.Int.{ℤ, pos, negsuc, eqb}
use flash_qwen.Prelude.{
  ℕ, zero, suc, ◌+◌, ◌/◌, ◌%◌, Bool, true, false, not, List, [], ◌∷◌, ◌++◌, Option, none, some,
  length, get_or, take, drop, ltb, leb, ◌==◌, if◌then◌else◌, Bytes, codes, itoa, bytes_eq, ◌≡◌,
  refl,
}
use flash_qwen.Tokenizer.{is_special, token_bytes, decode}
use flash_qwen.Utf8.Size.{size}
use flash_qwen.Utf8.{decode_rune, full_rune, rune_self}

pub record Stream : Type 0 where
  pub pending : Bytes
  pub in_tool : Bool
  pub tool_ids : List ℤ
  pub n_tools : ℕ

unfoldable pub new_stream : Stream
new_stream = record { pending = []; in_tool = false; tool_ids = []; n_tools = 0 }

-- The loop of `takeRunes` on fuel: where the last whole rune ends.
unfoldable pub runes_end : ℕ → Bytes → ℕ → ℕ
runes_end zero p i = i
runes_end (suc f) p i =
    let ascii = runes_end f p (i + 1) in
    let rune = runes_end f p (i + size (drop i p)) in
    if leb (length p) i
    then i
    else if ltb (get_or p i 0) rune_self
    then ascii
    else if not (full_rune (drop i p))
    then i
    else rune

unfoldable pub take_runes : Stream → Stream × Bytes
unfolding runes_end
take_runes s =
    let i = runes_end (length s.pending) s.pending 0 in
    if i == 0 then (s, []) else (record s { pending = drop i s.pending }, take i s.pending)

unfoldable pub flush : Stream → Stream × Bytes
flush s = if length s.pending == 0 then (s, []) else (record s { pending = [] }, s.pending)

unfoldable pub call_id : ℕ → Bytes
unfolding itoa
call_id n = codes "call_" ++ itoa n

module _ (unmarshal : Bytes → Option (Bytes × Bytes)) where
  -- the call that these bytes are, if JSON reads them and the name is not empty
  tool_of : ℕ → Option (Bytes × Bytes) → Option ToolCall
  tool_of n none = none
  tool_of n (some (name, arguments)) =
      if length name == 0
      then none
      else some (record {
        id = call_id n;
        name = name;
        arguments_json = if ltb 0 (length arguments) then arguments else codes "{}";
      })

  count_tool : Stream → Option ToolCall → Stream × Option ToolCall
  count_tool s none = (s, none)
  count_tool s (some tc) = (record s { n_tools = s.n_tools + 1 }, some tc)

  unfoldable pub parse_tool : Format → Stream → Stream × Option ToolCall
  unfolding tool_of count_tool
  parse_tool m s = count_tool s (tool_of s.n_tools (unmarshal (decode m.tok s.tool_ids)))

  unfoldable pub push : Format → Stream → ℤ → Stream × Bytes × Option ToolCall
  push m s id =
      if eqb id m.tool_open
      then (record s { in_tool = true; tool_ids = [] }, [], none)
      else if eqb id m.tool_close
      then (let (s', tool) = parse_tool m (record s { in_tool = false }) in (s', [], tool))
      else if s.in_tool
      then (record s { tool_ids = s.tool_ids ++ id ∷ [] }, [], none)
      else if is_special m.tok id
      then (s, [], none)
      else (let (s', text) =
            take_runes (record s { pending = s.pending ++ decode m.tok (id ∷ []) }) in
          (s', text, none))
