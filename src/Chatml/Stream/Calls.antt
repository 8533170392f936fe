-- ===== src/Chatml/Stream/Calls.antt =====
-- The tool calls of a response against the token runs between the markers.
use mathlib.Core.Path.{ap₂}
use flash_qwen.Chatml.{ToolCall, Format}
use flash_qwen.Chatml.Stream.{Stream, take_runes, parse_tool, count_tool, tool_of, call_id, push}
use flash_qwen.Chatml.Stream.Deltas.{feed, tool_after}
use flash_qwen.Prelude.Int.{ℤ, eqb, eqb_iff}
use flash_qwen.Prelude.{
  codes, itoa, ℕ, ◌+◌, Bool, true, false, List, [], ◌∷◌, ◌++◌, Option, none, some, Bytes, ◌≡◌, ◌≢◌,
  refl, sym, ap, ◌∙◌, arith, if◌then◌else◌,
}
use flash_qwen.Tokenizer.{decode}

-- The token buffer behind `id`: an opening marker empties it, and only tokens inside a call enter.
abbrev pub buffer_after : Format → Bool → List ℤ → ℤ → List ℤ
buffer_after m tool buf id =
    if eqb id m.tool_open
    then []
    else if eqb id m.tool_close
    then buf
    else if tool
    then buf ++ id ∷ []
    else buf

-- The buffers that the closing markers of a response find.
abbrev pub closes : Format → ℤ → Bool
closes m id = if eqb id m.tool_open then false else eqb id m.tool_close

pub payloads : Format → Bool → List ℤ → List ℤ → List (List ℤ)
payloads m tool buf [] = []
payloads m tool buf (id ∷ ids) =
    let later = payloads m (tool_after m tool id) (buffer_after m tool buf id) ids in
    if closes m id then buf ∷ later else later

-- A payload that JSON reads as a call with a name gives it the number `n`; one without arguments gets
-- an empty object.
abbrev pub numbered : ℕ → Option (Bytes × Bytes) → Option ToolCall
numbered n none = none
numbered n (some ([], arguments)) = none
numbered n (some (b ∷ name, [])) =
    some (record { id = codes "call_" ++ itoa n; name = b ∷ name; arguments_json = codes "{}" })
numbered n (some (b ∷ name, a ∷ arguments)) =
    some (record { id = codes "call_" ++ itoa n; name = b ∷ name; arguments_json = a ∷ arguments })

module _ (unmarshal : Bytes → Option (Bytes × Bytes)) (m : Format) where
  tool_of-numbered : (n : ℕ) (o : Option (Bytes × Bytes)) → tool_of unmarshal n o ≡ numbered n o
  unfolding tool_of call_id
  tool_of-numbered n none = refl
  tool_of-numbered n (some ([], arguments)) = refl
  tool_of-numbered n (some (b ∷ name, [])) = ground arith
  tool_of-numbered n (some (b ∷ name, a ∷ arguments)) = ground arith

  -- The calls that the payloads are, numbered from `n`; what is no call takes no number.
  pub calls_of : ℕ → List (List ℤ) → List ToolCall
  calls_of n [] = []
  calls_of n (buf ∷ bufs) = elim (numbered n (unmarshal (decode m.tok buf))) [
    | none ↦ calls_of n bufs
    | some tc ↦ tc ∷ calls_of (n + 1) bufs
  ]

  abbrev pub with_tool : Option ToolCall → List ToolCall → List ToolCall
  with_tool none later = later
  with_tool (some tc) later = tc ∷ later

  abbrev pub tools : List (Bytes × Option ToolCall) → List ToolCall
  tools [] = []
  tools ((text, tool) ∷ outs) = with_tool tool (tools outs)

  -- What `Push` does to the parts of the state that tool calls depend on.
  pub push_buffer :
      (s : Stream) (id : ℤ)
      → ((push unmarshal m s id).0.in_tool ≡ tool_after m s.in_tool id)
        × ((push unmarshal m s id).0.tool_ids ≡ buffer_after m s.in_tool s.tool_ids id)
  unfolding push parse_tool count_tool take_runes
  push_buffer s id = ground arith

  abbrev next_count : ℕ → Option ToolCall → ℕ
  next_count n none = n
  next_count n (some tc) = n + 1

  count_lem :
      (s : Stream) (o : Option ToolCall)
      → ((count_tool unmarshal s o).1 ≡ o)
        × ((count_tool unmarshal s o).0.n_tools ≡ next_count s.n_tools o)
  unfolding count_tool
  count_lem s none = (refl, refl)
  count_lem s (some tc) = (refl, refl)

  push_call :
      (s : Stream) (id : ℤ)
      → ((push unmarshal m s id).2 ≡ (
          if closes m id
          then tool_of unmarshal s.n_tools (unmarshal (decode m.tok s.tool_ids))
          else none))
        × ((push unmarshal m s id).0.n_tools ≡ next_count s.n_tools (push unmarshal m s id).2)
  unfolding push take_runes parse_tool
  push_call s id = ground arith

  calls_of-step :
      (n : ℕ) (shut : Bool) (buf : List ℤ) (bufs : List (List ℤ)) (o : Option ToolCall)
      → o ≡ (if shut then numbered n (unmarshal (decode m.tok buf)) else none)
      → calls_of n (if shut then buf ∷ bufs else bufs)
        ≡ with_tool o (calls_of (next_count n o) bufs)
  unfolding calls_of
  calls_of-step n true buf bufs none e = rw (sym e, calls_of)
  calls_of-step n true buf bufs (some tc) e = rw (sym e, calls_of)
  calls_of-step n false buf bufs none e = refl
  calls_of-step n false buf bufs (some tc) e = cc

  -- From any state of the stream, the tool calls that the pushes return are, in order, one for each
  -- closing marker whose buffer JSON reads as a call with a name. The buffer holds the tokens inside a
  -- call since the last opening marker. The ids are "call_" and a number that counts the calls, from
  -- the stream's count on; the arguments are those that JSON reads, or "{}".
  pub tools-feed :
      (s : Stream) (ids : List ℤ)
      → tools (feed unmarshal m s ids).1 ≡ calls_of s.n_tools (payloads m s.in_tool s.tool_ids ids)
  unfolding feed payloads
  tools-feed s [] = unfold calls_of in refl
  tools-feed s (id ∷ ids) =
      let s' : Stream = (push unmarshal m s id).0 in
      let bufs =
        payloads m (tool_after m s.in_tool id) (buffer_after m s.in_tool s.tool_ids id) ids in
      ap (with_tool (push unmarshal m s id).2) (
        tools-feed s' ids
        ∙ ap₂ (λ n l. calls_of n l) (push_call s id).1
            (ap₂ (λ b l. payloads m b l ids) (push_buffer s id).0 (push_buffer s id).1))
      ∙ sym (
          calls_of-step s.n_tools (closes m id) s.tool_ids bufs (push unmarshal m s id).2 (
            (push_call s id).0
            ∙ ap (λ o. if closes m id then o else none)
                (tool_of-numbered s.n_tools (unmarshal (decode m.tok s.tool_ids)))))

  -- A closing marker that follows a closing marker returns the last call once more, under a new id:
  -- the buffer is emptied by the opening marker only.
  pub push_close_again :
      (s : Stream) (tc : ToolCall)
      → m.tool_open ≢ m.tool_close
      → (push unmarshal m s m.tool_close).2 ≡ some tc
      → (push unmarshal m (push unmarshal m s m.tool_close).0 m.tool_close).2
        ≡ some (record tc { id = call_id (s.n_tools + 1) })
  unfolding push parse_tool
  push_close_again s tc ne h =
      ground (arith, eqb_iff m.tool_close m.tool_open, eqb_iff m.tool_close m.tool_close)
