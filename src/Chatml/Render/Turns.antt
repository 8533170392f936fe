-- ===== src/Chatml/Render/Turns.antt =====
-- Consecutive tool results in the rendered prompt.
use flash_qwen.Chatml.Render.{
  has_role, is_tool, head, turn, turns, tool_response, open_user, im_end,
}
use flash_qwen.Chatml.{Message}
use flash_qwen.Prelude.{
  Bool, true, false, List, [], ◌∷◌, ◌++◌, append_assoc, Option, some, flat_map, if◌then◌else◌,
  bytes_eq_iff, Bytes, codes, All, ◌≡◌, refl, sym, ap, ◌∙◌,
}

abbrev pub IsTool : Message → Type 0
IsTool m = has_role (codes "tool") m ≡ true

abbrev pub last_of : Message → List Message → Message
last_of m [] = m
last_of m (x ∷ msgs) = last_of x msgs

turn-tool :
    (prev : Option Message) (m : Message) (next : Option Message)
    → IsTool m
    → turn prev m next
      ≡ (if is_tool prev then [] else open_user)
        ++ (tool_response m ++ (if is_tool next then [] else im_end))
unfolding turn has_role
turn-tool prev m next h = rw ((bytes_eq_iff m.role (codes "tool")).0 h) refl

is_tool-some : (m : Message) → IsTool m → is_tool (some m) ≡ true
unfolding is_tool
is_tool-some m h = h

turns-cons :
    (prev : Option Message) (m : Message) (msgs : List Message)
    → turns prev (m ∷ msgs) ≡ turn prev m (head msgs) ++ turns (some m) msgs
unfolding turns
turns-cons prev m msgs = refl

responses-cons :
    (m : Message) (results : List Message) (tail : Bytes)
    → tool_response m ++ (flat_map tool_response results ++ tail)
      ≡ flat_map tool_response (m ∷ results) ++ tail
unfolding flat_map
responses-cons m results tail =
    sym (append_assoc (tool_response m) (flat_map tool_response results) tail)

head-append : (x : Message) (msgs : List Message) → head (x ∷ msgs) ≡ some x
unfolding head
head-append x msgs = refl

-- The first result opens the user's turn, and the last one closes it.
result_turn :
    (prev : Option Message) (m : Message) (msgs : List Message) (shut : Bool)
    → IsTool m
    → is_tool (head msgs) ≡ shut
    → turns prev (m ∷ msgs)
      ≡ (if is_tool prev then [] else open_user)
        ++ (tool_response m ++ ((if shut then [] else im_end) ++ turns (some m) msgs))
result_turn prev m msgs shut h e =
    turns-cons prev m msgs
    ∙ ap (λ t. t ++ turns (some m) msgs) (turn-tool prev m (head msgs) h)
    ∙ append_assoc (if is_tool prev then [] else open_user) _ (turns (some m) msgs)
    ∙ ap (λ t. (if is_tool prev then [] else open_user) ++ t)
        (append_assoc (tool_response m) _ (turns (some m) msgs)
          ∙ ap (λ b. tool_response m ++ ((if b then [] else im_end) ++ turns (some m) msgs)) e)

-- Tool results that follow each other, with none behind the last, are one turn of the user: it is
-- opened once, unless a tool result stands in front of them, holds a block for each result in order,
-- is closed once, and the messages behind follow.
pub turns-tools :
    (prev : Option Message) (m : Message) (results rest : List Message)
    → All IsTool (m ∷ results)
    → is_tool (head rest) ≡ false
    → turns prev ((m ∷ results) ++ rest)
      ≡ (if is_tool prev then [] else open_user)
        ++ (flat_map tool_response (m ∷ results)
            ++ (im_end ++ turns (some (last_of m results)) rest))
turns-tools prev m [] rest (h, hs) q =
    result_turn prev m rest false h q
    ∙ ap (λ t. (if is_tool prev then [] else open_user) ++ t)
        (unfold flat_map in responses-cons m [] (im_end ++ turns (some m) rest))
turns-tools prev m (x ∷ results) rest (h, hs) q =
    result_turn prev m (x ∷ (results ++ rest)) true h
      (ap is_tool (head-append x (results ++ rest)) ∙ is_tool-some x hs.0)
    ∙ ap (λ t. (if is_tool prev then [] else open_user) ++ (tool_response m ++ t))
        (turns-tools (some m) x results rest hs q
          ∙ ap
              (λ b.
                (if b then [] else open_user)
                ++ (flat_map tool_response (x ∷ results)
                    ++ (im_end ++ turns (some (last_of x results)) rest)))
              (is_tool-some m h))
    ∙ ap (λ t. (if is_tool prev then [] else open_user) ++ t)
        (responses-cons m (x ∷ results) (im_end ++ turns (some (last_of x results)) rest))
