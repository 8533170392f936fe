-- ===== src/Server/Sse/Events.antt =====
-- What a client of server-sent events reads off the bytes.
use flash_qwen.Prelude.{
  false, ◌||◌, List, [], ◌∷◌, ◌++◌, append_assoc, append-nil, Option, none, some, map, ◌==◌,
  if◌then◌else◌, Bytes, codes, All, ◌≡◌, refl, sym, ap, ◌∙◌,
}
use flash_qwen.Server.Chat.{ChatCompletion, Frame, chunk, failure, done}
use flash_qwen.Server.Sse.{data_event, Marshal, payload, wire, raw_payload, raw_wire}
use flash_qwen.Server.Completions
use flash_qwen.Server.Completions.{TextCompletion}
use flash_qwen.Server.{ErrorBody}

-- A line ends at a line feed or a carriage return (a pair of them, which the server does not write,
-- would end one line); what follows the last end is not a line yet.
lines_from : Bytes → Bytes → List Bytes
lines_from line [] = []
lines_from line (b ∷ s) =
    let ended = line ∷ lines_from [] s in
    let longer = lines_from (line ++ b ∷ []) s in if b == 10 || b == 13 then ended else longer

after_prefix : Bytes → Bytes → Option Bytes
after_prefix [] s = some s
after_prefix (p ∷ ps) [] = none
after_prefix (p ∷ ps) (c ∷ s) = if c == p then after_prefix ps s else none

drop_space : Bytes → Bytes
drop_space [] = []
drop_space (b ∷ v) = if b == b' ' then v else b ∷ v

-- The value of a field `data`; other fields and comments are passed over.
data_value : Bytes → Option Bytes
unfolding after_prefix drop_space
data_value line = elim (after_prefix (codes "data:") line) [
  | none ↦ none
  | some v ↦ some (drop_space v)
]

add_line : Option Bytes → Option Bytes → Option Bytes
add_line none d = d
add_line (some v) none = some v
add_line (some v) (some d) = some (d ++ 10 ∷ v)

-- A blank line dispatches the data that stand in front of it.
dispatch : List Bytes → Option Bytes → List Bytes
unfolding data_value add_line
dispatch [] d = []
dispatch ([] ∷ lines) none = dispatch lines none
dispatch ([] ∷ lines) (some d) = d ∷ dispatch lines none
dispatch ((b ∷ line) ∷ lines) d = dispatch lines (add_line (data_value (b ∷ line)) d)

pub read_events : Bytes → List Bytes
unfolding lines_from dispatch
read_events s = dispatch (lines_from [] s) none

abbrev pub IsLine : Bytes → Type 0
IsLine = All (λ b. (b == 10 || b == 13) ≡ false)

lines_from-append :
    (line p rest : Bytes)
    → IsLine p
    → lines_from line (p ++ 10 ∷ rest) ≡ (line ++ p) ∷ lines_from [] rest
unfolding lines_from
lines_from-append line [] rest h = ap (λ l. l ∷ lines_from [] rest) (sym (append-nil line))
lines_from-append line (b ∷ p) rest (inside, h) = rw inside (
    lines_from-append (line ++ b ∷ []) p rest h
    ∙ ap (λ l. l ∷ lines_from [] rest) (append_assoc line (b ∷ []) p))

data-IsLine : (b : Bytes) → IsLine b → IsLine (codes "data: " ++ b)
data-IsLine b h = (refl, (refl, (refl, (refl, (refl, (refl, h))))))

read_events-cons :
    (b rest : Bytes) → IsLine b → read_events (data_event b ++ rest) ≡ b ∷ read_events rest
unfolding read_events data_event
read_events-cons b rest h =
    ap (λ x. dispatch (lines_from [] x) none)
      (ap (λ x. codes "data: " ++ x) (append_assoc b (10 ∷ 10 ∷ []) rest))
    ∙ ap (λ l. dispatch l none)
        (lines_from-append [] (codes "data: " ++ b) (10 ∷ rest) (data-IsLine b h))

module _ (m : Marshal) (chunk_line : (cc : ChatCompletion) → IsLine (m.chat_completion cc))
    (error_line : (body : ErrorBody) → IsLine (m.error_object body))
    (text_line : (tc : TextCompletion) → IsLine (m.text_completion tc)) where
  payload-IsLine : (f : Frame) → IsLine (payload m f)
  unfolding payload
  payload-IsLine (chunk cc) = chunk_line cc
  payload-IsLine (failure body) = error_line body
  payload-IsLine done = (refl, (refl, (refl, (refl, (refl, (refl, tt))))))

  wire_lem : (frames : List Frame) → read_events (wire m frames) ≡ map (payload m) frames
  unfolding wire
  wire_lem [] = unfold read_events in refl
  wire_lem (f ∷ frames) =
      read_events-cons (payload m f) (wire m frames) (payload-IsLine f)
      ∙ ap (λ l. payload m f ∷ l) (wire_lem frames)

  raw_payload-IsLine : (f : Completions.Frame) → IsLine (raw_payload m f)
  unfolding raw_payload
  raw_payload-IsLine (Completions.chunk tc) = text_line tc
  raw_payload-IsLine (Completions.failure body) = error_line body
  raw_payload-IsLine Completions.done = (refl, (refl, (refl, (refl, (refl, (refl, tt))))))

  raw_wire_lem :
      (frames : List Completions.Frame)
      → read_events (raw_wire m frames) ≡ map (raw_payload m) frames
  unfolding raw_wire
  raw_wire_lem [] = unfold read_events in refl
  raw_wire_lem (f ∷ frames) =
      read_events-cons (raw_payload m f) (raw_wire m frames) (raw_payload-IsLine f)
      ∙ ap (λ l. raw_payload m f ∷ l) (raw_wire_lem frames)

  -- If json.Marshal writes one line (it escapes control characters), a client that reads the bytes of
  -- a stream of either handler as server-sent events gets the payload of each event, whole, in order,
  -- and no other.
  pub read_events-wire :
      (frames : List Frame) (raw : List Completions.Frame)
      → (read_events (wire m frames) ≡ map (payload m) frames)
        × (read_events (raw_wire m raw) ≡ map (raw_payload m) raw)
  read_events-wire frames raw = (wire_lem frames, raw_wire_lem raw)
