-- ===== src/Chatml/Stream/Deltas.antt =====
-- The text deltas of a response against the plain decoding of its visible tokens.
use mathlib.Core.Path.{subst}
use flash_qwen.Chatml.{ToolCall, Format}
use flash_qwen.Chatml.Stream.{Stream, new_stream, take_runes, flush, parse_tool, push}
use flash_qwen.Chatml.Stream.Runes.{take_runes-Cut, full_rune-nil}
use flash_qwen.Prelude.Int.{ℤ, eqb}
use flash_qwen.Prelude.{
  ◌≤◌, Bool, true, false, List, [], ◌∷◌, ◌++◌, append_assoc, append-nil, Option, length, concat,
  All, Bytes, ◌≡◌, refl, sym, ap, ◌∙◌, arith, Bool-cases, inl, inr, if◌then◌else◌, ◌==◌,
}
use flash_qwen.Tokenizer.{is_special, token_bytes, decode}
use flash_qwen.Utf8.Cut.{Cut, stop, step, Cut-append, Cut-trans}
use flash_qwen.Utf8.Valid.{IsValid, Cut-IsValid, Cut-nil}
use flash_qwen.Utf8.{full_rune}

-- Whether the tokens behind `id` are inside a tool call, and the bytes of `id` that the user sees.
abbrev pub tool_after : Format → Bool → ℤ → Bool
tool_after m tool id =
    if eqb id m.tool_open then true else if eqb id m.tool_close then false else tool

abbrev pub shown : Format → Bool → ℤ → Bytes
shown m tool id =
    if eqb id m.tool_open
    then []
    else if eqb id m.tool_close
    then []
    else if tool
    then []
    else if is_special m.tok id
    then []
    else token_bytes m.tok id

-- The visible bytes of a whole response: what stands outside tool calls and is no control token.
unfoldable pub visible : Format → Bool → List ℤ → Bytes
visible m tool [] = []
visible m tool (id ∷ ids) = shown m tool id ++ visible m (tool_after m tool id) ids

nil_of_length : (p : Bytes) → length p ≡ 0 → [] ≡ p
nil_of_length [] h = refl
nil_of_length (b ∷ p) h = absurd (omega arith)

module _ (unmarshal : Bytes → Option (Bytes × Bytes)) (m : Format) where
  -- The calls of `Push` for a list of tokens, with what each returns.
  unfoldable pub feed : Stream → List ℤ → Stream × List (Bytes × Option ToolCall)
  feed s [] = (s, [])
  feed s (id ∷ ids) =
      let (s', text, tool) = push unmarshal m s id in
      let (last, outs) = feed s' ids in (last, (text, tool) ∷ outs)

  abbrev pub texts : List (Bytes × Option ToolCall) → List Bytes
  texts [] = []
  texts ((text, tool) ∷ outs) = text ∷ texts outs

  keep_pending : (p : Bytes) → full_rune p ≡ false → Cut p (p ++ []) []
  keep_pending p h = stop refl (append-nil p) h

  take_runes_tool : (s : Stream) → (take_runes s).0.in_tool ≡ s.in_tool
  unfolding take_runes
  take_runes_tool s = ground arith

  parse_tool_state :
      (s : Stream)
      → ((parse_tool unmarshal m s).0.pending ≡ s.pending)
        × ((parse_tool unmarshal m s).0.in_tool ≡ s.in_tool)
  unfolding parse_tool
  parse_tool_state s = ground arith

  push_tool : (s : Stream) (id : ℤ) → (push unmarshal m s id).0.in_tool ≡ tool_after m s.in_tool id
  unfolding push
  push_tool s id = ground (
    arith,
    parse_tool_state (record s { in_tool = false }),
    take_runes_tool (record s { pending = s.pending ++ decode m.tok (id ∷ []) }),
  )

  decode_one :
      (s : Stream) (id : ℤ)
      → s.pending ++ decode m.tok (id ∷ []) ≡ s.pending ++ token_bytes m.tok id
  unfolding decode
  decode_one s id = ap (λ x. s.pending ++ x) (append-nil (token_bytes m.tok id))

  -- One token: the bytes that it shows go behind what is pending, and the whole runes are cut off.
  push-Cut :
      (s : Stream) (id : ℤ)
      → full_rune s.pending ≡ false
      → Cut
          (push unmarshal m s id).0.pending
          (s.pending ++ shown m s.in_tool id)
          (push unmarshal m s id).1
  unfolding push
  push-Cut s id h = elim (Bool-cases (eqb id m.tool_open)) [
    | inl opens ↦ rw opens (keep_pending s.pending h)
    | inr other_1 ↦ rw other_1 (elim (Bool-cases (eqb id m.tool_close)) [
      | inl closes ↦ rw closes (
          subst (λ p. Cut p (s.pending ++ []) [])
            (sym (parse_tool_state (record s { in_tool = false })).0) (keep_pending s.pending h))
      | inr other_2 ↦ rw other_2 (elim (Bool-cases s.in_tool) [
        | inl inside ↦ rw inside (keep_pending s.pending h)
        | inr outside ↦ rw outside (elim (Bool-cases (is_special m.tok id)) [
          | inl control ↦ rw control (keep_pending s.pending h)
          | inr plain ↦ rw plain (
              subst (λ p. Cut (take_runes after).0.pending p (take_runes after).1) (decode_one s id)
                (take_runes-Cut after))
        ])
      ])
    ])
  ]
    where
      after : Stream
      after = record s { pending = s.pending ++ decode m.tok (id ∷ []); in_tool = false }

  Cut-rest : {r s d : Bytes} → Cut r s d → full_rune r ≡ false
  Cut-rest (stop e e' h) = h
  Cut-rest (step l h e c) = Cut-rest c

  -- The deltas of any list of tokens, joined, are the whole runes of what was pending and of the
  -- visible bytes, and the last runes' unfinished bytes stay pending.
  pub feed-Cut :
      (s : Stream) (ids : List ℤ)
      → full_rune s.pending ≡ false
      → Cut
          (feed s ids).0.pending
          (s.pending ++ visible m s.in_tool ids)
          (concat (texts (feed s ids).1))
  unfolding feed visible
  feed-Cut s [] h = keep_pending s.pending h
  feed-Cut s (id ∷ ids) h =
      let s' : Stream = (push unmarshal m s id).0 in
      let first = push-Cut s id h in
      let later = feed-Cut s' ids (Cut-rest first) in
      subst (λ w. Cut (feed s' ids).0.pending w (concat (texts (feed s (id ∷ ids)).1)))
        (append_assoc s.pending (shown m s.in_tool id) (visible m (tool_after m s.in_tool id) ids))
        (Cut-trans (visible m (tool_after m s.in_tool id) ids) first (
          subst
            (λ b.
              Cut (feed s' ids).0.pending (s'.pending ++ visible m b ids)
                (concat (texts (feed s' ids).1)))
            (push_tool s id) later))

  -- If the visible bytes are valid text, so is every delta, and nothing is held back at the end.
  feed_from-IsValid :
      (s : Stream) (ids : List ℤ)
      → full_rune s.pending ≡ false
      → IsValid (s.pending ++ visible m s.in_tool ids)
      → All IsValid (texts (feed s ids).1)
  unfolding feed visible
  feed_from-IsValid s [] h v = tt
  feed_from-IsValid s (id ∷ ids) h v =
      let s' : Stream = (push unmarshal m s id).0 in
      let rest : Bytes = visible m (tool_after m s.in_tool id) ids in
      let first = push-Cut s id h in
      let (now, later) =
        Cut-IsValid rest first (rw (append_assoc s.pending (shown m s.in_tool id) rest) v) in
      (
        now,
        feed_from-IsValid s' ids (Cut-rest first)
            (subst (λ b. IsValid (s'.pending ++ visible m b ids)) (sym (push_tool s id)) later),
      )

  flush_lem : (s : Stream) → (flush s).1 ≡ s.pending
  unfolding flush
  flush_lem s = elim (Bool-cases (length s.pending == 0)) [
    | inl empty ↦ rw empty (nil_of_length s.pending (ground arith))
    | inr some_bytes ↦ rw some_bytes
  ]

  -- A whole response, whatever the tokens and wherever a rune is split between them: the deltas and
  -- the flushed tail, joined, are the visible bytes, and the tail is three bytes at most.
  pub flush-feed :
      (ids : List ℤ)
      → (concat (texts (feed new_stream ids).1) ++ (flush (feed new_stream ids).0).1
          ≡ visible m false ids)
        × (length (flush (feed new_stream ids).0).1 ≤ 3)
  flush-feed ids =
      rw (flush_lem (feed new_stream ids).0)
        (unfold new_stream in Cut-append (feed-Cut new_stream ids full_rune-nil))

  -- A response whose visible bytes are valid UTF-8 is handed out in deltas that are each valid UTF-8,
  -- and the flush at its end is empty.
  pub feed-IsValid :
      (ids : List ℤ)
      → IsValid (visible m false ids)
      → All IsValid (texts (feed new_stream ids).1) × ((flush (feed new_stream ids).0).1 ≡ [])
  feed-IsValid ids v = (
    unfold new_stream in feed_from-IsValid new_stream ids full_rune-nil v,
    flush_lem (feed new_stream ids).0
        ∙ (unfold new_stream in Cut-nil (feed-Cut new_stream ids full_rune-nil) v),
  )
