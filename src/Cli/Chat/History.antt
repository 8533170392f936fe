-- ===== src/Cli/Chat/History.antt =====
-- The history of the interactive chat alternates.
use mathlib.Core.Path.{subst}
use flash_qwen.Chatml.{ToolCall, Message}
use flash_qwen.Cli.Chat.{
  Chat, Event, asked, printed, user, assistant, ask, show_deltas, settle, answer, handle,
  trim_right, run_chat,
}
use flash_qwen.Engine.Client.{Result, ok, err}
use flash_qwen.Engine.{Request, Completion}
use flash_qwen.Prelude.{
  suc, ◌-◌, Bool, true, false, ◌||◌, List, [], ◌∷◌, ◌++◌, Option, none, some, length, length-append,
  take, bytes_eq, bytes_eq_iff, All, All-append, Bytes, codes, ◌≡◌, ◌≢◌, refl, sym, ap, ◌∙◌, arith,
  Option-cases, inl, inr, if◌then◌else◌,
}

-- Whole exchanges: a line of the user and the answer to it.
pub data IsConversation : List Message → Type 0 where
  empty : {h : List Message} → h ≡ [] → IsConversation h
  exchange :
      {h : List Message} (before : List Message) (line text : Bytes)
      → IsConversation before
      → h ≡ (before ++ user line ∷ []) ++ assistant text ∷ []
      → IsConversation h

module _ {Float : Type 0} where
  -- What the text tier is asked: whole exchanges, then a line that is not empty.
  abbrev pub IsSound : Event Float → Type 0
  IsSound (asked req) =
      (before : List Message) × (line : Bytes) × IsConversation before
      × (req.messages ≡ before ++ user line ∷ [])
      × (line ≢ [])
  IsSound (printed text) = Unit

init_lem : (h : List Message) (m : Message) → take (length (h ++ m ∷ []) - 1) (h ++ m ∷ []) ≡ h
init_lem [] m = refl
init_lem (x ∷ h) m =
    ap (λ n. take n (x ∷ (h ++ m ∷ []))) {x = length (x ∷ (h ++ m ∷ [])) - 1}
      {y = suc (length (h ++ m ∷ []) - 1)} (omega (arith, length-append h (m ∷ [])))
    ∙ ap (◌∷◌ x) (init_lem h m)

module _ {Float : Type 0}
    (generate : Request Float → List (Bytes × Option ToolCall) × Result Completion) where
  IsSound-show_deltas :
      (deltas : List (Bytes × Option ToolCall)) → All IsSound (show_deltas generate deltas)
  unfolding show_deltas
  IsSound-show_deltas [] = tt
  IsSound-show_deltas (d ∷ deltas) = (tt, IsSound-show_deltas deltas)

  settle-IsConversation :
      (c : Chat) (line : Bytes) (r : Result Completion)
      → IsConversation c.history
      → (let out = settle generate c (c.history ++ user line ∷ []) r in
          IsConversation out.0.history × All IsSound out.1)
  unfolding settle
  settle-IsConversation c line (err e) h =
      (subst IsConversation (sym (init_lem c.history (user line))) h, (tt, tt))
  settle-IsConversation c line (ok res) h = (exchange c.history line res.text h refl, tt)

  answer-IsConversation :
      (c : Chat) (line : Bytes)
      → line ≢ []
      → IsConversation c.history
      → IsConversation (answer generate c line).0.history × All IsSound (answer generate c line).1
  unfolding answer ask
  answer-IsConversation c line ne h =
      let asking = ask generate (c.history ++ user line ∷ []) c.thinking in
      let (deltas, result) = generate asking in
      let (kept, sound) = settle-IsConversation c line result h in
      (
        kept,
        (
          (c.history, line, h, refl, ne),
          All-append IsSound (show_deltas generate deltas) _ (IsSound-show_deltas deltas) sound,
        ),
      )

  -- A round, if it goes on, keeps the history whole and asks only what is sound.
  data Goes : Option (Chat × List (Event Float)) → Type 0 where
    ends : Goes none
    goes :
        {out : Chat × List (Event Float)}
        → IsConversation out.0.history
        → All IsSound out.1
        → Goes (some out)

  Goes-if :
      {x y : Option (Chat × List (Event Float))} (b : Bool)
      → Goes x
      → (b ≡ false → Goes y)
      → Goes (if b then x else y)
  Goes-if true p q = p
  Goes-if false p q = q refl

  Goes-some :
      {out : Chat × List (Event Float)}
      → Goes (some out)
      → IsConversation out.0.history × All IsSound out.1
  Goes-some (goes h s) = (h, s)

  handle-Goes : (c : Chat) (line : Bytes) → IsConversation c.history → Goes (handle generate c line)
  unfolding handle
  handle-Goes c line h =
      Goes-if (bytes_eq line (codes "/exit") || bytes_eq line (codes "/quit")) ends (λ stays.
        Goes-if (bytes_eq line []) (goes h tt) (λ some_line.
          Goes-if (bytes_eq line (codes "/reset")) (goes (empty refl) (tt, tt)) (λ kept.
            Goes-if (bytes_eq line (codes "/think on")) (goes h (tt, tt)) (λ on.
              Goes-if (bytes_eq line (codes "/think off")) (goes h (tt, tt)) (λ off.
                let (whole, sound) = answer-IsConversation c line (not_empty some_line) h in
                goes whole sound)))))
    where
      not_empty : bytes_eq line [] ≡ false → line ≢ []
      not_empty e e' = ground (arith, bytes_eq_iff line [])

  -- Whatever lines are read and whatever the text tier answers, a failure included: a history that is
  -- whole exchanges stays so, and each question that was asked was whole exchanges with one more line
  -- of the user, which is not empty.
  pub run_chat-IsConversation :
      (c : Chat) (lines : List Bytes)
      → IsConversation c.history
      → IsConversation (run_chat generate c lines).0.history
        × All IsSound (run_chat generate c lines).1
  unfolding run_chat
  run_chat-IsConversation c [] h = (h, tt)
  run_chat-IsConversation c (line ∷ lines) h =
      elim (Option-cases (handle generate c (trim_right line))) [
        | inl left ↦ rw (left, run_chat) (h, tt)
        | inr (out, e) ↦
            let (here, sound) = Goes-some (subst Goes e (handle-Goes c (trim_right line) h)) in
            let (last, later) = run_chat-IsConversation out.0 lines here in
            rw (e, run_chat) (last, All-append IsSound out.1 _ sound later)
      ]
