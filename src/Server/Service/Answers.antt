-- ===== src/Server/Service/Answers.antt =====
-- What a chat request gets, from its body to the reply.
use flash_qwen.Chatml.Stream.Calls.{calls_of, payloads}
use flash_qwen.Chatml.Stream.Deltas.{visible}
use flash_qwen.Engine.Client.Pump.{rpc_tokens, rpc_ending}
use flash_qwen.Engine.Client.{error_text, Failure, err_prompt_too_long, Result, ok, err, Rpc}
use flash_qwen.Engine.Generate.Policy.{IsSendable, Prepares, build_request-Prepares}
use flash_qwen.Engine.Generate.Text.{Outcome, drive-Outcome, Generates, generate-Generates}
use flash_qwen.Engine.Generate.{
  Generator, GenerateRequest, Floats, Progress, prompt_ids, build_request, drive, generate,
}
use flash_qwen.Engine.{Request, Completion, Stats}
use flash_qwen.Prelude.Int.{ℤ, pos}
use flash_qwen.Prelude.{
  int_text, ℕ, ◌^◌, ◌≤◌, ◌<◌, Bool, true, false, List, [], ◌∷◌, ◌++◌, Option, none, some, length,
  Bytes, codes, ◌≡◌, ◌≢◌, ◌⊎◌, refl, ap, ◌∙◌, arith, Bool-cases, inl, inr, if◌then◌else◌, ◌==◌,
}
use flash_qwen.Server.Chat.Agree.{
  reply_text, reply_calls, blocking_text, blocking_calls, stream_chat-blocking_chat,
}
use flash_qwen.Server.Chat.Frames.{Delta, opening, stream_chat_frames}
use flash_qwen.Server.Chat.{
  Envelope, Reply, invalid, refuse, sse, failure, done, error_body, blocking_chat, stream_chat,
}
use flash_qwen.Server.Faults.{rpc_fault, rpc_fault_lem, too_long_body}
use flash_qwen.Server.Service.{Server, Moment, envelope, chat_service}
use flash_qwen.Server.{ErrorBody, ChatRequest, classify_error, decode, flag, tool_calls}

module _ {A : Type 0} where
  empty_of : (xs : List A) → (length xs == 0) ≡ true → xs ≡ []
  empty_of [] e = refl
  empty_of (x ∷ xs) e = absurd (ground arith)

  filled_of : (xs : List A) → (length xs == 0) ≡ false → xs ≢ []
  filled_of [] e f = absurd (ground arith)
  filled_of (x ∷ xs) e f = cc

-- How a failure reaches the client: as the status and the body of a blocking reply, and as an event in
-- front of the end marker of a stream, behind what was sent.
abbrev pub Fails : Envelope → Bool → ℕ → ErrorBody → Reply → Type 0
Fails env true status body r =
    (ds : List Delta) × (r ≡ sse (opening env ds ++ failure body ∷ done ∷ []))
Fails env false status body r = r ≡ refuse status body

module _ (fl : Floats) (marshal : Bytes → Option Bytes → Bytes → Bytes)
    (unmarshal : Bytes → Option (Bytes × Bytes)) where
  module _ (env : Envelope) (g : Generator) (engine : GenerateRequest fl.Float32 → Rpc) where
    -- The replies to a generation that was asked for in a stream or not.
    abbrev replies : Bool → Bool → List Delta × Result Completion → Reply
    replies streams include_usage out =
        if streams then stream_chat env true false include_usage out else blocking_chat env out.1

    pub data Answers (max_ctx : ℕ) (streams : Bool) (req : Request fl.Float) (r : Reply)
        : Type 0 where
      too_long :
          max_ctx ≤ length (prompt_ids fl marshal g req)
          → r ≡ (
              let body = too_long_body (length (prompt_ids fl marshal g req)) max_ctx in
              if streams then sse (failure body ∷ done ∷ []) else refuse 400 body)
          → Answers max_ctx streams req r
      failed :
          (greq : GenerateRequest fl.Float32) (e : Failure) (status : ℕ) (body : ErrorBody)
          → IsSendable fl marshal g req max_ctx greq
          → rpc_ending (engine greq) ≡ err e
          → rpc_fault (engine greq) ≡ some (status, body)
          → Fails env streams status body r
          → Answers max_ctx streams req r
      served :
          (greq : GenerateRequest fl.Float32) (stats : Stats)
          → IsSendable fl marshal g req max_ctx greq
          → rpc_ending (engine greq) ≡ ok stats
          → reply_text r ≡ visible g.cm false (rpc_tokens (engine greq))
          → reply_calls r
            ≡ tool_calls
                (calls_of unmarshal g.cm 0 (payloads g.cm false [] (rpc_tokens (engine greq))))
          → Answers max_ctx streams req r

    reports_blocking :
        (rpc : Rpc) (stats : Stats) (out : Progress × Result Completion)
        → Outcome unmarshal g (rpc_tokens rpc) (ok stats) out
        → (reply_text (blocking_chat env out.1) ≡ visible g.cm false (rpc_tokens rpc))
          × (reply_calls (blocking_chat env out.1)
              ≡ tool_calls (calls_of unmarshal g.cm 0 (payloads g.cm false [] (rpc_tokens rpc))))
    reports_blocking rpc stats (p, ok c) v =
        (blocking_text env c ∙ v.text, blocking_calls env c ∙ ap tool_calls v.tool_calls)
    reports_blocking rpc stats (p, err e) v = absurd v

    served_replies :
        (streams include_usage : Bool) (rpc : Rpc) (stats : Stats)
        → rpc_ending rpc ≡ ok stats
        → (let out = drive unmarshal g rpc in
            let r = replies streams include_usage (out.0.deltas, out.1) in
            (reply_text r ≡ visible g.cm false (rpc_tokens rpc))
            × (reply_calls r
                ≡ tool_calls (calls_of unmarshal g.cm 0 (payloads g.cm false [] (rpc_tokens rpc)))))
    served_replies false include_usage rpc stats e =
        reports_blocking rpc stats (drive unmarshal g rpc) (rw e at (drive-Outcome unmarshal g rpc))
    served_replies true include_usage rpc stats e =
        let (text, same_text, same_calls) =
          stream_chat-blocking_chat env unmarshal g include_usage rpc stats e in
        let (blocked_text, blocked_calls) =
          reports_blocking rpc stats (drive unmarshal g rpc)
            (rw e at (drive-Outcome unmarshal g rpc)) in
        (text, same_calls ∙ blocked_calls)

    failed_replies :
        (streams include_usage : Bool) (ids : List ℤ) (e : Failure)
        (out : Progress × Result Completion)
        → Outcome unmarshal g ids (err e) out
        → Fails env streams
            (classify_error e).0
            (error_body e)
            (replies streams include_usage (out.0.deltas, out.1))
    unfolding blocking_chat
    failed_replies streams include_usage ids e (p, ok c) v = absurd v
    failed_replies true include_usage ids e (p, err f) v = (
      p.deltas,
      stream_chat_frames env false include_usage p.deltas (err f)
          ∙ ap (λ x. sse (opening env p.deltas ++ failure (error_body x) ∷ done ∷ [])) v,
    )
    failed_replies false include_usage ids e (p, err f) v =
        ap (λ x. refuse (classify_error x).0 (error_body x)) v

    generation-Answers :
        (streams include_usage : Bool) (req : Request fl.Float) (max_ctx : ℕ)
        (built : Result (GenerateRequest fl.Float32)) (out : Progress × Result Completion)
        → Prepares fl marshal g req max_ctx built
        → Generates unmarshal fl marshal g engine built out
        → Answers max_ctx streams req (replies streams include_usage (out.0.deltas, out.1))
    unfolding classify_error error_text int_text
    generation-Answers streams include_usage req max_ctx (ok greq) out sendable driven =
        by_ending (rpc_ending (engine greq)) refl
      where
        by_ending :
            (x : Result Stats)
            → rpc_ending (engine greq) ≡ x
            → Answers max_ctx streams req (replies streams include_usage (out.0.deltas, out.1))
        by_ending (ok stats) e =
            let (text, calls) = served_replies streams include_usage (engine greq) stats e in
            rw driven (served greq stats sendable e text calls)
        by_ending (err f) e = rw driven (
            failed greq f _ _ sendable e (rpc_fault_lem (engine greq) f e) (
              failed_replies streams include_usage (rpc_tokens (engine greq)) f
                (drive unmarshal g (engine greq))
                (rw e at (drive-Outcome unmarshal g (engine greq)))))
    generation-Answers true include_usage req max_ctx (err f) (p, r) (long, same) (deltas, result) =
        too_long long (
          rw deltas (
            rw result (
              rw same (
                stream_chat_frames env false include_usage [] (
                  err
                    (err_prompt_too_long (length (prompt_ids fl marshal g req)) (pos max_ctx)))))))
    generation-Answers false include_usage req max_ctx (err f) (p, r) (long, same)
          (deltas, result) =
        too_long long (rw result (rw same (unfold blocking_chat classify_error in refl)))

  -- The reply to a body that was bound or not.
  abbrev pub AnswersBody :
      Server
      → Moment
      → (GenerateRequest fl.Float32 → Rpc)
      → ℕ
      → Bytes
      → Option (ChatRequest fl.Float)
      → Reply
      → Type 0
  AnswersBody s m engine max_ctx bind_error none r = r ≡ invalid bind_error
  AnswersBody s m engine max_ctx bind_error (some req) r =
      ((req.messages ≡ []) × (r ≡ invalid (codes "messages is required")))
      ⊎ ((req.messages ≢ [])
          × Answers (envelope s m) s.gen engine max_ctx req.stream (decode req) r)

  -- A chat request on every path, over an engine whose context window is below 2^31, with a client
  -- that stays connected. A body that does not bind, or holds no message, is refused with status 400.
  -- A prompt that fills the context window is refused with status 400, or in a stream by an error
  -- event. Every other request reaches the engine, with the ids of its prompt, each converted to int32,
  -- and a budget of at least one token that fits. If the engine's stream ends well, the text of the
  -- reply, streamed or not, is the visible text of its tokens, and the tool calls are the readable ones
  -- of its closing markers. If it fails, the reply is refused with status 503 for the code of a full
  -- pool or queue and 502 for anything else, and with the engine's message; a stream has the same error
  -- as an event in front of the end marker.
  pub chat_service-AnswersBody :
      (s : Server) (m : Moment) (engine : GenerateRequest fl.Float32 → Rpc) (max_ctx : ℕ)
      (bind_error : Bytes) (body : Option (ChatRequest fl.Float))
      → s.gen.max_ctx ≡ pos max_ctx
      → max_ctx < 2 ^ 31
      → AnswersBody s m engine max_ctx bind_error body
          (chat_service fl marshal unmarshal s m engine bind_error body)
  unfolding chat_service
  chat_service-AnswersBody s m engine max_ctx bind_error none e h = refl
  chat_service-AnswersBody s m engine max_ctx bind_error (some req) e h =
      elim (Bool-cases (length req.messages == 0)) [
        | inl empty ↦ inl (empty_of req.messages empty, rw empty refl)
        | inr filled ↦ inr (filled_of req.messages filled, rw filled (by_stream req.stream))
      ]
    where
      include_usage : Bool
      include_usage = flag req.stream_options

      out : Progress × Result Completion
      out = generate unmarshal fl marshal s.gen engine (decode req)

      by_stream :
          (streams : Bool)
          → Answers
              (envelope s m)
              s.gen
              engine
              max_ctx
              streams
              (decode req)
              (replies (envelope s m) s.gen engine streams include_usage (out.0.deltas, out.1))
      by_stream streams =
          generation-Answers (envelope s m) s.gen engine streams include_usage (decode req) max_ctx
            (build_request fl marshal s.gen (decode req)) out
            (build_request-Prepares fl marshal s.gen (decode req) max_ctx e h)
            (generate-Generates unmarshal fl marshal s.gen engine (decode req))
