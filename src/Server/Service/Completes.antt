-- ===== src/Server/Service/Completes.antt =====
-- What a raw completion gets, from its body to the reply.
use flash_qwen.Engine.Client.Pump.{rpc_tokens, rpc_ending}
use flash_qwen.Engine.Client.{error_text, Failure, err_prompt_too_long, Result, ok, err, Rpc}
use flash_qwen.Engine.Generate.Policy.{IsSendable, Prepares, build_request-Prepares}
use flash_qwen.Engine.Generate
use flash_qwen.Engine.Generate.{Generator, GenerateRequest, Floats, build_request}
use flash_qwen.Engine.Raw.Text.{RawOutcome, drive_raw-RawOutcome, Completes, complete-Completes}
use flash_qwen.Engine.Raw.{RawProgress, drive_raw, complete}
use flash_qwen.Engine.{Request, Completion, Stats}
use flash_qwen.Prelude.Int.{pos}
use flash_qwen.Prelude.{
  int_text, ℕ, ◌^◌, ◌≤◌, ◌<◌, Bool, true, false, List, [], ◌∷◌, ◌++◌, Option, none, some, length,
  Bytes, codes, ◌≡◌, refl, ap, sym, ◌∙◌, if◌then◌else◌,
}
use flash_qwen.Server.Chat.{Envelope, error_body}
use flash_qwen.Server.Completions.Dispatch.{Dispatches, completions-Dispatches}
use flash_qwen.Server.Completions.Frames.{
  reply_text, reply_done, delta_frames, stream_err, stream_completion-blocking_completion,
}
use flash_qwen.Server.Completions.{
  Reply, invalid, refuse, sse, failure, done, blocking_completion, stream_completion, completions,
}
use flash_qwen.Server.Prompts.{Prompts, decode_completion-Prompts}
use flash_qwen.Server.Faults.{rpc_fault, rpc_fault_lem, too_long_body}
use flash_qwen.Server.Service.{Server, Moment, envelope, raw_generation, completion_service}
use flash_qwen.Tokenizer.{decode}
use flash_qwen.Server.{
  ErrorBody, CompletionRequest, Prompt, missing, unreadable, prompt_text, prompt_ids,
  classify_error, flag,
}

-- How a failure reaches the client: as the status and the body of a blocking reply, or as an event
-- behind the chunks that were sent and in front of the end marker.
abbrev pub Fails : Envelope → Bool → ℕ → ErrorBody → Reply → Type 0
Fails env true status body r =
    (ts : List Bytes) × (r ≡ sse (delta_frames env ts ++ failure body ∷ done ∷ []))
Fails env false status body r = r ≡ refuse status body

module _ (fl : Floats) (marshal : Bytes → Option Bytes → Bytes → Bytes) where
  module _ (env : Envelope) (g : Generator) (engine : GenerateRequest fl.Float32 → Rpc) where
    abbrev replies : Bool → Bool → List Bytes × Result Completion → Reply
    replies streams include_usage out =
        if streams
        then stream_completion env true false include_usage out
        else blocking_completion env out.1

    pub data Answers (max_ctx : ℕ) (streams : Bool) (req : Request fl.Float) (r : Reply)
        : Type 0 where
      too_long :
          max_ctx ≤ length (Generate.prompt_ids fl marshal g req)
          → r ≡ (
              let body = too_long_body (length (Generate.prompt_ids fl marshal g req)) max_ctx in
              if streams then sse (failure body ∷ done ∷ []) else refuse 400 body)
          → Answers max_ctx streams req r
      failed :
          (greq : GenerateRequest fl.Float32) (e : Failure) (status : ℕ) (body : ErrorBody)
          → IsSendable fl marshal g req max_ctx greq
          → rpc_ending (engine greq) ≡ err e
          → rpc_fault (engine greq) ≡ some (status, body)
          → Fails env streams status body r
          → Answers max_ctx streams req r
      served :
          (greq : GenerateRequest fl.Float32) (stats : Stats)
          → IsSendable fl marshal g req max_ctx greq
          → rpc_ending (engine greq) ≡ ok stats
          → reply_text r ≡ decode g.tok (rpc_tokens (engine greq))
          → reply_done r ≡ streams
          → Answers max_ctx streams req r

    failed_replies :
        (streams include_usage : Bool) (ts : List Bytes) (e f : Failure)
        → f ≡ e
        → Fails env streams
            (classify_error e).0
            (error_body e)
            (replies streams include_usage (ts, err f))
    unfolding blocking_completion
    failed_replies true include_usage ts e f v = (
      ts,
      stream_err env include_usage ts f
          ∙ ap (λ x. sse (delta_frames env ts ++ failure (error_body x) ∷ done ∷ [])) v,
    )
    failed_replies false include_usage ts e f v =
        ap (λ x. refuse (classify_error x).0 (error_body x)) v

    not_streamed : (r : Result Completion) → reply_done (blocking_completion env r) ≡ false
    unfolding blocking_completion
    not_streamed (ok c) = refl
    not_streamed (err e) = refl

    served_replies :
        (streams include_usage : Bool) (rpc : Rpc) (stats : Stats)
        → rpc_ending rpc ≡ ok stats
        → (let out = drive_raw g rpc in
            let r = replies streams include_usage (out.0.deltas, out.1) in
            (reply_text r ≡ decode g.tok (rpc_tokens rpc)) × (reply_done r ≡ streams))
    served_replies true include_usage rpc stats e =
        let (text, same, ended) =
          stream_completion-blocking_completion env g include_usage rpc stats e in
        (text, ended)
    served_replies false include_usage rpc stats e =
        let (text, same, ended) =
          stream_completion-blocking_completion env g include_usage rpc stats e in
        (sym same ∙ text, not_streamed (drive_raw g rpc).1)

    refused_early :
        (streams include_usage : Bool) (n max_ctx : ℕ)
        → replies streams include_usage ([], err (err_prompt_too_long n (pos max_ctx))) ≡ (
            let body = too_long_body n max_ctx in
            if streams then sse (failure body ∷ done ∷ []) else refuse 400 body)
    unfolding blocking_completion classify_error error_text int_text
    refused_early true include_usage n max_ctx =
        stream_err env include_usage [] (err_prompt_too_long n (pos max_ctx))
    refused_early false include_usage n max_ctx = refl

    raw_generation-Answers :
        (streams include_usage : Bool) (req : Request fl.Float) (max_ctx : ℕ)
        (built : Result (GenerateRequest fl.Float32)) (out : RawProgress × Result Completion)
        → Prepares fl marshal g req max_ctx built
        → Completes fl marshal g engine built out
        → Answers max_ctx streams req (replies streams include_usage (out.0.deltas, out.1))
    raw_generation-Answers streams include_usage req max_ctx (ok greq) out sendable driven =
        by_ending (rpc_ending (engine greq)) refl
      where
        failure_of :
            (f : Failure) (x : RawProgress × Result Completion)
            → RawOutcome g (rpc_tokens (engine greq)) (err f) x
            → Fails env streams
                (classify_error f).0
                (error_body f)
                (replies streams include_usage (x.0.deltas, x.1))
        failure_of f (p, ok c) v = absurd v
        failure_of f (p, err e) v = failed_replies streams include_usage p.deltas f e v

        by_ending :
            (x : Result Stats)
            → rpc_ending (engine greq) ≡ x
            → Answers max_ctx streams req (replies streams include_usage (out.0.deltas, out.1))
        by_ending (ok stats) e =
            let (text, ended) = served_replies streams include_usage (engine greq) stats e in
            rw driven (served greq stats sendable e text ended)
        by_ending (err f) e = rw driven (
            failed greq f _ _ sendable e (rpc_fault_lem (engine greq) f e) (
              failure_of f (drive_raw g (engine greq))
                (rw e at (drive_raw-RawOutcome g (engine greq)))))
    raw_generation-Answers streams include_usage req max_ctx (err f) (p, r) (long, same)
          (deltas, result) =
        too_long long (
          rw deltas (
            rw result (
              rw same (
                refused_early streams include_usage (length (Generate.prompt_ids fl marshal g req))
                  max_ctx))))

  -- The reply to a prompt: refused if it is absent or unreadable, and else the answer to a request that
  -- decodes from it.
  abbrev pub AnswersPrompt :
      Server
      → Moment
      → (GenerateRequest fl.Float32 → Rpc)
      → ℕ
      → CompletionRequest fl.Float
      → Prompt
      → Reply
      → Type 0
  AnswersPrompt s m engine max_ctx req missing r = r ≡ invalid (codes "prompt is required")
  AnswersPrompt s m engine max_ctx req unreadable r =
      r ≡ invalid (codes "prompt must be a string or an array of token ids")
  AnswersPrompt s m engine max_ctx req (prompt_text t) r =
      (er : Request fl.Float) × Prompts fl marshal s.gen (prompt_text t)
        (Generate.prompt_ids fl marshal s.gen er)
      × Answers (envelope s m) s.gen engine max_ctx req.stream er r
  AnswersPrompt s m engine max_ctx req (prompt_ids l) r =
      (er : Request fl.Float) × Prompts fl marshal s.gen (prompt_ids l)
        (Generate.prompt_ids fl marshal s.gen er)
      × Answers (envelope s m) s.gen engine max_ctx req.stream er r

  abbrev pub AnswersBody :
      Server
      → Moment
      → (GenerateRequest fl.Float32 → Rpc)
      → ℕ
      → Bytes
      → Option (CompletionRequest fl.Float)
      → Reply
      → Type 0
  AnswersBody s m engine max_ctx bind_error none r = r ≡ invalid bind_error
  AnswersBody s m engine max_ctx bind_error (some req) r =
      AnswersPrompt s m engine max_ctx req req.prompt r

  module _ (s : Server) (m : Moment) (engine : GenerateRequest fl.Float32 → Rpc) (max_ctx : ℕ)
      (e : s.gen.max_ctx ≡ pos max_ctx) (h : max_ctx < 2 ^ 31) where
    decoded-Answers :
        (req : CompletionRequest fl.Float) (er : Request fl.Float)
        → Answers (envelope s m) s.gen engine max_ctx req.stream er (
            replies
              (envelope s m)
              s.gen
              engine
              req.stream
              (flag req.stream_options)
              (raw_generation fl marshal s.gen engine er))
    unfolding raw_generation
    decoded-Answers req er =
        raw_generation-Answers (envelope s m) s.gen engine req.stream (flag req.stream_options) er
          max_ctx (build_request fl marshal s.gen er) (complete fl marshal s.gen engine er)
          (build_request-Prepares fl marshal s.gen er max_ctx e h)
          (complete-Completes fl marshal s.gen engine er)

    prompt-AnswersPrompt :
        (req : CompletionRequest fl.Float) (p : Prompt) (r : Reply)
        → Dispatches (envelope s m) (raw_generation fl marshal s.gen engine) req p r
        → AnswersPrompt s m engine max_ctx req p r
    prompt-AnswersPrompt req missing r d = d
    prompt-AnswersPrompt req unreadable r d = d
    prompt-AnswersPrompt req (prompt_text t) r (er, decoded, same) = (
      er,
      decode_completion-Prompts fl marshal s.gen req (prompt_text t) er decoded,
      rw same (decoded-Answers req er),
    )
    prompt-AnswersPrompt req (prompt_ids l) r (er, decoded, same) = (
      er,
      decode_completion-Prompts fl marshal s.gen req (prompt_ids l) er decoded,
      rw same (decoded-Answers req er),
    )

    -- A raw completion on every path, over an engine whose context window is below 2^31, with a client
    -- that stays connected. A body that does not bind, and a prompt that is absent or unreadable, is
    -- refused with status 400. Otherwise the prompt is the ids of the request, or those of its text with
    -- no template, or, if it is empty, the template of a chat without messages. A prompt that fills the
    -- context window is refused with status 400, or in a stream by an error event. Else the engine gets
    -- its ids, each converted to int32 with its wrap-around, with a budget of at least one token that
    -- fits. If the engine's stream ends well, the text of the reply, streamed or not, is the decoding of
    -- all its tokens, and a stream ends with the end marker. If it fails, the reply is refused with
    -- status 503 for the code of a full pool or queue and 502 for anything else, and with the engine's
    -- message; a stream has the same error as an event in front of the end marker.
    pub completion_service-AnswersBody :
        (bind_error : Bytes) (body : Option (CompletionRequest fl.Float))
        → AnswersBody s m engine max_ctx bind_error body
            (completion_service fl marshal s m engine bind_error body)
    unfolding completion_service
    completion_service-AnswersBody bind_error none = unfold completions in refl
    completion_service-AnswersBody bind_error (some req) = prompt-AnswersPrompt req req.prompt _ (
        completions-Dispatches (envelope s m) (raw_generation fl marshal s.gen engine) req
          bind_error)
