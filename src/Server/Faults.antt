-- ===== src/Server/Faults.antt =====
-- What a client is told of a failure, against what the engine answered. `classifyError` and `errorFor`
-- decide it in the code; here it is a function of the answer itself.
use flash_qwen.Engine.Client.Pump.{rpc_ending, ending_of}
use flash_qwen.Engine.Client.{
  ErrorCode, over_capacity, unspecified, internal, unknown, Failure, error_text, error_for, Result,
  ok, err, unset, token_id, done, error, Feed, eof, broken, event, Rpc, refused, opened,
}
use flash_qwen.Engine.{Stats}
use flash_qwen.Prelude.{ℕ, ◌++◌, Option, none, some, Bytes, codes, itoa, ◌≡◌, refl, ap, ◌∙◌}
use flash_qwen.Server.Chat.{error_body}
use flash_qwen.Server.{ErrorBody, classify_error}

-- Of the codes of the protocol only the one for a full pool or queue makes a request retryable: 503.
abbrev pub code_fault : ErrorCode → Bytes → ℕ × ErrorBody
code_fault over_capacity message = (
  503,
  record { message = codes "engine over capacity: " ++ message; kind = codes "overloaded_error" },
)
code_fault unspecified message = (
  502,
  record { message = codes "engine internal error: " ++ message; kind = codes "engine_error" },
)
code_fault internal message = (
  502,
  record { message = codes "engine internal error: " ++ message; kind = codes "engine_error" },
)
code_fault (unknown n) message = (
  502,
  record { message = codes "engine internal error: " ++ message; kind = codes "engine_error" },
)

abbrev pub feed_fault : Feed → Option (ℕ × ErrorBody)
feed_fault eof = none
feed_fault (broken e) = some (502, record { message = e; kind = codes "engine_error" })
feed_fault (event unset feed) = feed_fault feed
feed_fault (event (token_id id) feed) = feed_fault feed
feed_fault (event (done stats) feed) = none
feed_fault (event (error code message) feed) = some (code_fault code message)

-- The status and the body for an answer of the engine; none if its stream ends well.
abbrev pub rpc_fault : Rpc → Option (ℕ × ErrorBody)
rpc_fault (refused e) = some (502, record { message = e; kind = codes "engine_error" })
rpc_fault (opened feed) = feed_fault feed

-- The body for a prompt of `n` tokens in a window of `max_ctx`.
abbrev pub too_long_body : ℕ → ℕ → ErrorBody
too_long_body n max_ctx = record {
  message =
      codes "prompt exceeds context window: prompt is "
      ++ (itoa n ++ (codes " tokens, context window is " ++ itoa max_ctx));
  kind = codes "invalid_request_error";
}

abbrev told : Result Stats → Option (ℕ × ErrorBody)
told (ok stats) = none
told (err e) = some ((classify_error e).0, error_body e)

code_fault_lem :
    (code : ErrorCode) (message : Bytes)
    → some (code_fault code message) ≡ told (err (error_for code message))
unfolding classify_error error_text error_for
code_fault_lem over_capacity message = refl
code_fault_lem unspecified message = refl
code_fault_lem internal message = refl
code_fault_lem (unknown n) message = refl

feed_fault_lem : (feed : Feed) → feed_fault feed ≡ told (ending_of feed)
unfolding classify_error error_text
feed_fault_lem eof = refl
feed_fault_lem (broken e) = refl
feed_fault_lem (event unset feed) = feed_fault_lem feed
feed_fault_lem (event (token_id id) feed) = feed_fault_lem feed
feed_fault_lem (event (done stats) feed) = refl
feed_fault_lem (event (error code message) feed) = code_fault_lem code message

rpc_fault_told : (rpc : Rpc) → rpc_fault rpc ≡ told (rpc_ending rpc)
unfolding classify_error error_text
rpc_fault_told (refused e) = refl
rpc_fault_told (opened feed) = feed_fault_lem feed

pub rpc_fault_lem :
    (rpc : Rpc) (e : Failure)
    → rpc_ending rpc ≡ err e
    → rpc_fault rpc ≡ some ((classify_error e).0, error_body e)
rpc_fault_lem rpc e h = rpc_fault_told rpc ∙ ap told h
