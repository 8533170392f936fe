-- ===== src/Engine/Client.antt =====
-- internal/engine/client.go: the typed errors, the driver of a token stream, and the wait for the
-- engine to serve. What gRPC delivers is a parameter: a refusal, or the results of `Recv` in order.
pub mod Pump
pub mod Ready
use flash_qwen.Engine.{Stats, ModelInfo}
use flash_qwen.Prelude.Int.{ℤ, pos}
use flash_qwen.Prelude.{
  ℕ, zero, suc, ◌+◌, Bool, true, false, List, [], ◌∷◌, ◌++◌, Option, none, some, ltb, if◌then◌else◌,
  Bytes, codes, itoa, int_text,
}

-- ErrorCode of the protocol; a later engine may send one that this client does not know.
pub data ErrorCode : Type 0 where
  unspecified over_capacity internal : ErrorCode
  unknown : ℕ → ErrorCode

-- The errors of a request, each with its detail. `transport` is any error of gRPC.
pub data Failure : Type 0 where
  err_over_capacity err_engine_internal transport : Bytes → Failure
  err_prompt_too_long : ℕ → ℤ → Failure
  timed_out exited : Bytes → Failure

-- `Error()`: the sentinel's text, and the detail
unfoldable pub error_text : Failure → Bytes
unfolding itoa
error_text (err_over_capacity detail) = codes "engine over capacity: " ++ detail
error_text (err_engine_internal detail) = codes "engine internal error: " ++ detail
error_text (transport detail) = detail
error_text (err_prompt_too_long prompt_len max_ctx) =
    codes "prompt exceeds context window: prompt is "
    ++ (itoa prompt_len ++ (codes " tokens, context window is " ++ int_text max_ctx))
error_text (timed_out limit) = codes "engine did not become ready within " ++ limit
error_text (exited detail) = detail

pub data Result {ℓ} (A : Type ℓ) : Type ℓ where
  ok : A → Result A
  err : Failure → Result A

infixl 5 ◌>>=◌
abbrev pub ◌>>=◌ {ℓ κ} : {A : Type ℓ} {B : Type κ} → Result A → (A → Result B) → Result B
ok a >>= f = f a
err e >>= f = err e

unfoldable pub error_for : ErrorCode → Bytes → Failure
error_for over_capacity message = err_over_capacity message
error_for unspecified message = err_engine_internal message
error_for internal message = err_engine_internal message
error_for (unknown n) message = err_engine_internal message

pub data Event : Type 0 where
  unset : Event
  token_id : ℤ → Event
  done : Stats → Event
  error : ErrorCode → Bytes → Event

-- The results of `Recv`: events, up to io.EOF or an error.
pub data Feed : Type 0 where
  eof : Feed
  broken : Bytes → Feed
  event : Event → Feed → Feed

pub data Rpc : Type 0 where
  refused : Bytes → Rpc
  opened : Feed → Rpc

abbrev eof_stats : Stats
eof_stats = record {
  finish_reason = codes "stop";
  prompt_tokens = pos 0;
  completion_tokens = pos 0;
}

module _ {S : Type 0} where
  call : Option (ℤ → S → S) → ℤ → S → S
  call none id s = s
  call (some f) id s = f id s

  pump : Option (ℤ → S → S) → Feed → S → S × Result Stats
  pump on_token eof s = (s, ok eof_stats)
  pump on_token (broken e) s = (s, err (transport e))
  pump on_token (event unset feed) s = pump on_token feed s
  pump on_token (event (token_id id) feed) s = pump on_token feed (call on_token id s)
  pump on_token (event (done stats) feed) s = (s, ok stats)
  pump on_token (event (error code message) feed) s = (s, err (error_for code message))

  -- `stream`; the callback's effects are on a state
  unfoldable pub stream : Option (ℤ → S → S) → Rpc → S → S × Result Stats
  unfolding pump call
  stream on_token (refused e) s = (s, err (transport e))
  stream on_token (opened feed) s = pump on_token feed s

-- The answer of the engine to GetModel; the counts are `int32` fields of the protocol.
pub record ModelReply : Type 0 where
  pub id : Bytes
  pub max_ctx : ℤ
  pub vocab_size : ℤ

-- `GetModel`
unfoldable pub get_model : Result ModelReply → Result ModelInfo
get_model reply = do
  mi ← reply
  ok (record { id = mi.id; max_ctx = mi.max_ctx; vocab_size = mi.vocab_size })

-- One round of `WaitReady`: the answer of GetModel, the report of `aliveCheck` (none if it was nil
-- or reported no error) and whether the deadline has passed.
pub record Poll : Type 0 where
  pub model : Option ModelInfo
  pub exit : Option Bytes
  pub late : Bool

-- `WaitReady` over the rounds that the clock allows; `none` means that the rounds given ran out.
unfoldable pub wait_ready : Bytes → List Poll → Option (Result ModelInfo)
wait_ready timeout [] = none
wait_ready timeout (p ∷ polls) = elim p.model [
  | some info ↦ some (ok info)
  | none ↦ elim p.exit [
    | some e ↦ some (err (exited e))
    | none ↦ elim p.late [
      | true ↦ some (err (timed_out timeout))
      | false ↦ wait_ready timeout polls
    ]
  ]
]
