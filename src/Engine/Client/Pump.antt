-- ===== src/Engine/Client/Pump.antt =====
-- What the driver does with a whole stream of events.
use flash_qwen.Engine.{Stats}
use flash_qwen.Engine.Client.{
  transport, Result, ok, err, error_for, unset, token_id, done, error, Feed, eof, broken, event,
  Rpc, refused, opened, eof_stats, call, pump, stream,
}
use flash_qwen.Prelude.Int.{ℤ}
use flash_qwen.Prelude.{List, [], ◌∷◌, some, ◌≡◌, refl}

-- The tokens in front of the event, or the end, that stops the loop.
abbrev pub tokens_of : Feed → List ℤ
tokens_of eof = []
tokens_of (broken e) = []
tokens_of (event unset feed) = tokens_of feed
tokens_of (event (token_id id) feed) = id ∷ tokens_of feed
tokens_of (event (done stats) feed) = []
tokens_of (event (error code message) feed) = []

-- How the stream ends: an event behind the first terminal one is never read.
abbrev pub ending_of : Feed → Result Stats
ending_of eof = ok eof_stats
ending_of (broken e) = err (transport e)
ending_of (event unset feed) = ending_of feed
ending_of (event (token_id id) feed) = ending_of feed
ending_of (event (done stats) feed) = ok stats
ending_of (event (error code message) feed) = err (error_for code message)

abbrev pub rpc_tokens : Rpc → List ℤ
rpc_tokens (refused e) = []
rpc_tokens (opened feed) = tokens_of feed

abbrev pub rpc_ending : Rpc → Result Stats
rpc_ending (refused e) = err (transport e)
rpc_ending (opened feed) = ending_of feed

abbrev pub each_token {ℓ} : {S : Type ℓ} → (ℤ → S → S) → List ℤ → S → S
each_token f [] s = s
each_token f (id ∷ ids) s = each_token f ids (f id s)

module _ {S : Type 0} (f : ℤ → S → S) where
  pump_lem :
      (feed : Feed) (s : S)
      → pump (some f) feed s ≡ (each_token f (tokens_of feed) s, ending_of feed)
  unfolding pump call
  pump_lem eof s = refl
  pump_lem (broken e) s = refl
  pump_lem (event unset feed) s = pump_lem feed s
  pump_lem (event (token_id id) feed) s = pump_lem feed (f id s)
  pump_lem (event (done stats) feed) s = refl
  pump_lem (event (error code message) feed) s = refl

  -- The callback sees each token once and in order, up to the first terminal event, and the result
  -- is that event's.
  pub stream_lem :
      (rpc : Rpc) (s : S)
      → stream (some f) rpc s ≡ (each_token f (rpc_tokens rpc) s, rpc_ending rpc)
  unfolding stream
  stream_lem (refused e) s = refl
  stream_lem (opened feed) s = pump_lem feed s
