-- ===== src/Supervisor.antt =====
-- internal/supervisor/supervisor.go: the tail of the engine's stderr, and what its exit is reported
-- as. `strings.TrimSpace` is a parameter.
pub mod Tail
pub mod Life
pub mod Start
use flash_qwen.Prelude.{
  ℕ, ◌+◌, ◌-◌, ◌<◌, Bool, true, false, List, [], ◌∷◌, ◌++◌, Option, none, some, length, drop, ltb,
  ◌==◌, if◌then◌else◌, Bytes, codes,
}

pub record TailBuffer : Type 0 where
  pub buf : Bytes
  pub max : ℕ

-- `Write` keeps the last `max` bytes; it reports all of `p` as written.
unfoldable pub write : TailBuffer → Bytes → TailBuffer × ℕ
write t p =
    let all = t.buf ++ p in
    (
      record t { buf = if ltb t.max (length all) then drop (length all - t.max) all else all },
      length p,
    )

-- A process: still running, or reaped with the error of `Wait`, if any.
pub data Process : Type 0 where
  running : Process
  reaped : Option Bytes → Process

wait_text : Option Bytes → Bytes
wait_text none = []
wait_text (some e) = codes " (" ++ (e ++ codes ")")

module _ (trim_space : Bytes → Bytes) where
  tail_text : Bytes → Bytes
  tail_text t = if length t == 0 then [] else codes "; engine stderr:\n" ++ t

  -- `Exited`: none while the engine runs
  unfoldable pub exited : TailBuffer → Process → Option Bytes
  unfolding wait_text tail_text
  exited tail running = none
  exited tail (reaped e) =
      some (codes "engine process exited" ++ (wait_text e ++ tail_text (trim_space tail.buf)))
