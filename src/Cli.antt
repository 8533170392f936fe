-- ===== src/Cli.antt =====
-- cmd/flashqwen/main.go: the command of a run. The opening of a session, the flags and the two modes
-- are the modules below.
pub mod Chat
pub mod Serve
pub mod Flags
pub mod Open
use flash_qwen.Engine.Client.{Failure, Result, ok, err}
use flash_qwen.Engine.{ModelInfo}
use flash_qwen.Prelude.{
  ℕ, Bool, true, false, List, [], ◌∷◌, ◌++◌, Option, none, some, ◌||◌, bytes_eq, if◌then◌else◌,
  Bytes, codes,
}

-- What `main` runs: a mode with its arguments, the usage, or the end for want of a command or for one
-- that it does not know.
pub data Command : Type 0 where
  serve chat : List Bytes → Command
  help no_command : Command
  unknown : Bytes → Command

-- `os.Args`, the program's name first
unfoldable pub main : List Bytes → Command
main [] = no_command
main (program ∷ []) = no_command
main (program ∷ command ∷ args) =
    if bytes_eq command (codes "serve")
    then serve args
    else if bytes_eq command (codes "chat")
    then chat args
    else if bytes_eq command (codes "-h")
        || bytes_eq command (codes "--help")
        || bytes_eq command (codes "help")
    then help
    else unknown command

-- the text of `usage`; the three numbers are a dash in UTF-8
abbrev pub usage : Bytes
usage =
    codes "flashqwen "
    ++ (0xE2 ∷ 0x80 ∷ 0x94 ∷ [])
    ++ codes " OpenAI-compatible server + CLI for a Qwen3 token engine\n\nusage:\n"
    ++ codes "  flashqwen serve     --model DIR [--addr :8000] [--slots N] [--max-ctx N]\n"
    ++ codes "  flashqwen chat      --model DIR [--max-ctx N]\n\n"
    ++ codes "All modes embed and launch the C++ engine themselves; no separate process to start.\n"

-- What `main` itself writes to stderr and the status that it exits with, if it runs no mode; `quote`
-- is the verb %q of fmt.
module _ (quote : Bytes → Bytes) where
  unfoldable pub complaint : Command → Option (Bytes × ℕ)
  complaint (serve args) = none
  complaint (chat args) = none
  complaint help = some (usage, 0)
  complaint no_command = some (usage, 2)
  complaint (unknown command) =
      some (codes "unknown command " ++ (quote command ++ (codes "\n\n" ++ usage)), 2)
