-- ===== src/Lib.antt =====
-- FlashQwen: the text side of an inference service, in Go.
--
-- A request comes in at internal/server, or at the interactive chat of cmd/flashqwen. The text
-- tier internal/engine/generate.go renders it with internal/chatml, encodes it with
-- internal/tokenizer, decides how many tokens may follow, and drives the engine process through
-- internal/engine/client.go. The engine's tokens come back one by one; a ChatML stream, or a plain
-- rune buffer for raw completions, turns them into text deltas and tool calls, which the server
-- sends as events or as one reply. internal/supervisor keeps the engine process: it extracts and
-- starts it, collects the end of its stderr, reaps it and stops it. cmd/flashqwen opens a session
-- from these parts, and tears it down.
--
-- Files, with the code that they model:
--   Tokenizer          internal/tokenizer/tokenizer.go: the record, Decode, ID, IsSpecial
--     ByteMaps         buildByteMaps, symToBytes
--     Chars            isNumber, isSpace, isNewline, isLetter, isPunct
--     Pretokenizer     decodeCPs, the loop of pretokenizeAndBPE; below it Progress and Split
--     Bpe              applyBPE; below it Merge, Keeps, and Joins and Greedy, with the reference that
--                      joins one pair at a time
--     Encode           Encode; below it Find, Leftmost and RoundTrip
--     Load             Load, loadMerges; below it Tables, Flags, and Files with loadVocab,
--                      loadAddedTokens and the errors of the files
--   Chatml             internal/chatml/types.go, chatml.go: messages, Load, StopTokenIDs
--     Stream           internal/chatml/stream.go: Push, takeRunes, Flush, parseTool; below it Runes,
--                      Deltas and Calls
--     Render           internal/chatml/render.go: toolJSON, Render; below it Turns
--   Engine             internal/engine/types.go
--     Client           internal/engine/client.go: errorFor, stream, GetModel, WaitReady;
--                      below it Pump and Ready
--     Generate         internal/engine/generate.go: NewGenerator, resolveMaxTokens, buildRequest,
--                      Generate; below it Policy and Text
--     Raw              internal/engine/generate.go: Complete and its takeRunes; below it Text
--   Server             internal/server/types.go, completions.go: the wire types, decode,
--                      decodeCompletion, classifyError, toolCalls; below it Prompts, and Faults, what
--                      a client is told of a failure
--     Chat             chatCompletions, blockingChat, streamChat; below it Frames and Agree
--     Sse              the bytes of the events of both handlers; below it Events, which reads them
--     Routes           internal/server/server.go: Run, listModels, newID; below it Ids
--     Service          New, chatCompletions over Generate and completions over Complete; below it
--                      Answers and Completes
--     Completions      completions, blockingCompletion, streamCompletion; below it Frames and
--                      Dispatch
--   Supervisor         internal/supervisor/supervisor.go: tailBuffer, Exited; below it Tail
--     Start            Start, freePort, over the answers of the operating system; below it Leaves
--     Life             the process, its stderr, its reaper and the calls of Stop as a step relation;
--                      below it Sound, Reports and Liveness
--   Cli                cmd/flashqwen/main.go: main
--     Open             cmd/flashqwen/common.go: open over Load, Start, Dial, WaitReady and
--                      Stop; below it Effects and Holds
--     Flags            the flags of cmd/flashqwen/serve.go and chat.go
--     Serve            cmd/flashqwen/serve.go: the goroutines of runServe; below it Exit
--     Chat             cmd/flashqwen/chat.go: runChat; below it History
--   Utf8               what utf8.FullRune, utf8.DecodeRune and string(rune) document, as functions;
--                      below it Size, Cut (the whole runes at the front of some bytes), Valid and
--                      Encode
--   Prelude            Boolean tests, lists, integers and decimal numerals
--   Examples           a small vocabulary, and a concrete run of each result
--
-- A Go string or byte slice is a list of numbers. Go's int is an integer without bounds; where the
-- program converts to int32 the wrap-around is written out. A map is an association list whose
-- first entry counts. State that a method or a closure changes is passed and returned: the
-- callbacks of the text tier return the calls of onDelta in order, a handler returns the reply or
-- the events that it writes, open returns the effects on the process and the connection, and the
-- interactive chat what it asks and prints. What runs concurrently, the engine process with its
-- reaper and the callers of Stop, and the goroutines of runServe, is a relation of single steps,
-- and the theorems hold in every state that is reached by any sequence of them. The engine process
-- may write, or die, at any time, and SIGTERM itself changes nothing: the process may ignore it,
-- and then Stop, and an open that calls it, does not return.
--
-- Loops run on fuel where their recursion is not on a list: takeRunes and decodeCPs on the number
-- of bytes, since each round takes one at least; the splitting loop on the number of runes; the
-- merge loop on the number of symbols, since each merge makes them fewer; Encode on the number of
-- bytes, which is enough if no special literal is empty (with an empty one the program may not
-- end). WaitReady runs over the rounds that the clock allows.
--
-- Parameters are what the code calls elsewhere: json.Unmarshal of a tool call, json.Marshal of a
-- tool definition, the arithmetic of floats, strings.TrimSpace, sort.Slice of the special
-- literals, and the engine, as the answers of gRPC. Start takes the answers of the operating
-- system as a record. os/exec copies stderr in order and lets Wait return once all of it is
-- copied; writing it to the terminal does not fail; the Run of gin returns only with an error. A
-- raw JSON field is a data type with a case for each thing that the code asks of it.
--
-- Not modelled: how the operating system and JSON read the model's files; the router, the headers
-- and the liveness page of the server, and the index of a choice, which is always 0; Go's reading
-- of the arguments; the generated protocol code; the engine itself, which is C++ and CUDA.
mod Prelude
pub mod Utf8
pub mod Tokenizer
pub mod Chatml
pub mod Engine
pub mod Server
pub mod Supervisor
pub mod Cli
mod Examples
