-- ===== src/Tokenizer/Load/Files.antt =====
-- The three files of `Load`: what opening, reading and parsing them answers, and the errors that it
-- returns. What JSON reads is data.
use flash_qwen.Prelude.{ℕ, List, ◌++◌, Option, none, some, map, Bytes, codes, ◌≡◌, refl}
use flash_qwen.Tokenizer.Load.{build, load}
use flash_qwen.Tokenizer.{Special, Tokenizer}

pub data Loaded (A : Type 0) : Type 0 where
  loaded : A → Loaded A
  load_error : Bytes → Loaded A

-- os.ReadFile, and json.Unmarshal of what it read
pub data JsonFile (A : Type 0) : Type 0 where
  unreadable unparsable : Bytes → JsonFile A
  parsed : A → JsonFile A

-- os.Open, and the lines of the scanner with the error that ended it, if any. A line of more than
-- 1 MiB is one.
pub data LineFile : Type 0 where
  unopened : Bytes → LineFile
  scanned : List Bytes → Option Bytes → LineFile

pub load_vocab : JsonFile (List (Bytes × ℕ)) → Loaded (List (Bytes × ℕ))
load_vocab (unreadable e) = load_error (codes "read vocab.json: " ++ e)
load_vocab (unparsable e) = load_error (codes "parse vocab.json: " ++ e)
load_vocab (parsed vocab) = loaded vocab

-- The entries are the id and the content of an added token.
pub load_added_tokens : JsonFile (List (ℕ × Bytes)) → Loaded (List Special)
load_added_tokens (unreadable e) = load_error (codes "read tokenizer.json: " ++ e)
load_added_tokens (unparsable e) = load_error (codes "parse tokenizer.json: " ++ e)
load_added_tokens (parsed tokens) =
    loaded (map (λ (a : ℕ × Bytes). record { str = a.1; id = a.0 }) tokens)

module _ (sort : List Special → List Special) where
  with_merges : List Special → List (Bytes × ℕ) → LineFile → Loaded Tokenizer
  unfolding build
  with_merges added vocab (unopened e) = load_error (codes "open merges.txt: " ++ e)
  with_merges added vocab (scanned lines (some e)) = load_error e
  with_merges added vocab (scanned lines none) = loaded (build sort added vocab lines)

  with_vocab : List Special → Loaded (List (Bytes × ℕ)) → LineFile → Loaded Tokenizer
  unfolding with_merges
  with_vocab added (load_error e) merges = load_error e
  with_vocab added (loaded vocab) merges = with_merges added vocab merges

  with_added : Loaded (List Special) → JsonFile (List (Bytes × ℕ)) → LineFile → Loaded Tokenizer
  unfolding with_vocab load_vocab
  with_added (load_error e) vocab merges = load_error e
  with_added (loaded added) vocab merges = with_vocab added (load_vocab vocab) merges

  -- `Load`, over the files
  unfoldable pub load_files :
      JsonFile (List (ℕ × Bytes)) → JsonFile (List (Bytes × ℕ)) → LineFile → Loaded Tokenizer
  unfolding with_added load_added_tokens
  load_files added vocab merges = with_added (load_added_tokens added) vocab merges

-- What a file gives, if it gives anything.
abbrev pub given : {A : Type 0} → Loaded A → Option A
given (loaded a) = some a
given (load_error e) = none

abbrev pub given_lines : LineFile → Option (List Bytes)
given_lines (unopened e) = none
given_lines (scanned lines (some e)) = none
given_lines (scanned lines none) = some lines

module _ (sort : List Special → List Special) where
  with_vocab_lem :
      (added : List Special) (vocab : Loaded (List (Bytes × ℕ))) (merges : LineFile)
      → given (with_vocab sort added vocab merges)
        ≡ load sort (some added) (given vocab) (given_lines merges)
  unfolding with_vocab with_merges load
  with_vocab_lem added (load_error e) merges = refl
  with_vocab_lem added (loaded vocab) (unopened e) = refl
  with_vocab_lem added (loaded vocab) (scanned lines (some e)) = refl
  with_vocab_lem added (loaded vocab) (scanned lines none) = refl

  with_added_lem :
      (added : Loaded (List Special)) (vocab : JsonFile (List (Bytes × ℕ))) (merges : LineFile)
      → given (with_added sort added vocab merges)
        ≡ load sort (given added) (given (load_vocab vocab)) (given_lines merges)
  unfolding with_added load
  with_added_lem (load_error e) vocab merges = refl
  with_added_lem (loaded added) vocab merges = with_vocab_lem added (load_vocab vocab) merges

  -- `Load` succeeds exactly if each of the files gives something, and then with the tokenizer of what
  -- they give; a scan that breaks off gives nothing.
  pub load_files-load :
      (added : JsonFile (List (ℕ × Bytes))) (vocab : JsonFile (List (Bytes × ℕ)))
      (merges : LineFile)
      → given (load_files sort added vocab merges)
        ≡ load sort
            (given (load_added_tokens added))
            (given (load_vocab vocab))
            (given_lines merges)
  unfolding load_files
  load_files-load added vocab merges = with_added_lem (load_added_tokens added) vocab merges
