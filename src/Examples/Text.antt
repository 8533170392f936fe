-- ===== src/Examples/Text.antt =====
-- The tokenizer and the ChatML stream on concrete input.
use flash_qwen.Chatml.Render.Turns.{IsTool, turns-tools}
use flash_qwen.Chatml.Render.{has_role, is_tool, head, turns, tool_response, open_user, im_end}
use flash_qwen.Chatml.Stream.Calls.{calls_of, payloads, tools, tools-feed, push_close_again}
use flash_qwen.Chatml.Stream.Deltas.{feed, texts, visible, flush-feed, feed-IsValid}
use flash_qwen.Chatml.Stream.Runes.{take_runes-Cut}
use flash_qwen.Chatml.Stream.{Stream, new_stream, flush, push, take_runes, call_id}
use flash_qwen.Chatml.{Message, ToolCall}
use flash_qwen.Examples.Vocab.{vocab, format, vocab-CoversBytes, vocab-IsComplete, are_bytes_sound}
use flash_qwen.Prelude.Int.{ℤ, pos, eqb_iff}
use flash_qwen.Prelude.{
  flat_map, ℕ, ◌≤◌, ◌<◌, true, false, List, [], ◌∷◌, ◌++◌, Option, none, some, length, concat,
  Bytes, codes, All, bytes_eq, if◌then◌else◌, ◌≡◌, ◌≢◌, refl, ap, arith,
}
use flash_qwen.Tokenizer.Bpe.Keeps.{decode-apply_bpe}
use flash_qwen.Tokenizer.Bpe
use flash_qwen.Tokenizer.Encode.Leftmost
use flash_qwen.Tokenizer.Bpe.Merge.{best_pair-Finds, merge_loop_total}
use flash_qwen.Tokenizer.Bpe.{Best, best_pair, merge_loop, apply_bpe, pair_key}
use flash_qwen.Tokenizer.ByteMaps.{byte_to_sym, cp_to_byte, sym_to_bytes, spell, sym_to_bytes-spell}
use flash_qwen.Tokenizer.Chars.{is_letter, lower, is_newline, is_number, is_punct}
use flash_qwen.Tokenizer.Encode.Find.{Occurs}
use flash_qwen.Tokenizer.Encode.Leftmost.{Among, IsHit, Beats, find_special-Finds}
use flash_qwen.Tokenizer.Encode.RoundTrip.{decode-encode}
use flash_qwen.Tokenizer.Encode.{index, Hit, find_special, encode, has_prefix}
use flash_qwen.Tokenizer.Load.Flags.{IsLoaded, load-IsLoaded}
use flash_qwen.Tokenizer.Load.{load}
use flash_qwen.Tokenizer.Pretokenizer.Progress.{piece_end_bounds}
use flash_qwen.Tokenizer.Pretokenizer.Split.{concat-pieces}
use flash_qwen.Tokenizer.Pretokenizer.{pieces, piece_end, Cp}
use flash_qwen.Tokenizer.{Tokenizer, Special, token_bytes, decode, is_special}
use flash_qwen.Utf8.Cut.{Cut}
use flash_qwen.Utf8.{rune_error, decode_rune}
use flash_qwen.Utf8.Valid.{IsValid, rune, nil}

abbrev mixed : Bytes
mixed = codes "hi<end>it's " ++ 0xC3 ∷ 0xA9 ∷ 0xFF ∷ []

decode-encode_example : decode vocab (encode vocab mixed) ≡ mixed
decode-encode_example = decode-encode vocab mixed vocab-IsComplete (are_bytes_sound mixed refl)

abbrev words : List Bytes
words =
    codes "I"
    ∷ codes "'ll"
    ∷ codes " be"
    ∷ codes "  "
    ∷ codes " at"
    ∷ codes " "
    ∷ codes "4"
    ∷ codes "2"
    ∷ codes "!\n"
    ∷ []

pieces_run : pieces (codes "I'll be   at 42!\n") ≡ words
unfolding pieces decode_rune is_letter lower is_newline is_number is_punct
pieces_run = refl

concat-pieces_example : concat (pieces mixed) ≡ mixed
concat-pieces_example = concat-pieces mixed

sym_to_bytes-spell_example : sym_to_bytes cp_to_byte (spell mixed) ≡ mixed
sym_to_bytes-spell_example = sym_to_bytes-spell mixed (are_bytes_sound mixed refl)

decode-apply_bpe_example : decode vocab (apply_bpe vocab (codes "hi!")) ≡ codes "hi!"
decode-apply_bpe_example =
    decode-apply_bpe vocab (codes "hi!") vocab-CoversBytes (are_bytes_sound (codes "hi!") refl)

abbrev ranks : List (Bytes × ℕ)
ranks = (pair_key (codes "a") (codes "b"), 7) ∷ (pair_key (codes "b") (codes "c"), 3) ∷ []

abbrev symbols : List Bytes
symbols = codes "a" ∷ codes "b" ∷ codes "c" ∷ []

abbrev lowest : Best
lowest = record { rank = 3; left = codes "b"; right = codes "c" }

best_pair_run : best_pair ranks symbols none ≡ some lowest
unfolding best_pair
best_pair_run = refl

best_pair-Finds_example : Bpe.Merge.Finds ranks symbols (best_pair ranks symbols none)
best_pair-Finds_example = best_pair-Finds ranks symbols

merge_loop_total_example : best_pair ranks (merge_loop 3 ranks symbols) none ≡ none
merge_loop_total_example = merge_loop_total 3 ranks symbols (omega arith)

abbrev overlapping : List Special
overlapping = record { str = codes "<e"; id = 1 } ∷ record { str = codes "<end>"; id = 2 } ∷ []

abbrev longer : Hit
longer = record { at = 1; id = 2; len = 5 }

find_run : find_special overlapping (codes "x<end>") none ≡ some longer
unfolding find_special flash_qwen.Tokenizer.Encode.index
find_run = refl

short-Occurs : Occurs (codes "x<end>") (codes "<e") 1
unfolding has_prefix
short-Occurs = (refl, omega arith)

find_special-Finds_example :
    Leftmost.Finds overlapping (codes "x<end>") (find_special overlapping (codes "x<end>") none)
find_special-Finds_example = find_special-Finds overlapping (codes "x<end>")

abbrev two_runes : List Cp
two_runes = record { r = b' '; off = 0 } ∷ record { r = b'a'; off = 1 } ∷ []

piece_end_bounds_example : (0 < piece_end two_runes 0) × (piece_end two_runes 0 ≤ 2)
piece_end_bounds_example = piece_end_bounds two_runes 0 (omega arith)

-- JSON reads the payload "{}" as a call of "f" with no arguments.
abbrev read_call : Bytes → Option (Bytes × Bytes)
read_call b = if bytes_eq b (codes "{}") then some (codes "f", []) else none

-- "hi", a rune in two tokens, a tool call, and the end of the turn.
abbrev response : List ℤ
response = pos 256 ∷ pos 0xC3 ∷ pos 0xA9 ∷ pos 257 ∷ pos b'{' ∷ pos b'}' ∷ pos 258 ∷ pos 259 ∷ []

abbrev fed : Stream × List (Bytes × Option ToolCall)
fed = feed read_call format new_stream response

flush-feed_example :
    (concat (texts read_call format fed.1) ++ (flush fed.0).1 ≡ visible format false response)
    × (length (flush fed.0).1 ≤ 3)
flush-feed_example = flush-feed read_call format response

visible_run : visible format false response ≡ codes "hi" ++ 0xC3 ∷ 0xA9 ∷ []
unfolding visible is_special token_bytes
visible_run = refl

not_error : (r n : ℕ) → r < 0xFFFD → (let bad : ℕ × ℕ = (rune_error, 1) in (r, n) ≢ bad)
not_error r n h e = omega (arith, ap (λ (p : ℕ × ℕ). p.0) e)

IsValid-text : IsValid (codes "hi" ++ 0xC3 ∷ 0xA9 ∷ [])
unfolding flash_qwen.Utf8.decode_rune flash_qwen.Utf8.full_rune
IsValid-text = rune refl (not_error 104 1 (omega arith)) (
    rune refl (not_error 105 1 (omega arith))
      (rune refl (not_error 233 2 (omega arith)) (nil refl)))

response-IsValid : IsValid (visible format false response)
response-IsValid = rw visible_run IsValid-text

feed-IsValid_example : All IsValid (texts read_call format fed.1) × ((flush fed.0).1 ≡ [])
feed-IsValid_example = feed-IsValid read_call format response response-IsValid

abbrev half_rune : Stream
half_rune = record { pending = b'a' ∷ 0xC3 ∷ []; in_tool = false; tool_ids = []; n_tools = 0 }

take_runes-Cut_example :
    Cut (take_runes half_rune).0.pending (b'a' ∷ 0xC3 ∷ []) (take_runes half_rune).1
take_runes-Cut_example = take_runes-Cut half_rune

tools-feed_example :
    tools read_call format fed.1
    ≡ calls_of read_call format
        (new_stream).n_tools
        (payloads format (new_stream).in_tool (new_stream).tool_ids response)
tools-feed_example = tools-feed read_call format new_stream response

abbrev in_call : Stream
in_call = record { pending = []; in_tool = true; tool_ids = pos b'{' ∷ pos b'}' ∷ []; n_tools = 0 }

abbrev first_call : ToolCall
first_call = record { id = codes "call_0"; name = codes "f"; arguments_json = codes "{}" }

close_run : (push read_call format in_call (pos 258)).2 ≡ some first_call
unfolding push flash_qwen.Chatml.Stream.parse_tool flash_qwen.Chatml.Stream.call_id decode
    token_bytes
close_run = refl

false_ne_true : false ≢ true
false_ne_true = cc

markers_differ : pos 257 ≢ pos 258
markers_differ e = false_ne_true ((eqb_iff (pos 257) (pos 258)).1 e)

push_close_again_example :
    (push read_call format (push read_call format in_call (pos 258)).0 (pos 258)).2
    ≡ some (record first_call { id = call_id 1 })
push_close_again_example =
    push_close_again read_call format in_call first_call markers_differ close_run

abbrev added : List Special
added = record { str = codes "<end>"; id = 3 } ∷ []

abbrev merge_lines : List Bytes
merge_lines = codes "#version: 0.2" ∷ [] ∷ codes "h i\r" ∷ codes "junk" ∷ codes "# '" ∷ []

abbrev loaded : Tokenizer
loaded = record {
  byte_to_sym = byte_to_sym;
  cp_to_byte = cp_to_byte;
  tok_to_id = (codes "<end>", 3) ∷ (codes "i", 1) ∷ (codes "h", 0) ∷ [];
  id_to_tok = codes "h" ∷ codes "i" ∷ [] ∷ codes "<end>" ∷ [];
  special_f = false ∷ false ∷ false ∷ true ∷ [];
  merge_rank = (pair_key (codes "#") (codes "'"), 1) ∷ (pair_key (codes "h") (codes "i"), 0) ∷ [];
  specials = added;
}

abbrev small_vocab : List (Bytes × ℕ)
small_vocab = (codes "h", 0) ∷ (codes "i", 1) ∷ []

load_run :
    load (λ specials. specials) (some added) (some small_vocab) (some merge_lines) ≡ some loaded
unfolding load sym_to_bytes cp_to_byte has_prefix index decode_rune
load_run = refl

load-IsLoaded_example :
    (specials : List Special) × (entries : List (Bytes × ℕ)) × (some added ≡ some specials)
    × (some small_vocab ≡ some entries)
    × IsLoaded specials entries loaded
load-IsLoaded_example =
    load-IsLoaded (λ specials. specials) (some added) (some small_vocab) (some merge_lines) loaded
      load_run

abbrev result : Bytes → Message
result text = record { role = codes "tool"; content = text; tool_calls = []; tool_call_id = [] }

abbrev thanks : Message
thanks = record {
  role = codes "user";
  content = codes "thanks";
  tool_calls = [];
  tool_call_id = [];
}

results_are_tools : All IsTool (result (codes "1") ∷ result (codes "2") ∷ [])
unfolding has_role
results_are_tools = (refl, (refl, tt))

thanks_end : is_tool (head (thanks ∷ [])) ≡ false
unfolding is_tool head
thanks_end = refl

turns-tools_example :
    turns none (result (codes "1") ∷ result (codes "2") ∷ thanks ∷ [])
    ≡ (if is_tool none then [] else open_user)
      ++ (flat_map tool_response (result (codes "1") ∷ result (codes "2") ∷ [])
          ++ (im_end ++ turns (some (result (codes "2"))) (thanks ∷ [])))
turns-tools_example =
    turns-tools none (result (codes "1")) (result (codes "2") ∷ []) (thanks ∷ []) results_are_tools
      thanks_end
