-- ===== src/Tokenizer/Chars.antt =====
-- The classes of runes by which the pre-tokenizer splits.
use flash_qwen.Prelude.{ℕ, ◌+◌, Bool, not, ◌&&◌, ◌||◌, leb, within, ◌==◌, if◌then◌else◌}

unfoldable pub is_number : ℕ → Bool
is_number c = within b'0' b'9' c

unfoldable pub is_space : ℕ → Bool
is_space c =
    c == b' '
    || c == b'\t'
    || c == b'\n'
    || c == b'\r'
    || c == 0x0B
    || c == 0x0C
    || c == 0x85
    || c == 0xA0
    || c == 0x1680
    || c == 0x2028
    || c == 0x2029
    || c == 0x202F
    || c == 0x205F
    || c == 0x3000
    || c == 0xFEFF
    || within 0x2000 0x200A c

unfoldable pub is_newline : ℕ → Bool
is_newline c = c == b'\n' || c == b'\r'

unfoldable pub is_letter : ℕ → Bool
unfolding is_space
is_letter c = within b'a' b'z' c || within b'A' b'Z' c || (leb 0x80 c && not (is_space c))

unfoldable pub is_punct : ℕ → Bool
unfolding is_space is_letter is_number
is_punct c = not (is_space c) && not (is_letter c) && not (is_number c)

unfoldable pub lower : ℕ → ℕ
lower c = if within b'A' b'Z' c then c + 32 else c
