-- ===== src/Lexer/Chars.antt =====
-- The character tests of <ctype.h> in the C locale, and `hex` of src/lexer.c.
use ifj.Prelude.{ℕ, ◌+◌, ◌-◌, Bool, ◌&&◌, ◌||◌, Option, none, some, leb, ◌==◌, if◌then◌else◌}

abbrev within : ℕ → ℕ → ℕ → Bool
within lo hi c = leb lo c && leb c hi

abbrev pub is_upper : ℕ → Bool
is_upper c = within b'A' b'Z' c

unfoldable pub is_alpha : ℕ → Bool
is_alpha c = within b'a' b'z' c || is_upper c

unfoldable pub is_digit : ℕ → Bool
is_digit c = within b'0' b'9' c

unfoldable pub is_xdigit : ℕ → Bool
is_xdigit c = within b'0' b'9' c || within b'a' b'f' c || within b'A' b'F' c

unfoldable pub to_lower : ℕ → ℕ
to_lower c = if is_upper c then c + 32 else c

-- A byte that continues an identifier.
unfoldable pub is_word : ℕ → Bool
is_word c = is_alpha c || is_digit c || c == b'_'

-- A byte that starts one.
unfoldable pub is_word_start : ℕ → Bool
is_word_start c = is_alpha c || c == b'_'

-- `hex`, with `none` for -1.
unfoldable pub hex : ℕ → Option ℕ
hex c =
    if within b'0' b'9' c
    then some (c - b'0')
    else if within b'a' b'f' c
    then some (c - b'a' + 10)
    else if within b'A' b'F' c
    then some (c - b'A' + 10)
    else none
