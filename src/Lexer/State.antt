-- ===== src/Lexer/State.antt =====
-- src/lexer.h, and the macros and `ifj17_lexer_init` of src/lexer.c.
--
-- `rest` is the memory from `source[offset]` up to the terminating zero, which is its last
-- byte. `next` takes the first byte of `rest`; on the empty list it would read behind the
-- terminator, which is the fault `overrun`. `undo` puts back the byte that was read: the model
-- goes on with the list from before the read.
use ifj.Prelude.{ℕ, Bool, true, ◌||◌, [], ◌∷◌, ◌++◌, Option, none, some, Bytes, Fault}
use ifj.Token.{Kind, illegal, id, int, double, string, return_kw, is_kind, ordinal, Token}

-- The messages that the scanner stores in `error`.
pub data LexError : Type 0 where
  illegal_character bad_hex_string bad_hex_literal : LexError

-- `ifj17_lexer_t`; `buf` of the C struct is never used.
pub record Lexer : Type 0 where
  pub error : Option LexError
  pub lineno : ℕ
  pub rest : Bytes
  pub filename : Bytes
  pub tok : Token

-- A C string lies in memory with its terminator.
abbrev pub memory : Bytes → Bytes
memory source = source ++ 0 ∷ []

-- `ifj17_lexer_init`, which leaves the token as it finds it.
unfoldable pub lexer_init : Token → Bytes → Bytes → Lexer
lexer_init tok source filename = record {
  error = none;
  lineno = 1;
  rest = memory source;
  filename = filename;
  tok = tok;
}

-- What one round of the scanner does: it goes on with the next byte, or it returns, with the
-- returned int as a truth value, or it faults.
pub data Step : Type 0 where
  again : Lexer → Step
  stop : Bool → Lexer → Step
  fault : Fault → Step

-- `token(t)`
abbrev pub set_kind : Kind → Lexer → Lexer
set_kind k l = record l { tok = record (l.tok) { kind = k } }

-- `error(msg)`
abbrev pub fail : LexError → Lexer → Lexer
fail e l = record (set_kind illegal l) { error = some e }

-- `return token(t)` with `rest` left to read.
abbrev pub emit : Kind → Lexer → Bytes → Step
emit k l rest = stop true (record (set_kind k l) { rest = rest })

-- `need_semi(t)`
unfoldable pub need_semi : Kind → Bool
unfolding ordinal
need_semi k =
    is_kind k id || is_kind k double || is_kind k int || is_kind k string || is_kind k return_kw
