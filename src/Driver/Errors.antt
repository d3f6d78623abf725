-- ===== src/Driver/Errors.antt =====
-- `ifj17_report_error` of src/errors.c.
use Prim.Native.String.{String}
use ifj.Prelude.{ℕ, Option, none, some, Bytes}
use ifj.Token.{Kind}
use ifj.Lexer.State.{LexError}
use ifj.Parser.Monad.{Parser}
use ifj.Parser.Scanner.{lexer_source}

-- What is said: the parser's message, the scanner's as a syntax error, or the token.
pub data Message : Type 0 where
  parse_error : String → Message
  syntax_error : LexError → Message
  unexpected_token : Kind → Message

-- The line that is printed: the file, the line, the context and the message.
pub record Report : Type 0 where
  pub filename : Bytes
  pub line : ℕ
  pub context : Option String
  pub message : Message

unfoldable pub message_of : Option String → Option LexError → Kind → Message
message_of (some err) error kind = parse_error err
message_of none (some error) kind = syntax_error error
message_of none none kind = unexpected_token kind

unfoldable pub report_error : Parser → Report
report_error p = record {
  filename = p.lex.filename;
  line = p.lex.lineno;
  context = p.ctx;
  message = message_of p.err p.lex.error p.lex.tok.kind;
}
