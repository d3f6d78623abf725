-- ===== src/Tests/Examples.antt =====
-- The examples of the theorems on src/lexer.c and src/parser.c, at small sources.
use Prim.Native.String.{String}
use ifj.Prelude.{◌≡◌, refl, arith, true, [], codes, ok, err, overrun, Ends}
use ifj.Token.{
  ordinal, semicolon, spelling, Token, of_int, word, illegal, id, int, string, op_gte, op_div,
}
use ifj.Lexer.State.{Lexer, lexer_init, memory, need_semi}
use ifj.Lexer.Scan.{scan, tokens}
use ifj.Lexer.Code.{scanner_code}
use ifj.Lexer.Ends.{Scanned, scan-Scanned, tokens-Ends}
use ifj.Lexer.Spelling.{scan-spelling}
use ifj.Lexer.Words.{scan_word}
use ifj.Lexer.Digits.{scan_decimal, scan_hexadecimal}
use ifj.Lexer.Strings.{scan_text, scan_open_string}
use ifj.Lexer.Comments.{scan_line_comment, scan_block_comment, scan_slash_loses, scan_last_quote}
use ifj.Lexer.Lines.{scan_line_break}
use ifj.Parser.Monad.{Parser, parser_init}
use ifj.Parser.Scanner.{lexer_source}
use ifj.Parser.Grammar.{expr, block, parse}
use ifj.Parser.Reads.{size, Ensures, Fell, Kept}
use ifj.Parser.Ends.{AtEnd, expr-Ends, block-Ends, parse-Ends}

abbrev blank : Token
blank = record { kind = illegal; as_string = []; as_double = of_int 0; as_int = word 0 }

abbrev start : String → Lexer
start s = lexer_init blank (codes s) []

abbrev program_text : Parser
program_text = parser_init (start "scope\nprint 1 + a;\nend scope\n")

parse-Ends_example : Ensures (size program_text) (AtEnd program_text) (parse program_text)
parse-Ends_example = parse-Ends program_text

-- Behind the first `next`, at `a` of `a + 1;`.
abbrev at_name : Parser
at_name =
    parser_init (record (start " + 1;") { tok = record blank { kind = id; as_string = codes "a" } })

expr-Ends_example : Ensures 100 (Fell at_name) (expr 100 at_name)
unfolding lexer_init need_semi
expr-Ends_example = expr-Ends 100 100 at_name (omega arith) (omega arith)

block-Ends_example : Ensures 100 (Kept at_name) (block 100 at_name)
unfolding lexer_init need_semi
block-Ends_example = block-Ends 100 100 at_name (omega arith) (omega arith)

scan-Scanned_example : Scanned (start "a\n+") (scan (start "a\n+"))
scan-Scanned_example = scan-Scanned (start "a\n+")

tokens-Ends_example : Ends (tokens (start "a + !\"b\" \n"))
tokens-Ends_example = tokens-Ends (start "a + !\"b\" \n")

scan-spelling_example :
    scan (start ">= 1")
    ≡ ok (
      true,
      record (start ">= 1") { rest = memory (codes " 1"); tok = record blank { kind = op_gte } },
    )
unfolding scanner_code spelling
scan-spelling_example = scan-spelling op_gte (start ">= 1") b' ' (memory (codes "1")) refl refl refl

scan_word_example :
    scan (start "If_2 a")
    ≡ ok (
      true,
      record (start "If_2 a") {
        rest = memory (codes " a");
        tok = record blank { kind = id; as_string = codes "if_2" };
      },
    )
unfolding scanner_code
scan_word_example =
    scan_word (start "If_2 a") b'I' (codes "f_2") b' ' (memory (codes "a")) refl refl
      (refl, (refl, (refl, tt))) refl (omega arith)

scan_decimal_example :
    scan (start "4294967_298;")
    ≡ ok (
      true,
      record (start "4294967_298;") {
        rest = memory (codes ";");
        tok = record blank { kind = int; as_int = word 2 };
      },
    )
unfolding scanner_code
scan_decimal_example =
    scan_decimal (start "4294967_298;") b'4' (codes "294967_298") b';' (memory []) refl refl
      (refl, (refl, (refl, (refl, (refl, (refl, (refl, (refl, (refl, (refl, tt)))))))))) refl

scan_hexadecimal_example :
    scan (start "0xfF;")
    ≡ ok (
      true,
      record (start "0xfF;") {
        rest = memory (codes ";");
        tok = record blank { kind = int; as_int = word 255 };
      },
    )
unfolding scanner_code
scan_hexadecimal_example =
    scan_hexadecimal (start "0xfF;") b'f' (codes "F") b';' (memory []) refl refl (refl, tt) refl

scan_text_example :
    scan (start "!\"a\nb\";")
    ≡ ok (
      true,
      record (start "!\"a\nb\";") {
        lineno = 2;
        rest = memory (codes ";");
        tok = record blank { kind = string; as_string = codes "a\nb" };
      },
    )
unfolding scanner_code
scan_text_example =
    scan_text (start "!\"a\nb\";") (codes "a\nb") (memory (codes ";")) refl
      (refl, (refl, (refl, tt))) (omega arith)

scan_open_string_example : scan (start "!\"ab") ≡ err overrun
unfolding lexer_init
scan_open_string_example =
    scan_open_string (start "!\"ab") (codes "ab") refl (refl, (refl, (refl, tt)))

scan_line_comment_example :
    scan (start "' a\n+") ≡ scan (record (start "' a\n+") { rest = memory (codes "\n+") })
unfolding lexer_init
scan_line_comment_example =
    scan_line_comment (start "' a\n+") b' ' (codes "a") (memory (codes "+")) refl refl (refl, tt)

scan_block_comment_example :
    scan (start "/'a\n'/+") ≡ scan (record (start "/'a\n'/+") { rest = memory (codes "+") })
unfolding lexer_init
scan_block_comment_example =
    scan_block_comment (start "/'a\n'/+") (codes "a\n") (memory (codes "+")) refl (refl, (refl, tt))

scan_slash_loses_example :
    scan (start "/2+")
    ≡ ok (
      true,
      record (start "/2+") { rest = memory (codes "+"); tok = record blank { kind = op_div } },
    )
unfolding lexer_init
scan_slash_loses_example = scan_slash_loses (start "/2+") b'2' b'+' (memory []) refl refl refl

scan_last_quote_example : scan (start "'") ≡ err overrun
unfolding lexer_init
scan_last_quote_example = scan_last_quote (start "'") b'\'' refl refl

-- Behind the name `a`.
abbrev behind_name : Lexer
behind_name = record (start "\n+") { tok = record blank { kind = id; as_string = codes "a" } }

scan_line_break_example :
    scan behind_name
    ≡ ok (true, record behind_name { tok = record (behind_name.tok) { kind = semicolon } })
unfolding lexer_init ordinal
scan_line_break_example = scan_line_break behind_name b'\n' (memory (codes "+")) refl refl
