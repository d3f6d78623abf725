-- ===== src/Tests/Functions.antt =====
-- A function with a declaration and a loop, read from its source.
use ifj.Prelude.{ℕ, zero, suc, refl, [], codes}
use ifj.Token.{ordinal}
use ifj.Lexer.State.{Lexer, lexer_init}
use ifj.Lexer.Code.{scanner_code}
use ifj.Ast.{block_node}
use ifj.Parser.Monad.{parser_init}
use ifj.Parser.Scanner.{lexer_source}
use ifj.Parser.Grammar.{parse}
use ifj.Parser.Syntax.{Located, tokens_of, tokens_behind, Stops}
use ifj.Parser.Syntax.Stream.{Streams}
use ifj.Parser.Syntax.Level.{Parsed}
use ifj.Parser.Program.{
  last_name, decl, unset, set_to, last_dim, given_params, typed, absent, present, at_loop, at_end,
  returned, received, dimmed, defined, looped, body, Items, no_items, item, names_tokens,
  decl_tokens, init_tokens, dims_tokens, params_tokens, type_tokens, whole_tokens, stmt_tokens,
  body_tokens, items_tokens, items_trees, StmtFits, BodyFits, ItemsFit,
}
use ifj.Parser.Program.Steps.{shown}
use ifj.Parser.Program.Simple.{semicolon-Follows}
use ifj.Parser.Program.Reads.{parse-Parsed}
use ifj.Tests.Syntax.{scanned_to, behind}
use ifj.Tests.Program.{lone, all_scanned-Streams}
use ifj.Tests.Driver.{no_token}

abbrev at_start : Lexer
at_start =
    lexer_init no_token
      (codes
        "function f(n as integer) as integer\ndim a as integer = n\ndo while a\ninput b\nloop\nreturn a\nend function")
      []

abbrev nth : ℕ → Lexer
nth zero = at_start
nth (suc n) = behind (nth n)

abbrev at : ℕ → Located
at n = ((nth n).lineno, (nth n).tok)

unfoldable defining : Items
unfolding scanner_code ordinal lone
defining =
    item
      (defined (at 1) (at 2)
        (given_params (at 3) (last_dim (decl (last_name (at 4)) (at 5) (at 6)) unset) (at 7))
        (typed (at 8) (at 9)) (present (at 10))
        (body (at 11).0
          (item
            (dimmed (at 11) (
              last_dim (decl (last_name (at 12)) (at 13) (at 14))
                (set_to (at 15) (lone (at 16) refl))))
            (present (at 17))
            (item
              (looped (at 18) (at 19) (lone (at 20) refl) (present (at 21)) (
                body (at 22).0
                  (item (received (at 22) (lone (at 23) refl) (present (at 24))) absent no_items)
                  (at_loop (at 25))))
              absent (item (returned (at 26) (lone (at 27) refl)) (present (at 28)) no_items)))
          (at_end (at 29) (at 30))))
      absent no_items

defining_fits : ItemsFit defining (shown (nth 31))
unfolding scanner_code ordinal lone defining stmt_tokens body_tokens items_tokens whole_tokens
    names_tokens decl_tokens init_tokens dims_tokens params_tokens type_tokens tokens_of
    tokens_behind StmtFits BodyFits ItemsFit Stops
defining_fits = (
  (
    refl,
    refl,
    (refl, ((refl, refl, refl), refl, refl), refl),
    (refl, refl),
    refl,
    (
      refl,
      (
        (refl, ((refl, refl, refl), (refl, semicolon-Follows), refl)),
        refl,
        (
          (
            refl,
            refl,
            semicolon-Follows,
            refl,
            (refl, ((refl, semicolon-Follows, refl), refl, tt), refl),
          ),
          refl,
          ((refl, semicolon-Follows), refl, tt),
        ),
      ),
      (refl, refl),
    ),
  ),
  refl,
  tt,
)

defining_shown : Streams (nth 1) (items_tokens defining) (nth 31)
unfolding scanner_code ordinal lone defining stmt_tokens body_tokens items_tokens whole_tokens
    names_tokens decl_tokens init_tokens dims_tokens params_tokens type_tokens tokens_of
    tokens_behind
defining_shown = all_scanned-Streams 30 (nth 1) refl

defining_read :
    Parsed
      (parse (parser_init at_start))
      (parser_init at_start)
      (block_node 1 (items_trees defining))
      (nth 31)
unfolding scanner_code ordinal
defining_read =
    parse-Parsed defining (parser_init at_start) (scanned_to at_start).0 (nth 1) (nth 31) refl
      defining_shown defining_fits refl
