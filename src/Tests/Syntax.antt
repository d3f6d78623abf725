-- ===== src/Tests/Syntax.antt =====
-- An expression of the grammar, read from its source.
use ifj.Prelude.{◌≡◌, List, ◌∷◌, ◌<◌, ℕ, suc, refl, arith, Bool, false, [], codes, ok, err}
use ifj.Token.{of_int, word, illegal, ordinal}
use ifj.Lexer.State.{Lexer, lexer_init}
use ifj.Lexer.Scan.{scan}
use ifj.Lexer.Ends.{measure}
use ifj.Lexer.Code.{scanner_code}
use ifj.Parser.Monad.{parser_init}
use ifj.Parser.Scanner.{lexer_source}
use ifj.Parser.Grammar.{expr}
use ifj.Parser.Syntax.{
  Located, Expr, atom, parens, chain, done, more, tokens_of, tokens_behind, tree_of, Stops,
}
use ifj.Parser.Syntax.Stream.{Streams}
use ifj.Parser.Syntax.Level.{Parsed}
use ifj.Parser.Syntax.Kinds.{Follows}
use ifj.Printer.Visit.{prettyprint}
use ifj.Printer.Balance.{Prints}
use ifj.Driver.Expressions.{expr-Prints}
use ifj.Tests.Driver.{table_order, keeps_table_order}
use ifj.Ast.{Node}
use ifj.Parser.Syntax.Reads.{expr-Parsed}

-- The scanner behind one call.
abbrev pub scanned_to : Lexer → Bool × Lexer
scanned_to l = elim (scan l) [ ok u ↦ u | err e ↦ (false, l) ]

abbrev pub behind : Lexer → Lexer
behind l = (scanned_to l).1

-- `2 * (a - 1);`
abbrev at_two : Lexer
at_two = behind (
    lexer_init (record { kind = illegal; as_string = []; as_double = of_int 0; as_int = word 0 })
      (codes "2 * (a - 1);") [])

abbrev at_star : Lexer
at_star = behind at_two

abbrev at_open : Lexer
at_open = behind at_star

abbrev at_a : Lexer
at_a = behind at_open

abbrev at_minus : Lexer
at_minus = behind at_a

abbrev at_one : Lexer
at_one = behind at_minus

abbrev at_close : Lexer
at_close = behind at_one

abbrev at_semicolon : Lexer
at_semicolon = behind at_close

abbrev pub shown : Lexer → Located
shown l = (l.lineno, l.tok)

abbrev pub up : {n : ℕ} → Expr n → Expr (suc n)
up e = chain e done

unfoldable difference : Expr 10
unfolding scanner_code ordinal
difference = up (
    up (
      up (
        up (
          up (
            up (
              up (
                up (
                  chain (up (atom (shown at_a) refl))
                    (more (shown at_minus) refl (up (atom (shown at_one) refl)) done)))))))))

unfoldable product : Expr 10
unfolding scanner_code ordinal
product = up (
    up (
      up (
        up (
          up (
            up (
              up (
                up (
                  up (
                    chain (atom (shown at_two) refl) (
                      more (shown at_star) refl
                        (parens (shown at_open) (shown at_close) refl refl difference)
                        done))))))))))

-- The scanner shows its token, and then those of the state behind it.
pub shows :
    (l : Lexer) (xs : List Located) (t : Lexer)
    → scan l ≡ ok (scanned_to l)
    → Streams (behind l) xs t
    → Streams l (shown l ∷ xs) t
unfolding Streams
shows l xs t e h = (refl, refl, (scanned_to l, e, h))

-- The tokens from the places on.
abbrev from_close : List Located
from_close = shown at_close ∷ []

abbrev from_one : List Located
from_one = shown at_one ∷ from_close

abbrev from_minus : List Located
from_minus = shown at_minus ∷ from_one

abbrev from_a : List Located
from_a = shown at_a ∷ from_minus

abbrev from_open : List Located
from_open = shown at_open ∷ from_a

abbrev from_star : List Located
from_star = shown at_star ∷ from_open

product_shown : Streams at_two (tokens_of product) at_semicolon
unfolding scanner_code ordinal Streams tokens_of tokens_behind difference product
product_shown = shows at_two from_star at_semicolon refl (
    shows at_star from_open at_semicolon refl (
      shows at_open from_a at_semicolon refl (
        shows at_a from_minus at_semicolon refl (
          shows at_minus from_one at_semicolon refl (
            shows at_one from_close at_semicolon refl
              (shows at_close [] at_semicolon refl refl))))))

product_followed : Follows at_semicolon.tok.kind
unfolding scanner_code ordinal Stops
product_followed = (
  (refl, (refl, (refl, (refl, (refl, (refl, (refl, (refl, (refl, (refl, refl)))))))))),
  refl,
  refl,
  refl,
)

product_left : measure at_two < suc (measure at_two)
product_left = omega arith

expr-Parsed_example :
    Parsed
      (expr (suc (measure at_two)) (parser_init at_two))
      (parser_init at_two)
      (tree_of product)
      at_semicolon
expr-Parsed_example =
    expr-Parsed product (suc (measure at_two)) (parser_init at_two) at_semicolon product_shown
      product_followed product_left

expr-Prints_example :
    (node : Node) × Parsed
      (expr (suc (measure at_two)) (parser_init at_two))
      (parser_init at_two)
      node
      at_semicolon
    × Prints 0 0 (prettyprint table_order node)
expr-Prints_example =
    expr-Prints table_order keeps_table_order product (suc (measure at_two)) (parser_init at_two)
      at_semicolon product_shown product_followed product_left
