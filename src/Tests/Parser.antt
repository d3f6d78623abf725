-- ===== src/Tests/Parser.antt =====
-- Runs of the parser on small sources.
use Prim.Native.String.{String}
use ifj.Prelude.{arith, ℕ, Option, none, List, ◌∷◌, some, ◌≡◌, refl, false, [], codes}
use ifj.Token.{Token, of_int, word, illegal, op_plus, op_mul, op_minus, int, eos, Kind}
use ifj.Ast.{Node, nil, cons, missing, block_node, binary_op_node, int_node, id_node}
use ifj.Lexer.State.{lexer_init}
use ifj.Lexer.Code.{scanner_code}
use ifj.Parser.Monad.{Parser, Run, value, null, fault, parser_init}
use ifj.Parser.Scanner.{lexer_source}
use ifj.Parser.Grammar.{expr, parse}
use ifj.Parser.Operators.{multiplicative_expr, binary_level}
use ifj.Parser.Associates.{one_more, no_more, binary_level-Operands}
use ifj.Parser.Code.{parser_code}

abbrev blank : Token
blank = record { kind = illegal; as_string = []; as_double = of_int 0; as_int = word 0 }

abbrev tree : Run Node → Node
tree (value n p) = n
tree (null p) = missing
tree (fault e) = missing

abbrev parsed : String → Node
parsed s = tree (parse (parser_init (lexer_init blank (codes s) [])))

precedence :
    parsed "1 + 2 * a"
    ≡ block_node 1 (
        cons
          (binary_op_node 1 op_plus
            (int_node 1 (word 1))
            (binary_op_node 1 op_mul (int_node 1 (word 2)) (id_node 1 (codes "a")) false)
            false)
          nil)
unfolding scanner_code parser_code
precedence = refl

abbrev additive : List Kind
additive = op_plus ∷ op_minus ∷ []

-- In `1 + 2 - 3`, with `rest` left, at a token whose last number was `n`.
abbrev sum_at : String → Kind → ℕ → Option String → Parser
sum_at rest k n ctx =
    record (parser_init (record (lexer_init blank (codes rest) []) {
      tok = record blank { kind = k; as_int = word n };
    })) { ctx = ctx }

abbrev at_one : Parser
at_one = sum_at " + 2 - 3" int 1 none

abbrev at_plus : Parser
at_plus = sum_at " 2 - 3" op_plus 1 none

abbrev at_minus : Parser
at_minus = sum_at " 3" op_minus 2 (some "additive operation")

-- At the end of that source.
abbrev at_end : Parser
at_end = record at_one {
  ctx = some "additive operation";
  lex = record (lexer_init blank [] []) {
    rest = [];
    tok = record blank { kind = eos; as_int = word 3 };
  };
}

binary_level-Operands_example :
    binary_level 9 additive "additive operation" (multiplicative_expr 9 (expr 9)) at_one
    ≡ value
        (binary_op_node 1 op_minus
          (binary_op_node 1 op_plus (int_node 1 (word 1)) (int_node 1 (word 2)) false)
          (int_node 1 (word 3))
          false)
        at_end
unfolding scanner_code parser_code
binary_level-Operands_example =
    binary_level-Operands additive "additive operation" (multiplicative_expr 9 (expr 9)) 9
      {p = at_one} refl
      (one_more {p = at_plus} refl refl refl
        (one_more {p = at_minus} refl refl refl (no_more {p = at_end} refl)))
      (omega arith)
