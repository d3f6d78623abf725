-- ===== src/Parser/Syntax/Reads.antt =====
-- `expr` of src/parser.c reads every expression of the grammar.
use ifj.Prelude.{ℕ, zero, suc, ◌<◌, arith}
use ifj.Parser.Source.{Source}
use ifj.Parser.Monad.{Parser}
use ifj.Parser.Grammar.{expr}
use ifj.Parser.Syntax.{Expr, tokens_of, tree_of}
use ifj.Parser.Syntax.Stream.{Streams}
use ifj.Parser.Syntax.Kinds.{Follows}
use ifj.Parser.Syntax.Nodes.{starts-Streams}
use ifj.Parser.Syntax.Whole.{not_expr-level}
use ifj.Parser.Syntax.Level.{Parsed, level-Parsed}

module _ ⦃G : Source⦄ where
  open G use {Scanner, tok, left}

  -- Operator expressions are read with the precedence and the grouping of the grammar: where the
  -- scanner shows the tokens of an expression of the grammar, and then a token that goes on none,
  -- `expr`, with fuel above what is left to scan, returns the tree of the expression. The scanner is
  -- then at that token, and only the context has changed besides.
  pub expr-Parsed :
      (e : Expr 10) (fuel : ℕ) (p : Parser) (t : Scanner)
      → Streams p.lex (tokens_of e) t
      → Follows (tok t).kind
      → left p.lex < fuel
      → Parsed (expr fuel p) p (tree_of e) t
  unfolding expr
  expr-Parsed e zero p t s k a = absurd (omega arith)
  expr-Parsed e (suc f) p t s k a =
      let r = level-Parsed e f (suc f) p t s k.0 a a in
      (
        r.0,
        not_expr-level (suc f) (expr f) p (record p { ctx = r.0; lex = t }) (tree_of e)
            (starts-Streams e p.lex t s) r.1 k,
      )
