-- ===== src/Parser/Grammar.antt =====
-- The recursion of src/parser.c: `expr`, `block`, `program` and `ifj17_parse`. A nested call of
-- `expr` or `block` costs a unit of fuel.
use ifj.Prelude.{ℕ, zero, suc, true, false}
use ifj.Token.{eos, semicolon, is_kind}
use ifj.Ast.{Node, Nodes, nil, push, block_node}
use ifj.Parser.Source.{Source}
use ifj.Parser.Monad.{M, ◌>>=◌, ◌>>◌, pure, token, lineno, next, accept}
use ifj.Parser.Expr.{stuck}
use ifj.Parser.Operators.{not_expr}
use ifj.Parser.Block.{stmt, block_body}

module _ ⦃G : Source⦄ where
  open G use {left}

  -- `expr`
  unfoldable pub expr : ℕ → M Node
  expr zero p = stuck p
  expr (suc f) p = not_expr (suc f) (expr f) p

  -- `block`
  unfoldable pub block : ℕ → M Node
  block zero p = stuck p
  block (suc f) p = block_body (suc f) (expr (suc f)) (block f) p

  -- The loop of `program`.
  unfoldable pub program_loop : ℕ → ℕ → Nodes → M Nodes
  program_loop fuel zero stmts = stuck
  program_loop fuel (suc f) stmts = do
    t ← token
    elim (is_kind t.kind eos) [
      | true ↦ pure stmts
      | false ↦ do
        node ← stmt fuel (expr fuel) (block fuel)
        accept semicolon
        program_loop fuel f (push stmts node)
    ]

  -- `program`
  unfoldable pub program : ℕ → M Node
  program fuel = do
    line ← lineno
    next
    stmts ← program_loop fuel fuel nil
    pure (block_node line stmts)

  -- `ifj17_parse`: the measure of what is left to scan bounds every loop and every nesting.
  unfoldable pub parse : M Node
  parse p = program (suc (left p.lex)) p
