-- ===== src/Parser/Ends.antt =====
-- `ifj17_parse` of src/parser.c ends on every input, and where it returns a tree it has read all
-- of it.
use ifj.Prelude.{ℕ, zero, suc, ◌≤◌, ◌<◌, ◌≡◌, true, arith}
use ifj.Token.{eos, semicolon, is_kind}
use ifj.Ast.{Nodes, nil}
use ifj.Parser.Source.{Source}
use ifj.Parser.Monad.{Parser, kind}
use ifj.Parser.Grammar.{expr, block, program_loop, program, parse}
use ifj.Parser.Reads.{
  size, Ensures, returns, after, choose, weaken, Fell, Kept, next-Ensures, accept-Kept,
}
use ifj.Parser.Reads.Levels.{not_expr-Reads}
use ifj.Parser.Reads.Blocks.{stmt-Reads, block_body-Keeps}

module _ ⦃G : Source⦄ where
  -- The current token is the end of the input.
  abbrev pub AtEnd : {A : Type 0} → Parser → A → Parser → Type 0
  AtEnd p a q = (is_kind (kind q) eos ≡ true) × (size q < size p)

  -- An expression, with fuel above what is left to scan: the call returns a tree, and has read at
  -- least a token; or it gives up, and what is left has not grown; or it meets a fault of the
  -- program. The fuel is never used up.
  pub expr-Ends :
      (f : ℕ) (n : ℕ) (p : Parser) → size p ≤ n → size p < f → Ensures n (Fell p) (expr f p)
  unfolding expr
  expr-Ends zero n p h b = absurd (omega arith)
  expr-Ends (suc f) n p h b = not_expr-Reads f (expr f) (expr-Ends f) n p h b

  -- A block, with fuel above what is left to scan: the call returns a tree or gives up, and in
  -- both cases what is left has not grown, or it meets a fault of the program. The fuel is never
  -- used up.
  pub block-Ends :
      (f : ℕ) (n : ℕ) (p : Parser) → size p ≤ n → size p < f → Ensures n (Kept p) (block f p)
  unfolding block
  block-Ends zero n p h b = absurd (omega arith)
  block-Ends (suc f) n p h b =
      block_body-Keeps f (expr (suc f)) (block f) (expr-Ends (suc f)) (block-Ends f) n p h b

  program_loop-Ends :
      (g : ℕ) (f : ℕ) (stmts : Nodes) (n : ℕ) (p : Parser)
      → size p ≤ n
      → size p ≤ g
      → size p < f
      → Ensures n
          (λ _ q. (is_kind (kind q) eos ≡ true) × (size q ≤ size p))
          (program_loop (suc g) f stmts p)
  unfolding program_loop
  program_loop-Ends g zero stmts n p h b c = absurd (omega arith)
  program_loop-Ends g (suc f) stmts n p h b c =
      choose (is_kind (kind p) eos) _ _ p (λ e. returns (e, omega arith))
        λ e.
          after
            (stmt-Reads g (expr (suc g)) (block (suc g)) (expr-Ends (suc g))
              (λ n p h b. block-Ends (suc g) n p h (omega arith)) n p h (omega arith))
            λ node q k. after (accept-Kept n semicolon q (omega arith)) λ _ r l.
              weaken (omega arith) (λ _ s m. (m.0, omega arith))
                (program_loop-Ends g f _ n r (omega arith) (omega arith) (omega arith))

  -- `ifj17_parse` ends on every state of every scanner: it returns a tree only where the current
  -- token is the end of the input, with less left to scan than before; or it returns NULL, with no
  -- more left than before; or it meets a fault of the program. The fuel is never used up.
  pub parse-Ends : (p : Parser) → Ensures (size p) (AtEnd p) (parse p)
  unfolding parse program
  parse-Ends p = after (next-Ensures (size p) p) λ _ q k.
      after
        (program_loop-Ends (size p) (suc (size p)) nil _ q (omega arith) (omega arith)
          (omega arith))
        λ stmts r l. returns (l.0, omega arith)
