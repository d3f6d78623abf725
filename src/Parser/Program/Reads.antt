-- ===== src/Parser/Program/Reads.antt =====
-- `ifj17_parse` of src/parser.c reads every program of the grammar.
use ifj.Prelude.{suc, ◌≡◌, refl, sym, subst, arith, Bool, true, ok}
use ifj.Token.{is_kind, eos}
use ifj.Ast.{nil, block_node}
use ifj.Parser.Source.{Source}
use ifj.Parser.Monad.{Parser}
use ifj.Parser.Grammar.{program, parse}
use ifj.Parser.Syntax.Stream.{Streams, next-scan, left-scan}
use ifj.Parser.Syntax.Operand.{behind}
use ifj.Parser.Syntax.Level.{Parsed}
use ifj.Parser.Program.{Items, items_tokens, items_trees, ItemsFit}
use ifj.Parser.Program.Steps.{is_kind_refl, shown}
use ifj.Parser.Program.Sequence.{program_loop-Listed}
use ifj.Parser.Program.Statements.{items-Listed}

module _ ⦃G : Source⦄ where
  open G use {Scanner, scan, tok, line, left}

  -- Every program of the grammar is read: where the first call of the scanner returns and the
  -- tokens of a sequence of statements follow, each in the place that the grammar gives it, up to
  -- the end of the source, `parse` returns the block of the trees of these statements, with the
  -- line before the first token. The scanner is then at the end, and besides it only the context
  -- has changed, so there is no error.
  pub parse-Parsed :
      (ss : Items) (p : Parser) (b : Bool) (s t : Scanner)
      → scan p.lex ≡ ok (b, s)
      → Streams s (items_tokens ss) t
      → ItemsFit ss (shown t)
      → (tok t).kind ≡ eos
      → Parsed (parse p) p (block_node (line p.lex) (items_trees ss)) t
  unfolding parse program
  parse-Parsed ss p b s t n h k e =
      let fuel = suc (left p.lex) in
      let q : Parser = record p { lex = s } in
      let l = left-scan n in
      let r = items-Listed ss fuel fuel q t h k (omega arith) (omega arith) in
      let end = subst (λ j. is_kind j eos ≡ true) (sym e) (is_kind_refl eos) in
      (
        r.0,
        behind _ _ (next-scan {p = p} n)
            (behind _ _ (program_loop-Listed fuel fuel nil r.1 end (omega arith)) refl),
      )
