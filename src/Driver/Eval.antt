-- ===== src/Driver/Eval.antt =====
-- `eval` of src/ifj17.c: a source through the scanner, the parser, the printer and the generator.
use ifj.Prelude.{ℕ, List, [], Bytes, Option, if◌then◌else◌, Result, ok, err, bind}
use ifj.Token.{Kind, Token}
use ifj.Ast.{Node}
use ifj.Lexer.State.{Lexer, lexer_init}
use ifj.Lexer.Scan.{tokens}
use ifj.Parser.Monad.{Run, value, null, fault, parser_init}
use ifj.Parser.Scanner.{lexer_source}
use ifj.Parser.Grammar.{parse}
use ifj.Printer.Output.{Chunk, Printer}
use ifj.Printer.Visit.{prettyprint}
use ifj.Codegen.Output.{Piece}
use ifj.Codegen.Visit.{gen}
use ifj.Driver.Args.{Options}
use ifj.Driver.Tokens.{list_tokens}
use ifj.Driver.Errors.{Report, report_error}

-- What `eval` prints, by the way it ends.
pub data Printed : Type 0 where
  printed_tokens : List Chunk → Printed
  reported : Report → Printed
  generated : List Chunk → List Piece → Printed

-- `indents` is zero at the start.
abbrev pub printer_init : Printer
printer_init = record { indents = 0; out = [] }

-- The order of hash tables, the addresses of names, and the token in the scanner's memory before
-- the first is read.
module _ (slots : (A : Type 0) → List (Bytes × A) → List (Bytes × A))
    (address : Bytes → Option Kind) (blank : Token) where
  -- The tree is printed, and code is generated for it.
  unfoldable pub generate : Node → Result (ℕ × Printed)
  generate root =
      bind (prettyprint slots root printer_init)
        λ p. bind (gen address root) λ g. ok (0, generated p.out g.out)

  abbrev pub finish : Run Node → Result (ℕ × Printed)
  finish (value root p) = generate root
  finish (null p) = ok (1, reported (report_error p))
  finish (fault e) = err e

  abbrev pub listed : Result (List (ℕ × Token) × Lexer) → Result (ℕ × Printed)
  listed (ok (ts, l)) = ok (0, printed_tokens (list_tokens ts))
  listed (err e) = err e

  -- `eval`, with its status. The option `ast` is not looked at.
  unfoldable pub eval : Options → Bytes → Bytes → Result (ℕ × Printed)
  eval opts source path =
      let lex = lexer_init blank source path in
      if opts.tokens then listed (tokens lex) else finish (parse (parser_init lex))
