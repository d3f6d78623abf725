-- ===== src/Driver/Compiles.antt =====
-- A program through the whole compiler.
use ifj.Prelude.{
  ap, ◌∙◌, false, true, [], ◌∷◌, ◌++◌, Option, some, bind, if◌then◌else◌, ◌≡◌, refl, subst, Bool,
  List, Bytes, Result, ok, arith, Leads, gives, faults, IsReal,
}
use ifj.Token.{eos, Kind, Token}
use ifj.Ast.{Node, block_node}
use ifj.Parser.Scanner.{lexer_source}
use ifj.Parser.Monad.{parser_init}
use ifj.Parser.Grammar.{parse}
use ifj.Parser.Syntax.Stream.{Streams}
use ifj.Parser.Program.{Items, items_tokens, items_trees, ItemsFit}
use ifj.Parser.Program.Reads.{parse-Parsed}
use ifj.Parser.Program.Steps.{shown}
use ifj.Printer.Output.{M, Chunk}
use ifj.Printer.Balance.{brackets}
use ifj.Printer.Visit.{prettyprint}
use ifj.Printer.Prints.{prettyprint-Prints}
use ifj.Printer.Brackets.{Every}
use ifj.Lexer.State.{Lexer, lexer_init}
use ifj.Lexer.Scan.{scan, tokens}
use ifj.Codegen.Output.{lit}
use ifj.Codegen.State.{Gen, gen_init, text}
use ifj.Codegen.Visit.{visit, gen}
use ifj.Codegen.Keeps.{loops, Sound}
use ifj.Codegen.Ends.{visit-Leads}
use ifj.Codegen.Succeeds.Statements.{is_harmless}
use ifj.Codegen.Succeeds.Trees.{visit-Succeeds}
use ifj.Driver.Args.{Options}
use ifj.Driver.Programs.{items_trees-ArePrintable}
use ifj.Driver.Eval.{eval, generate, generated, finish, listed, printer_init}

Leads-ok : {A : Type 0} {P : A → Type 0} {r : Result A} (a : A) → Leads IsReal P r → r ≡ ok a → P a
Leads-ok {P = P} a (gives h) e = subst P (ok_value e) h
  where
    ok_value : {A : Type 0} {x y : A} → ok x ≡ ok y → x ≡ y
    ok_value h = cc
Leads-ok a (faults h) e = cc

-- The tree of a program: the block of its statements, from line 1.
abbrev pub program_tree : Items → Node
program_tree ss = block_node 1 (items_trees ss)

-- The generator behind the first two lines of its output.
abbrev pub behind_header : Gen
behind_header = record gen_init { out = lit ".IFJcode17\n" ∷ lit "JUMP Scope\n" ∷ [] }

behind_header-Sound : Sound behind_header
unfolding loops
behind_header-Sound = record { numbers = refl; due = omega arith; labels = omega arith }

module _ (slots : (A : Type 0) → List (Bytes × A) → List (Bytes × A))
    (slots_keep : (P : Bytes × M → Type 0) (entries : List (Bytes × M))
      → Every P entries
      → Every P (slots M entries)) where
  -- The compiler translates every program of the grammar. Where the first call of the scanner
  -- returns and the tokens of the program follow, up to the end of the source, the option `tokens`
  -- is not set, and the address of no name reads as an operator that visits operands: the printer
  -- prints the tree of the program, in a text where the brackets of the format strings are all
  -- closed; the visit of the tree, behind the header of the code, succeeds, and numbers the loop
  -- labels in order, with every jump to a loop going back to a label that is there; and the
  -- compiler returns zero with this text and this code, a line break behind it.
  pub eval-generates :
      (address : Bytes → Option Kind) (blank : Token) (opts : Options) (source path : Bytes)
      (ss : Items) (b : Bool) (s t : Lexer)
      → ((name : Bytes) → is_harmless (address name) ≡ true)
      → opts.tokens ≡ false
      → scan (lexer_init blank source path) ≡ ok (b, s)
      → Streams s (items_tokens ss) t
      → ItemsFit ss (shown t)
      → t.tok.kind ≡ eos
      → (out : List Chunk) × ((code : Gen) × (prettyprint slots (program_tree ss) printer_init
            ≡ ok (record { indents = 0; out = out }))
          × (brackets 0 out ≡ some 0)
          × (visit address (program_tree ss) behind_header ≡ ok code)
          × (loops 0 code.out ≡ some code.mem_loop_num)
          × (eval slots address blank opts source path
              ≡ ok (0, generated out (code.out ++ lit "\n" ∷ []))))
  unfolding eval generate gen lexer_init
  eval-generates address blank opts source path ss b s t safe o n h k e =
      let lex = lexer_init blank source path in
      let tree = program_tree ss in
      let good = items_trees-ArePrintable ss in
      let r = parse-Parsed ss (parser_init lex) b s t n h k e in
      let printed = prettyprint-Prints slots slots_keep tree good in
      let (code, made) = (visit-Succeeds address safe tree good).succeeds behind_header in
      let moves = Leads-ok code (visit-Leads address tree behind_header behind_header-Sound) made in
      (
        printed.written 0,
        (
          code,
          printed.runs printer_init,
          printed.counts 0 0,
          made,
          moves.sound.numbers,
          ap
                (λ x.
                  if x
                  then listed slots address blank (tokens lex)
                  else finish slots address blank (parse (parser_init lex)))
                o
              ∙ ap (finish slots address blank) r.1
              ∙ ap (λ x. bind x (λ p. bind (gen address tree) λ g. ok (0, generated p.out g.out)))
                  (printed.runs printer_init)
              ∙ ap (λ x. bind (bind x (text "\n")) λ g. ok (0, generated (printed.written 0) g.out))
                  made,
        ),
      )
