-- ===== src/Driver/Ends.antt =====
-- `eval` of src/ifj17.c ends on every source.
use ifj.Prelude.{
  ℕ, Bool, true, false, List, Bytes, Option, Result, ok, err, IsReal, Ends, Leads, gives, faults,
  bind-Leads, refl, ◌≡◌, if◌then◌else◌,
}
use ifj.Token.{Kind, Token}
use ifj.Ast.{Node}
use ifj.Lexer.State.{Lexer, lexer_init}
use ifj.Lexer.Scan.{tokens}
use ifj.Lexer.Ends.{tokens-Ends}
use ifj.Parser.Monad.{Parser, Run, value, null, fault, parser_init}
use ifj.Parser.Scanner.{lexer_source}
use ifj.Parser.Grammar.{parse}
use ifj.Parser.Reads.{Ensures, faults}
use ifj.Parser.Ends.{parse-Ends}
use ifj.Printer.Output.{M}
use ifj.Printer.Brackets.{Every}
use ifj.Printer.Ends.{prettyprint-Ends}
use ifj.Codegen.Ends.{gen-Leads}
use ifj.Codegen.Visit.{gen}
use ifj.Printer.Visit.{prettyprint}
use ifj.Driver.Args.{Options}
use ifj.Driver.Eval.{
  Printed, printed_tokens, reported, generated, printer_init, generate, finish, listed, eval,
}

-- How a run ends, by the option `tokens`: with it the tokens are printed, with status zero;
-- without it an error is reported, with status one, or the tree and the code are printed, with
-- status zero.
abbrev pub HasStatus : Bool → ℕ × Printed → Type 0
HasStatus true (status, printed_tokens ts) = status ≡ 0
HasStatus false (status, reported r) = status ≡ 1
HasStatus false (status, generated tree code) = status ≡ 0
HasStatus _ _ = ⊥

module _ (slots : (A : Type 0) → List (Bytes × A) → List (Bytes × A))
    (address : Bytes → Option Kind) (blank : Token)
    (slots_keep : (P : Bytes × M → Type 0) (entries : List (Bytes × M))
      → Every P entries
      → Every P (slots M entries)) where
  generate-Leads :
      (root : Node) → Leads IsReal (HasStatus false) (generate slots address blank root)
  unfolding generate
  generate-Leads root =
      bind-Leads (prettyprint slots root printer_init) _
        (prettyprint-Ends slots slots_keep root printer_init)
        λ p _. bind-Leads (gen address root) _ (gen-Leads address root) λ g _. gives refl

  finish-Leads :
      {n : ℕ} {P : Node → Parser → Type 0} (r : Run Node)
      → Ensures n P r
      → Leads IsReal (HasStatus false) (finish slots address blank r)
  finish-Leads (value root p) h = generate-Leads root
  finish-Leads (null p) h = gives refl
  finish-Leads (fault e) (faults h) = faults h

  listed-Leads :
      (r : Result (List (ℕ × Token) × Lexer))
      → Ends r
      → Leads IsReal (HasStatus true) (listed slots address blank r)
  listed-Leads (ok (ts, l)) h = gives refl
  listed-Leads (err e) h = faults h

  -- The compiler ends on every source, with every option. With the option `tokens` it prints the
  -- tokens and returns zero, also where the scanner has met a lexical error. Without it, it reports
  -- an error and returns one, for a lexical error as for a syntactic one, or it prints the tree and
  -- the code and returns zero. Or it meets a fault of the program.
  pub eval-Leads :
      (opts : Options) (source path : Bytes)
      → Leads IsReal (HasStatus opts.tokens) (eval slots address blank opts source path)
  unfolding eval
  eval-Leads opts source path = by_option opts.tokens
    where
      by_option :
          (b : Bool)
          → Leads IsReal (HasStatus b) (
              if b
              then listed slots address blank (tokens (lexer_init blank source path))
              else finish slots address blank (parse (parser_init (lexer_init blank source path))))
      by_option true = listed-Leads _ (tokens-Ends (lexer_init blank source path))
      by_option false = finish-Leads _ (parse-Ends (parser_init (lexer_init blank source path)))
