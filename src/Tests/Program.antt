-- ===== src/Tests/Program.antt =====
-- Programs of the grammar of statements, read from their source.
use ifj.Prelude.{
  some, both_true, Result, ◌≡◌, List, ◌∷◌, ◌++◌, ℕ, zero, suc, refl, Bool, true, ◌&&◌, false, [],
  codes, ok, err,
}
use ifj.Token.{of_int, word, illegal, ordinal, is_one_of}
use ifj.Lexer.State.{Lexer, lexer_init}
use ifj.Lexer.Scan.{scan}
use ifj.Lexer.Code.{scanner_code}
use ifj.Ast.{Node, block_node}
use ifj.Printer.Visit.{prettyprint}
use ifj.Printer.Balance
use ifj.Driver.Programs.{parse-Prints}
use ifj.Driver.Compiles.{eval-generates, program_tree, behind_header}
use ifj.Driver.Args.{options_init}
use ifj.Driver.Eval.{eval, generated, printer_init}
use ifj.Codegen.Visit.{visit}
use ifj.Codegen.State.{Gen}
use ifj.Codegen.Keeps.{loops}
use ifj.Codegen.Output.{lit}
use ifj.Printer.Output.{Chunk}
use ifj.Printer.Balance.{brackets}
use ifj.Tests.Driver.{unknown_address, no_token, table_order, keeps_table_order}
use ifj.Parser.Monad.{parser_init}
use ifj.Parser.Scanner.{lexer_source}
use ifj.Parser.Grammar.{parse}
use ifj.Parser.Syntax.{Located, located_kind, atom, atoms, tokens_of, tokens_behind, Stops}
use ifj.Parser.Syntax.Stream.{Streams}
use ifj.Parser.Syntax.Level.{Parsed}
use ifj.Parser.Program.{
  Whole, plain, last_print, absent, present, at_end, at_else, returned, printed, branched,
  else_block, body, Items, no_items, item, StmtFits, BranchesFit, BodyFits, whole_tokens,
  prints_tokens, stmt_tokens, branches_tokens, body_tokens, items_tokens, items_trees, ItemsFit,
}
use ifj.Parser.Program.Reads.{parse-Parsed}
use ifj.Tests.Syntax.{scanned_to, behind, shown, shows, up}

abbrev at_start : Lexer
at_start =
    lexer_init (record { kind = illegal; as_string = []; as_double = of_int 0; as_int = word 0 })
      (codes "if a then\nreturn 1\nelse\nprint b\nend if") []

abbrev nth : ℕ → Lexer
nth zero = at_start
nth (suc n) = behind (nth n)

abbrev token_at : ℕ → Located
token_at n = shown (nth n)

abbrev is_scanned : Lexer → Bool
is_scanned l = elim (scan l) [ ok u ↦ true | err e ↦ false ]

abbrev after : ℕ → Lexer → Lexer
after zero l = l
after (suc n) l = after n (behind l)

abbrev tokens_from : ℕ → Lexer → List Located
tokens_from zero l = []
tokens_from (suc n) l = shown l ∷ tokens_from n (behind l)

abbrev all_scanned : ℕ → Lexer → Bool
all_scanned zero l = true
all_scanned (suc n) l = is_scanned l && all_scanned n (behind l)

ok_value :
    (l : Lexer) (r : Result (Bool × Lexer))
    → (elim r as (λ _. Bool) [ ok u ↦ true | err e ↦ false ]) ≡ true
    → r ≡ ok (elim r [ ok u ↦ u | err e ↦ (false, l) ])
ok_value l (ok u) h = refl
ok_value l (err e) h = cc

is_scanned_lem : (l : Lexer) → is_scanned l ≡ true → scan l ≡ ok (scanned_to l)
is_scanned_lem l h = ok_value l (scan l) h

-- The scanner shows its tokens one after the other.
pub all_scanned-Streams :
    (n : ℕ) (l : Lexer) → all_scanned n l ≡ true → Streams l (tokens_from n l) (after n l)
unfolding Streams
all_scanned-Streams zero l h = refl
all_scanned-Streams (suc n) l h =
    let a = both_true (is_scanned l) (all_scanned n (behind l)) h in
    shows l (tokens_from n (behind l)) (after n (behind l)) (is_scanned_lem l a.0)
      (all_scanned-Streams n (behind l) a.1)

unfoldable pub lone : (t : Located) → is_one_of atoms (located_kind t) ≡ true → Whole
lone t h = plain (up (up (up (up (up (up (up (up (up (up (atom t h)))))))))))

unfoldable branching : Items
unfolding scanner_code ordinal lone
branching =
    item
      (branched (token_at 1) (lone (token_at 2) refl) (token_at 3)
        (body (token_at 4).0
          (item (returned (token_at 4) (lone (token_at 5) refl)) (present (token_at 6)) no_items)
          at_else)
        (else_block (token_at 7) (
          body (token_at 8).0
            (item (printed (token_at 8) (last_print (lone (token_at 9) refl) (token_at 10))) absent
              no_items)
            (at_end (token_at 11) (token_at 12)))))
      absent no_items

branching_fits : ItemsFit branching (shown (nth 13))
unfolding scanner_code ordinal lone branching StmtFits BranchesFit BodyFits ItemsFit Stops
    stmt_tokens branches_tokens body_tokens items_tokens whole_tokens prints_tokens tokens_of
    tokens_behind
branching_fits = (
  (
    refl,
    refl,
    (
      refl,
      (
        (
          refl,
          (
            (refl, (refl, (refl, (refl, (refl, (refl, (refl, (refl, (refl, (refl, refl)))))))))),
            refl,
            refl,
            refl,
          ),
        ),
        refl,
        tt,
      ),
      refl,
    ),
    (refl, (refl, ((refl, (refl, refl)), refl, tt), (refl, refl))),
  ),
  refl,
  tt,
)

branching_shown : Streams (nth 1) (items_tokens branching) (nth 13)
unfolding scanner_code ordinal lone branching stmt_tokens branches_tokens body_tokens items_tokens
    whole_tokens prints_tokens tokens_of tokens_behind
branching_shown = all_scanned-Streams 12 (nth 1) refl

parse-Parsed_example :
    Parsed
      (parse (parser_init at_start))
      (parser_init at_start)
      (block_node 1 (items_trees branching))
      (nth 13)
unfolding scanner_code ordinal
parse-Parsed_example =
    parse-Parsed branching (parser_init at_start) (scanned_to at_start).0 (nth 1) (nth 13) refl
      branching_shown branching_fits refl

parse-Prints_example :
    (node : Node) × Parsed (parse (parser_init at_start)) (parser_init at_start) node (nth 13)
    × Balance.Prints 0 0 (prettyprint table_order node)
unfolding scanner_code ordinal
parse-Prints_example =
    parse-Prints table_order keeps_table_order branching (parser_init at_start)
      (scanned_to at_start).0 (nth 1) (nth 13) refl branching_shown branching_fits refl

eval-generates_example :
    (out : List Chunk) × ((code : Gen) × (prettyprint table_order
          (program_tree branching)
          printer_init
        ≡ ok (record { indents = 0; out = out }))
      × (brackets 0 out ≡ some 0)
      × (visit unknown_address (program_tree branching) behind_header ≡ ok code)
      × (loops 0 code.out ≡ some code.mem_loop_num)
      × (eval table_order unknown_address no_token options_init
            (codes "if a then\nreturn 1\nelse\nprint b\nend if")
            []
          ≡ ok (0, generated out (code.out ++ lit "\n" ∷ []))))
unfolding scanner_code ordinal
eval-generates_example =
    eval-generates table_order keeps_table_order unknown_address no_token options_init
      (codes "if a then\nreturn 1\nelse\nprint b\nend if") [] branching (scanned_to at_start).0
      (nth 1) (nth 13) (λ name. refl) refl refl branching_shown branching_fits refl
