-- ===== src/Driver/Programs.antt =====
-- A program through the parser and the printer.
use ifj.Prelude.{ℕ, ◌≡◌, Bool, true, List, Bytes, ok}
use ifj.Token.{eos}
use ifj.Ast.{Node, is_node, block_node}
use ifj.Parser.Source.{Source}
use ifj.Parser.Monad.{Parser}
use ifj.Parser.Grammar.{parse}
use ifj.Parser.Syntax.Stream.{Streams}
use ifj.Parser.Syntax.Level.{Parsed}
use ifj.Parser.Program.{
  defined, Params, no_params, bare_params, given_params, params_trees, param_tree, param_trees,
  TypeOf, untyped, typed, type_tree, Names, last_name, more_names, names_trees, Decl, decl,
  decl_tree, Init, unset, set_to, init_tree, Dims, last_dim, more_dims, dims_trees, Whole, plain,
  assigned, negated, whole_tree, Prints, last_print, more_prints, prints_trees, Stmt, expression,
  returned, returned_bare, printed, received, dimmed, looped, scoped, branched, Branches, no_else,
  else_block, else_if, Body, body, Items, no_items, item, stmt_tree, else_tree, else_if_trees,
  body_tree, items_tokens, items_trees, ItemsFit,
}
use ifj.Parser.Program.Steps.{shown}
use ifj.Parser.Program.Reads.{parse-Parsed}
use ifj.Printer.Output.{M}
use ifj.Printer.Visit.{prettyprint}
use ifj.Printer.Balance
use ifj.Printer.Balance.{brackets}
use ifj.Printer.Printable.{IsPrintable, ArePrintable, AreDims, AreElseIfs}
use ifj.Printer.Brackets.{Every}
use ifj.Printer.Prints.{prettyprint-Prints}
use ifj.Driver.Expressions.{tree_of-IsPrintable}

whole_tree-IsPrintable : (w : Whole) → IsPrintable (whole_tree w)
unfolding whole_tree IsPrintable
whole_tree-IsPrintable (plain e) = tree_of-IsPrintable e
whole_tree-IsPrintable (assigned e op h w) = (tree_of-IsPrintable e, whole_tree-IsPrintable w)
whole_tree-IsPrintable (negated op h w) = whole_tree-IsPrintable w

prints_trees-ArePrintable : (ps : Prints) → ArePrintable (prints_trees ps)
unfolding prints_trees ArePrintable
prints_trees-ArePrintable (last_print w semi) = (whole_tree-IsPrintable w, tt)
prints_trees-ArePrintable (more_prints w semi ps) =
    (whole_tree-IsPrintable w, prints_trees-ArePrintable ps)

names_trees-ArePrintable : (ns : Names) → ArePrintable (names_trees ns)
unfolding names_trees ArePrintable
names_trees-ArePrintable (last_name x) = (tt, tt)
names_trees-ArePrintable (more_names x y ns) = (tt, names_trees-ArePrintable ns)

decl_tree-IsPrintable : (d : Decl) → IsPrintable (decl_tree d)
unfolding decl_tree IsPrintable
decl_tree-IsPrintable (decl ns x y) = (names_trees-ArePrintable ns, λ h. tt)

init_tree-IsPrintable : (v : Init) → is_node (init_tree v) ≡ true → IsPrintable (init_tree v)
unfolding init_tree
init_tree-IsPrintable unset h = cc
init_tree-IsPrintable (set_to x w) h = whole_tree-IsPrintable w

dims_trees-AreDims : (ds : Dims) → AreDims (dims_trees ds)
unfolding dims_trees AreDims
dims_trees-AreDims (last_dim d v) = (decl_tree-IsPrintable d, init_tree-IsPrintable v, tt)
dims_trees-AreDims (more_dims d v z ds) =
    (decl_tree-IsPrintable d, init_tree-IsPrintable v, dims_trees-AreDims ds)

param_tree-IsPrintable : (d : Decl) (v : Init) → IsPrintable (param_tree d v)
unfolding IsPrintable
param_tree-IsPrintable d unset = decl_tree-IsPrintable d
param_tree-IsPrintable d (set_to x w) = (decl_tree-IsPrintable d, whole_tree-IsPrintable w)

param_trees-ArePrintable : (ds : Dims) → ArePrintable (param_trees ds)
unfolding param_trees
param_trees-ArePrintable (last_dim d v) = (param_tree-IsPrintable d v, tt)
param_trees-ArePrintable (more_dims d v z ds) =
    (param_tree-IsPrintable d v, param_trees-ArePrintable ds)

params_trees-ArePrintable : (ps : Params) → ArePrintable (params_trees ps)
unfolding params_trees
params_trees-ArePrintable no_params = tt
params_trees-ArePrintable (bare_params x y) = tt
params_trees-ArePrintable (given_params x ds y) = param_trees-ArePrintable ds

type_tree-IsPrintable : (ty : TypeOf) → is_node (type_tree ty) ≡ true → IsPrintable (type_tree ty)
type_tree-IsPrintable untyped h = cc
type_tree-IsPrintable (typed x y) h = tt

mutual
  unfolding stmt_tree else_tree else_if_trees body_tree items_trees IsPrintable

  stmt_tree-IsPrintable : (s : Stmt) → IsPrintable (stmt_tree s)
  stmt_tree-IsPrintable (expression w) = whole_tree-IsPrintable w
  stmt_tree-IsPrintable (returned x w) = λ h. whole_tree-IsPrintable w
  stmt_tree-IsPrintable (returned_bare x y) = λ h. cc
  stmt_tree-IsPrintable (printed x ps) = prints_trees-ArePrintable ps
  stmt_tree-IsPrintable (received x w semi) = whole_tree-IsPrintable w
  stmt_tree-IsPrintable (dimmed x ds) = dims_trees-AreDims ds
  stmt_tree-IsPrintable (defined x y ps ty semi b) =
      (type_tree-IsPrintable ty, params_trees-ArePrintable ps, body_tree-IsPrintable b)
  stmt_tree-IsPrintable (looped x y w semi b) = (whole_tree-IsPrintable w, body_tree-IsPrintable b)
  stmt_tree-IsPrintable (scoped x (body l ss e)) = items_trees-ArePrintable ss
  stmt_tree-IsPrintable (branched x w y b bs) = (
    whole_tree-IsPrintable w,
    body_tree-IsPrintable b,
    else_if_trees-AreElseIfs x.0 bs,
    else_tree-IsPrintable bs,
  )

  else_tree-IsPrintable :
      (bs : Branches) → is_node (else_tree bs) ≡ true → IsPrintable (else_tree bs)
  else_tree-IsPrintable no_else h = cc
  else_tree-IsPrintable (else_block x b) h = body_tree-IsPrintable b
  else_tree-IsPrintable (else_if x w y b bs) h = else_tree-IsPrintable bs h

  else_if_trees-AreElseIfs : (line : ℕ) (bs : Branches) → AreElseIfs (else_if_trees line bs)
  else_if_trees-AreElseIfs line no_else = tt
  else_if_trees-AreElseIfs line (else_block x b) = tt
  else_if_trees-AreElseIfs line (else_if x w y b bs) =
      (whole_tree-IsPrintable w, body_tree-IsPrintable b, else_if_trees-AreElseIfs line bs)

  body_tree-IsPrintable : (b : Body) → IsPrintable (body_tree b)
  body_tree-IsPrintable (body line ss e) = items_trees-ArePrintable ss

  pub items_trees-ArePrintable : (ss : Items) → ArePrintable (items_trees ss)
  items_trees-ArePrintable no_items = tt
  items_trees-ArePrintable (item s semi ss) = (stmt_tree-IsPrintable s, items_trees-ArePrintable ss)

module _ (slots : (A : Type 0) → List (Bytes × A) → List (Bytes × A))
    (slots_keep : (P : Bytes × M → Type 0) (entries : List (Bytes × M))
      → Every P entries
      → Every P (slots M entries)) where
  -- Every program of the grammar is parsed to a tree that the printer prints: where the first call
  -- of the scanner returns and the tokens of the program follow, up to the end of the source, the
  -- parser returns a tree, and this is printed in brackets that are all closed, with the
  -- indentation as it was.
  pub parse-Prints :
      ⦃G : Source⦄ (ss : Items) (p : Parser) (b : Bool) (s t : G.Scanner)
      → G.scan p.lex ≡ ok (b, s)
      → Streams s (items_tokens ss) t
      → ItemsFit ss (shown t)
      → (G.tok t).kind ≡ eos
      → (node : Node) × Parsed (parse p) p node t × Balance.Prints 0 0 (prettyprint slots node)
  parse-Prints ⦃G = G⦄ ss p b s t n h k e =
      let tree = block_node (G.line p.lex) (items_trees ss) in
      (
        tree,
        parse-Parsed ss p b s t n h k e,
        prettyprint-Prints slots slots_keep tree (items_trees-ArePrintable ss),
      )
