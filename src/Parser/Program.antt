-- ===== src/Parser/Program.antt =====
-- The grammar of statements that src/parser.c reads, with the tokens and the tree of each
-- statement, and what must follow it.
--
-- Blocks end as they do in the code: at `loop`, at `end` with any of three words, or in front of
-- `else` and `elseif`.
pub mod Steps
pub mod Wholes
pub mod Silent
pub mod Closing
pub mod Sequence
pub mod Simple
pub mod Declarations
pub mod Dimensions
pub mod Functions
pub mod Compound
pub mod Definitions
pub mod Parts
pub mod Elses
pub mod Statements
pub mod Reads
unfoldable pub use ifj.Parser.Phrases.{
  param_trees, params_tokens, params_trees, type_tokens, whole_tokens, whole_tree, prints_tokens,
  prints_trees, names_tokens, names_trees, decl_tokens, decl_tree, init_tokens, init_tree,
  dims_tokens, dims_trees,
}
pub use ifj.Parser.Phrases.{
  param_tree, Params, no_params, bare_params, given_params, TypeOf, untyped, typed, type_tree,
  ParamsFit, TypeFits, Whole, plain, negated, Prints, last_print, more_prints, Names, last_name,
  more_names, Decl, decl, Init, unset, set_to, Dims, last_dim, more_dims, assigned, name_tree,
  names_line, decl_line, dim_tree, dims_line, first, Is, starts_any, PrintsFit, NamesFit, DeclFits,
  InitFits, DimsFit,
}
use Prim.Native.String.{String}
use ifj.Prelude.{ℕ, ◌≡◌, Bool, true, false, List, [], ◌∷◌, ◌++◌, ◌||◌}
use ifj.Token.{
  id, input_kw, Token, Kind, is_kind, is_one_of, op_assign, op_lnot, dim_kw, lbrack, lbrace,
  semicolon, return_kw, print_kw, do_kw, while_kw, scope_kw, if_kw, then_kw, else_kw, elseif_kw,
  loop_kw, end_kw, function_kw,
}
use ifj.Ast.{
  function_node_new, input_node_new, dim_node_new, Node, Nodes, missing, nil, cons,
  binary_op_node_new, unary_op_node_new, return_node_new, print_node_new, while_node_new,
  scope_node_new, if_node, block_node,
}
use ifj.Parser.Operators.{compounds}
use ifj.Parser.Syntax.{Located, located_kind, Expr, tokens_of, tree_of, first_line}
use ifj.Parser.Syntax.Kinds.{starts, Follows}

-- A semicolon that may be left out.
pub data Semi : Type 0 where
  absent : Semi
  present : Located → Semi

abbrev pub semi_tokens : Semi → List Located
semi_tokens absent = []
semi_tokens (present x) = x ∷ []

-- How a block ends.
pub data Ending : Type 0 where
  at_loop : Located → Ending
  at_end : Located → Located → Ending
  at_else : Ending

abbrev pub ending_tokens : Ending → List Located
ending_tokens (at_loop x) = x ∷ []
ending_tokens (at_end x y) = x ∷ y ∷ []
ending_tokens at_else = []

mutual
  pub data Stmt : Type 0 where
    expression : Whole → Stmt
    returned : Located → Whole → Stmt
    returned_bare : Located → Located → Stmt
    printed : Located → Prints → Stmt
    received : Located → Whole → Semi → Stmt
    dimmed : Located → Dims → Stmt
    defined : Located → Located → Params → TypeOf → Semi → Body → Stmt
    looped : Located → Located → Whole → Semi → Body → Stmt
    scoped : Located → Body → Stmt
    branched : Located → Whole → Located → Body → Branches → Stmt

  -- The else-ifs and the else block of an `if`.
  pub data Branches : Type 0 where
    no_else : Branches
    else_block : Located → Body → Branches
    else_if : Located → Whole → Located → Body → Branches → Branches

  -- A block, with the line of its first token.
  pub data Body : Type 0 where
    body : ℕ → Items → Ending → Body

  pub data Items : Type 0 where
    no_items : Items
    item : Stmt → Semi → Items → Items

unfoldable mutual
  pub stmt_tokens : Stmt → List Located
  stmt_tokens (expression w) = whole_tokens w
  stmt_tokens (returned x w) = x ∷ whole_tokens w
  stmt_tokens (returned_bare x y) = x ∷ y ∷ []
  stmt_tokens (printed x ps) = x ∷ prints_tokens ps
  stmt_tokens (received x w semi) = x ∷ (whole_tokens w ++ semi_tokens semi)
  stmt_tokens (dimmed x ds) = x ∷ dims_tokens ds
  stmt_tokens (defined x y ps ty semi b) =
      x ∷ y ∷ (params_tokens ps ++ (type_tokens ty ++ (semi_tokens semi ++ body_tokens b)))
  stmt_tokens (looped x y w semi b) =
      x ∷ y ∷ (whole_tokens w ++ (semi_tokens semi ++ body_tokens b))
  stmt_tokens (scoped x b) = x ∷ body_tokens b
  stmt_tokens (branched x w y b bs) =
      x ∷ (whole_tokens w ++ y ∷ (body_tokens b ++ branches_tokens bs))

  pub branches_tokens : Branches → List Located
  branches_tokens no_else = []
  branches_tokens (else_block x b) = x ∷ body_tokens b
  branches_tokens (else_if x w y b bs) =
      x ∷ (whole_tokens w ++ y ∷ (body_tokens b ++ branches_tokens bs))

  pub body_tokens : Body → List Located
  body_tokens (body line ss e) = items_tokens ss ++ ending_tokens e

  pub items_tokens : Items → List Located
  items_tokens no_items = []
  items_tokens (item s semi ss) = stmt_tokens s ++ (semi_tokens semi ++ items_tokens ss)

unfoldable mutual
  pub stmt_tree : Stmt → Node
  stmt_tree (expression w) = whole_tree w
  stmt_tree (returned x w) = return_node_new (whole_tree w) x.0
  stmt_tree (returned_bare x y) = return_node_new missing x.0
  stmt_tree (printed x ps) = print_node_new (prints_trees ps) x.0
  stmt_tree (received x w semi) = input_node_new (whole_tree w) x.0
  stmt_tree (dimmed x ds) = dim_node_new (dims_trees ds) (dims_line ds)
  stmt_tree (defined x y ps ty semi b) =
      function_node_new y.1.as_string (type_tree ty) (body_tree b) (params_trees ps) x.0
  stmt_tree (looped x y w semi b) = while_node_new (whole_tree w) (body_tree b) x.0
  stmt_tree (scoped x b) = scope_node_new (body_tree b) x.0
  stmt_tree (branched x w y b bs) =
      if_node x.0 (whole_tree w) (body_tree b) (else_tree bs) (else_if_trees x.0 bs)

  -- The else block; `missing` if there is none.
  pub else_tree : Branches → Node
  else_tree no_else = missing
  else_tree (else_block x b) = body_tree b
  else_tree (else_if x w y b bs) = else_tree bs

  -- Every else-if has the line of the `if`.
  pub else_if_trees : ℕ → Branches → Nodes
  else_if_trees line no_else = nil
  else_if_trees line (else_block x b) = nil
  else_if_trees line (else_if x w y b bs) =
      cons (if_node line (whole_tree w) (body_tree b) missing nil) (else_if_trees line bs)

  pub body_tree : Body → Node
  body_tree (body line ss e) = block_node line (items_trees ss)

  pub items_trees : Items → Nodes
  items_trees no_items = nil
  items_trees (item s semi ss) = cons (stmt_tree s) (items_trees ss)

abbrev pub SemiFits : Semi → Located → Type 0
SemiFits absent next = is_kind (located_kind next) semicolon ≡ false
SemiFits (present x) next = Is semicolon x

abbrev pub EndingFits : Ending → Located → Type 0
EndingFits (at_loop x) next = Is loop_kw x
EndingFits (at_end x y) next =
    Is end_kw x × (is_one_of (function_kw ∷ scope_kw ∷ if_kw ∷ []) (located_kind y) ≡ true)
EndingFits at_else next = is_one_of (else_kw ∷ elseif_kw ∷ []) (located_kind next) ≡ true

-- The keywords are where they belong, and each part is followed by a token that does not go on
-- it. Behind the parameters of `print` no expression may follow, which would be one more; behind
-- an `if` that is closed no `else`, which would be its own.
unfoldable mutual
  pub StmtFits : Stmt → Located → Type 0
  StmtFits (expression w) next = Follows (located_kind next)
  StmtFits (returned x w) next = Is return_kw x × Follows (located_kind next)
  StmtFits (returned_bare x y) next = Is return_kw x × Is semicolon y
  StmtFits (printed x ps) next = Is print_kw x × PrintsFit ps next
  StmtFits (received x w semi) next =
      Is input_kw x × Follows (located_kind (first (semi_tokens semi) next)) × SemiFits semi next
  StmtFits (dimmed x ds) next = Is dim_kw x × DimsFit ds next
  StmtFits (defined x y ps ty semi b) next =
      Is function_kw x
      × Is id y
      × ParamsFit ps (first (type_tokens ty ++ (semi_tokens semi ++ body_tokens b)) next)
      × TypeFits ty (first (semi_tokens semi ++ body_tokens b) next)
      × SemiFits semi (first (body_tokens b) next)
      × BodyFits b next
  StmtFits (looped x y w semi b) next =
      Is do_kw x
      × Is while_kw y
      × Follows (located_kind (first (semi_tokens semi ++ body_tokens b) next))
      × SemiFits semi (first (body_tokens b) next)
      × BodyFits b next
  StmtFits (scoped x b) next = Is scope_kw x × BodyFits b next
  StmtFits (branched x w y b bs) next =
      Is if_kw x × Is then_kw y × BodyFits b (first (branches_tokens bs) next) × BranchesFit bs next

  pub BranchesFit : Branches → Located → Type 0
  BranchesFit no_else next = is_one_of (else_kw ∷ elseif_kw ∷ []) (located_kind next) ≡ false
  BranchesFit (else_block x b) next = Is else_kw x × BodyFits b next
  BranchesFit (else_if x w y b bs) next =
      Is elseif_kw x
      × Is then_kw y
      × BodyFits b (first (branches_tokens bs) next)
      × BranchesFit bs next

  pub BodyFits : Body → Located → Type 0
  BodyFits (body line ss e) next =
      (line ≡ (first (items_tokens ss ++ ending_tokens e) next).0)
      × ItemsFit ss (first (ending_tokens e) next)
      × EndingFits e next

  pub ItemsFit : Items → Located → Type 0
  ItemsFit no_items next = Unit
  ItemsFit (item s semi ss) next =
      StmtFits s (first (semi_tokens semi ++ items_tokens ss) next)
      × SemiFits semi (first (items_tokens ss) next)
      × ItemsFit ss next
