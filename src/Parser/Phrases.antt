-- ===== src/Parser/Phrases.antt =====
-- The phrases of src/parser.c that statements are made of, below blocks: expressions with their
-- assignments, the parameters of `print`, and declarations with their values.
use ifj.Prelude.{ℕ, ◌≡◌, Bool, true, false, List, [], ◌∷◌, ◌++◌, ◌||◌}
use ifj.Token.{
  lparen, rparen, Kind, is_kind, is_one_of, op_assign, op_lnot, dim_kw, as_kw, comma, id, lbrack,
  lbrace, semicolon,
}
use ifj.Ast.{
  Node, Nodes, missing, nil, cons, id_node_new, decl_node_new, binary_op_node_new,
  unary_op_node_new,
}
use ifj.Parser.Operators.{compounds}
use ifj.Parser.Syntax.{Located, located_kind, Expr, tokens_of, tree_of, first_line}
use ifj.Parser.Syntax.Kinds.{starts, Follows}

-- An expression, an assignment or a negation.
pub data Whole : Type 0 where
  plain : Expr 10 → Whole
  assigned :
      Expr 10
      → (op : Located) → is_one_of (op_assign ∷ compounds) (located_kind op) ≡ true
      → Whole
      → Whole
  negated : (op : Located) → located_kind op ≡ op_lnot → Whole → Whole

unfoldable pub whole_tokens : Whole → List Located
whole_tokens (plain e) = tokens_of e
whole_tokens (assigned e op h w) = tokens_of e ++ op ∷ whole_tokens w
whole_tokens (negated op h w) = op ∷ whole_tokens w

unfoldable pub whole_tree : Whole → Node
whole_tree (plain e) = tree_of e
whole_tree (assigned e op h w) =
    binary_op_node_new (located_kind op) (tree_of e) (whole_tree w) (first_line e)
whole_tree (negated op h w) = unary_op_node_new op_lnot (whole_tree w) false op.0

-- The parameters of `print`, each with a semicolon.
pub data Prints : Type 0 where
  last_print : Whole → Located → Prints
  more_prints : Whole → Located → Prints → Prints

unfoldable pub prints_tokens : Prints → List Located
prints_tokens (last_print w semi) = whole_tokens w ++ semi ∷ []
prints_tokens (more_prints w semi ps) = whole_tokens w ++ semi ∷ prints_tokens ps

unfoldable pub prints_trees : Prints → Nodes
prints_trees (last_print w semi) = cons (whole_tree w) nil
prints_trees (more_prints w semi ps) = cons (whole_tree w) (prints_trees ps)

-- Names with a comma between two.
pub data Names : Type 0 where
  last_name : Located → Names
  more_names : Located → Located → Names → Names

unfoldable pub names_tokens : Names → List Located
names_tokens (last_name x) = x ∷ []
names_tokens (more_names x z ns) = x ∷ z ∷ names_tokens ns

abbrev pub name_tree : Located → Node
name_tree x = id_node_new x.1.as_string x.0

unfoldable pub names_trees : Names → Nodes
names_trees (last_name x) = cons (name_tree x) nil
names_trees (more_names x z ns) = cons (name_tree x) (names_trees ns)

abbrev pub names_line : Names → ℕ
names_line (last_name x) = x.0
names_line (more_names x z ns) = x.0

-- Names, `as`, and the name of a type.
pub data Decl : Type 0 where
  decl : Names → Located → Located → Decl

unfoldable pub decl_tokens : Decl → List Located
decl_tokens (decl ns x y) = names_tokens ns ++ x ∷ y ∷ []

unfoldable pub decl_tree : Decl → Node
decl_tree (decl ns x y) = decl_node_new (names_trees ns) (name_tree y) (names_line ns)

abbrev pub decl_line : Decl → ℕ
decl_line (decl ns x y) = names_line ns

-- The value of a declaration, which may be left out.
pub data Init : Type 0 where
  unset : Init
  set_to : Located → Whole → Init

unfoldable pub init_tokens : Init → List Located
init_tokens unset = []
init_tokens (set_to x w) = x ∷ whole_tokens w

unfoldable pub init_tree : Init → Node
init_tree unset = missing
init_tree (set_to x w) = whole_tree w

-- Declarations with a comma between two.
pub data Dims : Type 0 where
  last_dim : Decl → Init → Dims
  more_dims : Decl → Init → Located → Dims → Dims

unfoldable pub dims_tokens : Dims → List Located
dims_tokens (last_dim d v) = decl_tokens d ++ init_tokens v
dims_tokens (more_dims d v z ds) = decl_tokens d ++ (init_tokens v ++ z ∷ dims_tokens ds)

abbrev pub dim_tree : Decl → Init → Node
dim_tree d v = binary_op_node_new op_assign (decl_tree d) (init_tree v) (decl_line d)

unfoldable pub dims_trees : Dims → Nodes
dims_trees (last_dim d v) = cons (dim_tree d v) nil
dims_trees (more_dims d v z ds) = cons (dim_tree d v) (dims_trees ds)

abbrev pub dims_line : Dims → ℕ
dims_line (last_dim d v) = decl_line d
dims_line (more_dims d v z ds) = decl_line d

-- A parameter with a value is an assignment of it.
abbrev pub param_tree : Decl → Init → Node
param_tree d unset = decl_tree d
param_tree d (set_to x w) = binary_op_node_new op_assign (decl_tree d) (whole_tree w) (decl_line d)

unfoldable pub param_trees : Dims → Nodes
param_trees (last_dim d v) = cons (param_tree d v) nil
param_trees (more_dims d v z ds) = cons (param_tree d v) (param_trees ds)

-- The parameters of a function, with their parentheses.
pub data Params : Type 0 where
  no_params : Params
  bare_params : Located → Located → Params
  given_params : Located → Dims → Located → Params

unfoldable pub params_tokens : Params → List Located
params_tokens no_params = []
params_tokens (bare_params x y) = x ∷ y ∷ []
params_tokens (given_params x ds y) = x ∷ (dims_tokens ds ++ y ∷ [])

unfoldable pub params_trees : Params → Nodes
params_trees no_params = nil
params_trees (bare_params x y) = nil
params_trees (given_params x ds y) = param_trees ds

-- The type of a function.
pub data TypeOf : Type 0 where
  untyped : TypeOf
  typed : Located → Located → TypeOf

unfoldable pub type_tokens : TypeOf → List Located
type_tokens untyped = []
type_tokens (typed x y) = x ∷ y ∷ []

abbrev pub type_tree : TypeOf → Node
type_tree untyped = missing
type_tree (typed x y) = name_tree y

-- The first of some tokens with another behind them.
abbrev pub first : List Located → Located → Located
first [] next = next
first (x ∷ xs) next = x

abbrev pub Is : Kind → Located → Type 0
Is k x = located_kind x ≡ k

-- The tokens that any expression starts with.
abbrev pub starts_any : Kind → Bool
starts_any k = starts k || is_one_of (op_lnot ∷ dim_kw ∷ lbrack ∷ lbrace ∷ []) k

abbrev pub PrintsFit : Prints → Located → Type 0
PrintsFit (last_print w semi) next = Is semicolon semi × (starts_any (located_kind next) ≡ false)
PrintsFit (more_prints w semi ps) next = Is semicolon semi × PrintsFit ps next

abbrev pub NamesFit : Names → Type 0
NamesFit (last_name x) = Is id x
NamesFit (more_names x y ns) = Is id x × Is comma y × NamesFit ns

abbrev pub DeclFits : Decl → Type 0
DeclFits (decl ns x y) = NamesFit ns × Is as_kw x × Is id y

-- Behind a declaration without a value no `=` may follow, which would start one.
abbrev pub InitFits : Init → Located → Type 0
InitFits unset next = is_kind (located_kind next) op_assign ≡ false
InitFits (set_to x w) next = Is op_assign x × Follows (located_kind next)

abbrev pub DimsFit : Dims → Located → Type 0
DimsFit (last_dim d v) next =
    DeclFits d × InitFits v next × (is_kind (located_kind next) comma ≡ false)
DimsFit (more_dims d v x ds) next = DeclFits d × InitFits v x × Is comma x × DimsFit ds next

abbrev pub ParamsFit : Params → Located → Type 0
ParamsFit no_params next = is_kind (located_kind next) lparen ≡ false
ParamsFit (bare_params x y) next = Is lparen x × Is rparen y
ParamsFit (given_params x ds y) next = Is lparen x × DimsFit ds y × Is rparen y

abbrev pub TypeFits : TypeOf → Located → Type 0
TypeFits untyped next = is_kind (located_kind next) as_kw ≡ false
TypeFits (typed x y) next = Is as_kw x × Is id y
