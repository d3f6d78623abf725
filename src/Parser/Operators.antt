-- ===== src/Parser/Operators.antt =====
-- The operator expressions of src/parser.c, from `pow_expr` to `not_expr`.
use Prim.Native.String.{String}
use ifj.Prelude.{ℕ, zero, suc, true, false, List, [], ◌∷◌, codes, if◌then◌else◌}
use ifj.Token.{
  Kind, op_pow, op_incr, op_decr, op_bit_not, op_plus, op_minus, op_not, op_mul, op_div, op_mod,
  op_bit_shl, op_bit_shr, op_lt, op_lte, op_gt, op_gte, op_eq, op_neq, op_bit_and, op_bit_xor,
  op_bit_or, op_and, op_or, op_fork, op_assign, op_plus_assign, op_minus_assign, op_div_assign,
  op_mul_assign, op_or_assign, op_and_assign, op_lnot, dim_kw, comma,
}
use ifj.Ast.{
  Node, Nodes, missing, nil, cons, push, is_node, args_node, call_node, id_node_new, no_pairs,
  unary_op_node_new, binary_op_node_new, dim_node_new,
}
use ifj.Parser.Source.{Source}
use ifj.Parser.Monad.{
  M, ◌>>=◌, ◌>>◌, pure, token, lineno, is_one_of, next, accept, context, ensure, or_error, nullable,
}
use ifj.Parser.Expr.{stuck, decl_expr, call_expr}

abbrev pub prefixes : List Kind
prefixes = op_incr ∷ op_decr ∷ op_bit_not ∷ op_plus ∷ op_minus ∷ op_not ∷ []

abbrev pub compounds : List Kind
compounds =
    op_plus_assign ∷ op_minus_assign ∷ op_div_assign ∷ op_mul_assign ∷ op_or_assign ∷ op_and_assign
    ∷ []

module _ ⦃G : Source⦄ where
  -- The loop of a level of binary operators: while the token is one of `ops`, an operand of the
  -- next level is read and the tree grows to the left.
  unfoldable pub binary_loop : List Kind → String → M Node → ℕ → ℕ → Node → M Node
  binary_loop ops ctx operand line zero node = stuck
  binary_loop ops ctx operand line (suc f) node = do
    t ← token
    elim (is_one_of ops t.kind) [
      | true ↦ do
        next
        context ctx
        right ← or_error operand "missing right-hand expression"
        binary_loop ops ctx operand line f (binary_op_node_new t.kind node right line)
      | false ↦ pure node
    ]

  -- One level of binary operators. The levels that loop on `accept` have one operator.
  unfoldable pub binary_level : ℕ → List Kind → String → M Node → M Node
  binary_level fuel ops ctx operand = do
    line ← lineno
    node ← operand
    binary_loop ops ctx operand line fuel node

module _ ⦃G : Source⦄ (fuel : ℕ) (expr : M Node) where
  -- `call_expr(self, NULL)`
  abbrev pub operand : M Node
  operand = call_expr fuel expr fuel missing

  -- `pow_expr`
  unfoldable pub pow_expr : M Node
  pow_expr = do
    line ← lineno
    node ← operand
    power ← accept op_pow
    elim power [
      | true ↦ do
        context "** operation"
        right ← or_error operand "missing right-hand expression"
        pure (binary_op_node_new op_pow node right line)
      | false ↦ pure node
    ]

  -- `postfix_expr`
  unfoldable pub postfix_expr : M Node
  postfix_expr = do
    line ← lineno
    node ← pow_expr
    t ← token
    elim (is_one_of (op_incr ∷ op_decr ∷ []) t.kind) [
      | true ↦ do next; pure (unary_op_node_new t.kind node true line)
      | false ↦ pure node
    ]

  -- `unary_expr`; an operand that is NULL is stored.
  unfoldable pub unary_expr : ℕ → M Node
  unary_expr zero = stuck
  unary_expr (suc f) = do
    line ← lineno
    t ← token
    elim (is_one_of prefixes t.kind) [
      | true ↦ do
        next
        node ← nullable (unary_expr f)
        pure (unary_op_node_new t.kind node false line)
      | false ↦ postfix_expr
    ]

  -- `multiplicative_expr`
  unfoldable pub multiplicative_expr : M Node
  multiplicative_expr =
      binary_level fuel (op_mul ∷ op_div ∷ op_mod ∷ []) "multiplicative operation" (unary_expr fuel)

  -- `additive_expr`
  unfoldable pub additive_expr : M Node
  additive_expr =
      binary_level fuel (op_plus ∷ op_minus ∷ []) "additive operation" multiplicative_expr

  -- `shift_expr`
  unfoldable pub shift_expr : M Node
  shift_expr = binary_level fuel (op_bit_shl ∷ op_bit_shr ∷ []) "shift operation" additive_expr

  -- `relational_expr`
  unfoldable pub relational_expr : M Node
  relational_expr =
      binary_level fuel (op_lt ∷ op_lte ∷ op_gt ∷ op_gte ∷ []) "relational operation" shift_expr

  -- `equality_expr`
  unfoldable pub equality_expr : M Node
  equality_expr = binary_level fuel (op_eq ∷ op_neq ∷ []) "equality operation" relational_expr

  -- `bitwise_and_expr`
  unfoldable pub bitwise_and_expr : M Node
  bitwise_and_expr = binary_level fuel (op_bit_and ∷ []) "& operation" equality_expr

  -- `bitwise_xor_expr`
  unfoldable pub bitwise_xor_expr : M Node
  bitwise_xor_expr = binary_level fuel (op_bit_xor ∷ []) "^ operation" bitwise_and_expr

  -- `bitswise_or_expr`
  unfoldable pub bitwise_or_expr : M Node
  bitwise_or_expr = binary_level fuel (op_bit_or ∷ []) "or operation" bitwise_xor_expr

  -- `logical_and_expr`
  unfoldable pub logical_and_expr : M Node
  logical_and_expr = binary_level fuel (op_and ∷ []) "&& operation" bitwise_or_expr

  -- The call of `fork` that a trailing `&` makes.
  abbrev pub fork_node : Node → ℕ → Node
  fork_node node line =
      call_node line (id_node_new (codes "fork") line) (args_node line (cons node nil) no_pairs)

  -- `logical_or_expr`
  unfoldable pub logical_or_expr : M Node
  logical_or_expr = do
    line ← lineno
    node ← binary_level fuel (op_or ∷ []) "|| operation" logical_and_expr
    forked ← accept op_fork
    pure (if forked then fork_node node line else node)

  -- The optional `= expr` behind a declaration of `dim_expr`; `missing` if there is none.
  unfoldable pub dim_value : M Node
  dim_value = do
    given ← accept op_assign
    elim given [ true ↦ or_error expr "expecting declaration initializer" | false ↦ pure missing ]

  -- One round of the loop in `dim_expr`.
  unfoldable pub dim_item : M Node
  dim_item = do
    line ← lineno
    decl ← nullable (decl_expr fuel)
    context "dim expression"
    ensure (is_node decl) "expecting declaration"
    val ← dim_value
    pure (binary_op_node_new op_assign decl val line)

  unfoldable pub dim_loop : ℕ → Nodes → M Nodes
  dim_loop zero vec = stuck
  dim_loop (suc f) vec = do
    item ← dim_item
    more ← accept comma
    elim more [ true ↦ dim_loop f (push vec item) | false ↦ pure (push vec item) ]

  -- `dim_expr`
  unfoldable pub dim_expr : M Node
  dim_expr = do line ← lineno; vec ← dim_loop fuel nil; pure (dim_node_new vec line)

  -- `right = not_expr(self)` behind an assignment operator `op`.
  unfoldable pub assign_right : String → Kind → Node → ℕ → M Node
  assign_right ctx op node line = do
    next
    context ctx
    right ← expr
    pure (binary_op_node_new op node right line)

  -- `assignment_expr`
  unfoldable pub assignment_expr : M Node
  assignment_expr = do
    line ← lineno
    dim ← accept dim_kw
    elim dim [
      | true ↦ dim_expr
      | false ↦ do
        node ← logical_or_expr
        t ← token
        elim (is_one_of (op_assign ∷ []) t.kind) [
          | true ↦ assign_right "assignment" t.kind node line
          | false ↦ elim (is_one_of compounds t.kind) [
            | true ↦ assign_right "compound assignment" t.kind node line
            | false ↦ pure node
          ]
        ]
    ]

  -- `not_expr`, which is what `expr` calls.
  unfoldable pub not_expr : M Node
  not_expr = do
    line ← lineno
    negated ← accept op_lnot
    elim negated [
      | true ↦ do node ← expr; pure (unary_op_node_new op_lnot node false line)
      | false ↦ assignment_expr
    ]
