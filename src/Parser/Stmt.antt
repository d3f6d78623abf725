-- ===== src/Parser/Stmt.antt =====
-- The statements of src/parser.c.
--
-- `expr` and `block` stand for the nested calls of these two, and `fuel` bounds the loops.
use Prim.Native.String.{String}
use ifj.Prelude.{ℕ, zero, suc, Bool, true, false, some, if◌then◌else◌}
use ifj.Token.{
  id, op_assign, comma, type_kw, end_kw, semicolon, declare_kw, function_kw, lparen, rparen, as_kw,
  return_kw, print_kw, input_kw,
}
use ifj.Ast.{
  Node, Nodes, missing, nil, push, is_node, binary_op_node_new, type_node, declare_node_new,
  return_node_new, print_node_new, input_node_new,
}
use ifj.Parser.Source.{Source}
use ifj.Parser.Monad.{
  M, value, ◌>>=◌, ◌>>◌, pure, token, lineno, is, next, accept, expect, context, first_error,
  demand, require, or_error, nullable,
}
use ifj.Parser.Expr.{stuck, type_expr, decl_expr}

module _ ⦃G : Source⦄ (fuel : ℕ) (expr : M Node) where
  -- One round of the loop in `function_params`. The declaration has a node type, so the test of
  -- `decl->type` behind it never fails.
  unfoldable pub function_param : M Node
  function_param = do
    line ← lineno
    decl ← decl_expr fuel
    context "function param"
    given ← accept op_assign
    elim given [
      | true ↦ do val ← expr; pure (binary_op_node_new op_assign decl val line)
      | false ↦ pure decl
    ]

  unfoldable pub params_loop : ℕ → Nodes → M Nodes
  params_loop zero params = stuck
  params_loop (suc f) params = do
    param ← function_param
    more ← accept comma
    elim more [ true ↦ params_loop f (push params param) | false ↦ pure (push params param) ]

  -- `function_params`
  unfoldable pub function_params : M Nodes
  function_params = do
    context "function params"
    starts ← is id
    elim starts [ true ↦ params_loop fuel nil | false ↦ pure nil ]

  -- The loop of `type_stmt` over the fields.
  unfoldable pub fields_loop : ℕ → Nodes → M Nodes
  fields_loop zero fields = stuck
  fields_loop (suc f) fields = do
    decl ← or_error (decl_expr fuel) "expecting field"
    accept semicolon
    ended ← accept end_kw
    elim ended [ true ↦ pure (push fields decl) | false ↦ fields_loop f (push fields decl) ]

  -- `type_stmt`
  unfoldable pub type_stmt : M Node
  type_stmt = do
    context "type statement"
    line ← lineno
    expect type_kw
    require id "missing type name"
    t ← token
    next
    accept semicolon
    fields ← fields_loop fuel nil
    pure (type_node line t.as_string fields)

  -- `('(' params? ')')?`, in `func_declare` and `function_stmt`.
  unfoldable pub optional_params : String → M Nodes
  optional_params ctx = do
    opened ← accept lparen
    elim opened [
      | true ↦ do
        params ← function_params
        context ctx
        demand rparen "missing closing ')'"
        pure params
      | false ↦ pure nil
    ]

  -- `('as' type_expr)?`; `missing` if there is none.
  unfoldable pub optional_type : M Node
  optional_type = do
    typed ← accept as_kw
    elim typed [ true ↦ or_error type_expr "missing type after ':'" | false ↦ pure missing ]

  -- `func_declare`
  unfoldable pub func_declare : M Node
  func_declare = do
    line ← lineno
    expect declare_kw
    context "function declaration"
    demand function_kw "expecting 'function'"
    require id "missing function name"
    t ← token
    next
    params ← optional_params "function declaration"
    context "function declaration"
    type ← optional_type
    accept semicolon
    pure (declare_node_new t.as_string type params line)

  -- `return_stmt`
  unfoldable pub return_stmt : M Node
  return_stmt = do
    line ← lineno
    context "return statement"
    expect return_kw
    bare ← accept semicolon
    node ← if bare then pure missing else expr
    pure (return_node_new node line)

  -- The loop of `print_stmt`: a parameter that is NULL ends it.
  unfoldable pub print_loop : ℕ → Nodes → M Nodes
  print_loop zero params = stuck
  print_loop (suc f) params = do
    param ← nullable expr
    elim (is_node param) [
      | true ↦ do
        more ← accept semicolon
        elim more [ true ↦ print_loop f (push params param) | false ↦ pure (push params param) ]
      | false ↦ pure params
    ]

  -- `print_stmt`
  unfoldable pub print_stmt : M Node
  print_stmt = do
    line ← lineno
    context "print statement"
    expect print_kw
    params ← print_loop fuel nil
    pure (print_node_new params line)

  -- `if (!b) error(str);`: the message is kept and the function goes on.
  unfoldable pub note_unless : Bool → String → M (Unit {0})
  note_unless b s p =
      if b then value tt p else value tt (record p { err = some (first_error p.err s) })

  -- `input_stmt`: a parameter that is NULL is stored.
  unfoldable pub input_stmt : M Node
  input_stmt = do
    line ← lineno
    context "input statement"
    expect input_kw
    param ← nullable expr
    note_unless (is_node param) "Expected variable"
    accept semicolon
    pure (input_node_new param line)
