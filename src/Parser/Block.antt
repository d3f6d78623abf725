-- ===== src/Parser/Block.antt =====
-- The statements of src/parser.c that hold blocks, `stmt` and the body of `block`.
use Prim.Native.String.{String}
use ifj.Prelude.{ℕ, zero, suc, Bool, true, false, [], ◌∷◌, if◌then◌else◌}
use ifj.Token.{
  Kind, is_kind, id, type_kw, end_kw, semicolon, scope_kw, declare_kw, function_kw, as_kw, if_kw,
  then_kw, elseif_kw, else_kw, do_kw, while_kw, loop_kw, return_kw, print_kw, input_kw,
}
use ifj.Ast.{
  Node, Nodes, missing, nil, push, scope_node_new, function_node_new, if_node, if_node_new,
  while_node_new, block_node,
}
use ifj.Parser.Source.{Source}
use ifj.Parser.Monad.{
  M, ◌>>=◌, ◌>>◌, pure, give_up, token, lineno, is_one_of, next, accept, expect, context, ensure,
  demand, require,
}
use ifj.Parser.Expr.{stuck}
use ifj.Parser.Stmt.{
  function_params, type_stmt, optional_params, optional_type, func_declare, return_stmt, print_stmt,
  input_stmt,
}

module _ ⦃G : Source⦄ (fuel : ℕ) (expr block : M Node) where
  -- `scope_stmt`
  unfoldable pub scope_stmt : M Node
  scope_stmt = do
    line ← lineno
    context "scope statement"
    expect scope_kw
    body ← block
    pure (scope_node_new body line)

  -- `function_stmt`
  unfoldable pub function_stmt : M Node
  function_stmt = do
    line ← lineno
    context "function statement"
    expect function_kw
    require id "missing function name"
    t ← token
    next
    params ← optional_params fuel expr "function"
    context "function"
    type ← optional_type fuel expr
    accept semicolon
    body ← block
    pure (function_node_new t.as_string type body params line)

  -- `function_expr`, which nothing calls: it reads a block and returns NULL.
  unfoldable pub function_expr : M Node
  function_expr = do expect as_kw; function_params fuel expr; context "function"; block; give_up

  -- `cond 'then' block`, behind `if` and behind `elseif`.
  unfoldable pub condition_block : String → ℕ → M Node
  condition_block ctx line = do
    context ctx
    cond ← expr
    demand then_kw "missing 'then'"
    context "if statement"
    body ← block
    pure (if_node_new cond body line)

  -- Label `loop` of `if_stmt`: the else block, `missing` if there is none, and the else-ifs.
  unfoldable pub else_loop : ℕ → ℕ → Nodes → M (Node × Nodes)
  else_loop zero line else_ifs = stuck
  else_loop (suc f) line else_ifs = do
    otherwise ← accept else_kw
    elim otherwise [
      | true ↦ do context "else statement"; body ← block; pure (body, else_ifs)
      | false ↦ do
        more ← accept elseif_kw
        elim more [
          | true ↦ do
            node ← condition_block "elseif statement condition" line
            else_loop f line (push else_ifs node)
          | false ↦ pure (missing, else_ifs)
        ]
    ]

  -- `node->else_block` and `node->else_ifs`
  abbrev with_else : Node → Node → Nodes → Node
  with_else (if_node line cond body _ _) else_block else_ifs =
      if_node line cond body else_block else_ifs
  with_else node else_block else_ifs = node

  -- `if_stmt`
  unfoldable pub if_stmt : M Node
  if_stmt = do
    line ← lineno
    expect if_kw
    node ← condition_block "if statement condition" line
    rest ← else_loop fuel line nil
    pure (with_else node rest.0 rest.1)

  -- `while_stmt`
  unfoldable pub while_stmt : M Node
  while_stmt = do
    line ← lineno
    expect do_kw
    demand while_kw "missing 'while'"
    context "while statement condition"
    cond ← expr
    accept semicolon
    body ← block
    pure (while_node_new cond body line)

  -- The tests of `stmt` on the current token.
  unfoldable pub dispatch : Kind → M Node
  dispatch k =
      if is_kind k print_kw
      then print_stmt fuel expr
      else if is_kind k input_kw
      then input_stmt fuel expr
      else if is_kind k if_kw
      then if_stmt
      else if is_kind k do_kw
      then while_stmt
      else if is_kind k return_kw
      then return_stmt fuel expr
      else if is_kind k scope_kw
      then scope_stmt
      else if is_kind k declare_kw
      then func_declare fuel expr
      else if is_kind k function_kw
      then function_stmt
      else if is_kind k type_kw
      then type_stmt fuel expr
      else expr

  -- `stmt`
  unfoldable pub stmt : M Node
  stmt = do context "statement"; t ← token; dispatch t.kind

  -- The word behind `end`.
  unfoldable pub closing : M (Unit {0})
  closing = do
    a ← accept function_kw
    b ← if a then pure true else accept scope_kw
    c ← if b then pure true else accept if_kw
    ensure c "expecting closing statement"

  -- One test of the loop in `block`: whether the block ends here.
  unfoldable pub block_ends : M Bool
  block_ends = do
    t ← token
    elim (is_one_of (else_kw ∷ elseif_kw ∷ []) t.kind) [
      | true ↦ pure true
      | false ↦ do
        looped ← accept loop_kw
        elim looped [
          | true ↦ pure true
          | false ↦ do
            ended ← accept end_kw
            elim ended [ true ↦ do closing; pure true | false ↦ pure false ]
        ]
    ]

  unfoldable pub block_loop : ℕ → Nodes → M Nodes
  block_loop zero stmts = stuck
  block_loop (suc f) stmts = do
    ended ← block_ends
    elim ended [
      | true ↦ pure stmts
      | false ↦ do node ← stmt; accept semicolon; block_loop f (push stmts node)
    ]

  -- `block`
  unfoldable pub block_body : M Node
  block_body = do line ← lineno; stmts ← block_loop fuel nil; pure (block_node line stmts)
