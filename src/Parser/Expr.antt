-- ===== src/Parser/Expr.antt =====
-- The expressions of src/parser.c, from `primary_expr` to `not_expr`.
--
-- `expr` stands for the nested calls of `expr` and `not_expr`, and `fuel` bounds the loops and
-- the recursion of a function on itself. Parser/Grammar ties the knot.
use ifj.Prelude.{
  ℕ, zero, suc, ◌+◌, ◌-◌, true, false, [], ◌∷◌, Option, none, some, Bytes, no_fuel, if◌then◌else◌,
}
use ifj.Token.{
  Token, Kind, is_kind, id, int, double, string, lparen, rparen, lbrack, rbrack, lbrace, rbrace,
  comma, as_kw,
}
use ifj.Ast.{
  Node, Nodes, Pairs, missing, nil, push, set, array_node, hash_node, hash_pair_node, args_node,
  call_node, id_node, string_node, args_node_new, id_node_new, int_node_new, double_node_new,
  string_node_new, decl_node_new,
}
use ifj.Parser.Source.{Source}
use ifj.Parser.Monad.{
  Run, M, fault, ◌>>=◌, ◌>>◌, pure, give_up, token, lineno, is, is_one_of, next, accept, expect,
  context, error, demand, require, or_error, nullable,
}

-- The node of a token that is an expression by itself.
abbrev pub leaf : Token → ℕ → Node
leaf t line =
    if is_kind t.kind id
    then id_node_new t.as_string line
    else if is_kind t.kind int
    then int_node_new t.as_int line
    else if is_kind t.kind double
    then double_node_new t.as_double line
    else string_node_new t.as_string line

module _ ⦃G : Source⦄ where
  -- The end of a model's loop or recursion with no fuel left.
  abbrev pub stuck {ℓ} : {A : Type ℓ} → M A
  stuck p = fault no_fuel

  -- `type_expr`
  unfoldable pub type_expr : M Node
  type_expr = do
    t ← token
    line ← lineno
    if is_kind t.kind id then (do next; pure (id_node_new t.as_string line)) else give_up

  -- The loop of `decl_expr` over the names.
  unfoldable pub decl_names : ℕ → Nodes → M Nodes
  decl_names zero vec = stuck
  decl_names (suc f) vec = do
    t ← token
    line ← lineno
    elim (is_kind t.kind id) [
      | true ↦ do
        next
        more ← accept comma
        elim more [
          | true ↦ decl_names f (push vec (id_node_new t.as_string line))
          | false ↦ pure (push vec (id_node_new t.as_string line))
        ]
      | false ↦ pure vec
    ]

  -- `decl_expr`
  unfoldable pub decl_expr : ℕ → M Node
  decl_expr fuel = do
    context "declaration"
    starts ← is id
    elim starts [
      | true ↦ do
        line ← lineno
        vec ← decl_names fuel nil
        demand as_kw "expecting type"
        type ← or_error type_expr "expecting type"
        pure (decl_node_new vec type line)
      | false ↦ give_up
    ]

module _ ⦃G : Source⦄ (fuel : ℕ) (expr : M Node) where
  -- `paren_expr`
  unfoldable pub paren_expr : M Node
  paren_expr = do
    expect lparen
    node ← expr
    demand rparen "expression missing closing ')'"
    pure node

  -- `arg_list`, which adds to the vector `arr`.
  unfoldable pub arg_list : ℕ → Nodes → Kind → M Nodes
  arg_list zero arr delim = stuck
  arg_list (suc f) arr delim = do
    trailing ← is delim
    elim trailing [
      | true ↦ pure arr
      | false ↦ do
        val ← expr
        more ← accept comma
        elim more [ true ↦ arg_list f (push arr val) delim | false ↦ pure (push arr val) ]
    ]

  -- `array_expr`
  unfoldable pub array_expr : M Node
  array_expr = do
    line ← lineno
    expect lbrack
    context "array"
    vals ← arg_list fuel nil rbrack
    demand rbrack "array missing closing ']'"
    pure (array_node line vals)

  -- `hash_pairs`, which adds to the vector `pairs`.
  unfoldable pub hash_pairs : ℕ → Nodes → Kind → M Nodes
  hash_pairs zero pairs delim = stuck
  hash_pairs (suc f) pairs delim = do
    trailing ← is delim
    elim trailing [
      | true ↦ pure pairs
      | false ↦ do
        line ← lineno
        key ← expr
        demand as_kw "hash pair ':' missing"
        val ← expr
        more ← accept comma
        elim more [
          | true ↦ hash_pairs f (push pairs (hash_pair_node line key val)) delim
          | false ↦ pure (push pairs (hash_pair_node line key val))
        ]
    ]

  -- `hash_expr`
  unfoldable pub hash_expr : M Node
  hash_expr = do
    line ← lineno
    expect lbrace
    context "hash"
    pairs ← hash_pairs fuel nil rbrace
    demand rbrace "hash missing closing '}'"
    pure (hash_node line pairs)

  -- `primary_expr`
  unfoldable pub primary_expr : M Node
  primary_expr = do
    t ← token
    line ← lineno
    elim (is_one_of (id ∷ int ∷ double ∷ string ∷ []) t.kind) [
      | true ↦ do next; pure (leaf t line)
      | false ↦
          if is_kind t.kind lbrack
          then array_expr
          else if is_kind t.kind lbrace
          then hash_expr
          else paren_expr
    ]

  -- `slot_access_expr`, with `missing` for a left side that is NULL.
  unfoldable pub slot_access_expr : Node → M Node
  slot_access_expr missing = primary_expr
  slot_access_expr left = pure left

  -- The name of a keyword argument, where the node can be one.
  abbrev pub keyword_name : Node → Option Bytes
  keyword_name (string_node line s) = some s
  keyword_name (id_node line s) = some s
  keyword_name _ = none

  -- One round of the loop in `call_args`: an argument, or a keyword with its value.
  unfoldable pub call_arg : Nodes → Pairs → M (Nodes × Pairs)
  call_arg vec hash = do
    node ← expr
    keyed ← accept as_kw
    elim keyed [
      | true ↦ do
        context "keyword argument"
        elim (keyword_name node) [
          | some str ↦ do val ← nullable expr; pure (vec, set hash str val)
          | none ↦ error "expecting string or identifier as key"
        ]
      | false ↦ pure (push vec node, hash)
    ]

  -- The loop of `call_args`.
  unfoldable pub call_args_loop : ℕ → Nodes → Pairs → M (Nodes × Pairs)
  call_args_loop zero vec hash = stuck
  call_args_loop (suc f) vec hash = do
    added ← call_arg vec hash
    more ← accept comma
    elim more [ true ↦ call_args_loop f added.0 added.1 | false ↦ pure added ]

  -- `self->in_args++` and `self->in_args--`
  abbrev enter_args : M (Unit {0})
  enter_args p = Run.value tt (record p { in_args = p.in_args + 1 })

  abbrev leave_args : M (Unit {0})
  leave_args p = Run.value tt (record p { in_args = p.in_args - 1 })

  -- `call_args`; where it returns NULL, `in_args` stays raised.
  unfoldable pub call_args : M Node
  call_args = do
    line ← lineno
    enter_args
    all ← call_args_loop fuel nil Pairs.no_pairs
    leave_args
    pure (args_node line all.0 all.1)

  -- The arguments up to the closing parenthesis, behind the opening one; NULL arguments are
  -- stored.
  unfoldable pub call_parens : Node → ℕ → M Node
  call_parens left line = do
    context "function call"
    empty ← is rparen
    args ← if empty then pure (args_node_new line) else nullable call_args
    require rparen "missing closing ')'"
    next
    pure (call_node line left args)

  -- `call_expr`, with `missing` for a left side that is NULL. Behind a call whose left side was
  -- given, a `.` ends it, and so does everything but a parenthesis.
  unfoldable pub call_expr : ℕ → Node → M Node
  call_expr zero left = stuck
  call_expr (suc f) left = do
    line ← lineno
    callee ← slot_access_expr left
    opened ← accept lparen
    node ← if opened then call_parens callee line else pure callee
    again ← is lparen
    elim again [ true ↦ call_expr f node | false ↦ slot_access_expr node ]
