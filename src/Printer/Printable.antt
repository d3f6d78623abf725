-- ===== src/Printer/Printable.antt =====
-- The trees that src/prettyprint.c prints.
use ifj.Prelude.{◌≡◌, true}
use ifj.Ast.{
  Node, Nodes, Pairs, missing, block_node, args_node, subscript_node, slot_node, unary_op_node,
  binary_op_node, int_node, double_node, id_node, decl_node, dim_node, string_node, array_node,
  hash_pair_node, hash_node, call_node, scope_node, declare_node, function_node, type_node, if_node,
  while_node, return_node, print_node, input_node, nil, cons, no_pairs, pair, is_node,
}
use ifj.Printer.Visit.{is_filled}

-- No pointer is NULL but those that are tested before the visit: the type of a declaration, the
-- value of a `dim`, the expression of a `return` and the block of an `else`. The items of a
-- `dim`, of a hash and the else-ifs are of the type that the visitor takes them for. What a call
-- without positional arguments has as keyword arguments does not matter.
abbrev mutual
  pub IsPrintable : Node → Type 0
  IsPrintable missing = ⊥
  IsPrintable (block_node line stmts) = ArePrintable stmts
  IsPrintable (args_node line vec hash) = Unit
  IsPrintable (subscript_node line left right) = IsPrintable left × IsPrintable right
  IsPrintable (slot_node line left right) = IsPrintable left × IsPrintable right
  IsPrintable (unary_op_node line op expr postfix) = IsPrintable expr
  IsPrintable (binary_op_node line op left right let_op) = IsPrintable left × IsPrintable right
  IsPrintable (int_node line val) = Unit
  IsPrintable (double_node line val) = Unit
  IsPrintable (id_node line val) = Unit
  IsPrintable (decl_node line vec type) =
      ArePrintable vec × (is_node type ≡ true → IsPrintable type)
  IsPrintable (dim_node line vec) = AreDims vec
  IsPrintable (string_node line val) = Unit
  IsPrintable (array_node line vals) = ArePrintable vals
  IsPrintable (hash_pair_node line key val) = Unit
  IsPrintable (hash_node line pairs) = ArePairs pairs
  IsPrintable (call_node line expr (args_node line' vec hash)) =
      IsPrintable expr × (is_filled vec ≡ true → ArePrintable vec × AreSlots hash)
  IsPrintable (call_node line expr _) = ⊥
  IsPrintable (scope_node line block) = IsPrintable block
  IsPrintable (declare_node line name type params) =
      (is_node type ≡ true → IsPrintable type) × ArePrintable params
  IsPrintable (function_node line name type block params) =
      (is_node type ≡ true → IsPrintable type) × ArePrintable params × IsPrintable block
  IsPrintable (type_node line name fields) = ArePrintable fields
  IsPrintable (if_node line expr block else_block else_ifs) =
      IsPrintable expr
      × IsPrintable block
      × AreElseIfs else_ifs
      × (is_node else_block ≡ true → IsPrintable else_block)
  IsPrintable (while_node line expr block) = IsPrintable expr × IsPrintable block
  IsPrintable (return_node line expr) = is_node expr ≡ true → IsPrintable expr
  IsPrintable (print_node line params) = ArePrintable params
  IsPrintable (input_node line param) = IsPrintable param

  pub ArePrintable : Nodes → Type 0
  ArePrintable nil = Unit
  ArePrintable (cons n ns) = IsPrintable n × ArePrintable ns

  pub AreDims : Nodes → Type 0
  AreDims nil = Unit
  AreDims (cons (binary_op_node line op left right let_op) ns) =
      IsPrintable left × (is_node right ≡ true → IsPrintable right) × AreDims ns
  AreDims (cons _ ns) = ⊥

  pub ArePairs : Nodes → Type 0
  ArePairs nil = Unit
  ArePairs (cons (hash_pair_node line key val) ns) = IsPrintable key × IsPrintable val × ArePairs ns
  ArePairs (cons _ ns) = ⊥

  pub AreSlots : Pairs → Type 0
  AreSlots no_pairs = Unit
  AreSlots (pair slot n ps) = IsPrintable n × AreSlots ps

  pub AreElseIfs : Nodes → Type 0
  AreElseIfs nil = Unit
  AreElseIfs (cons (if_node line expr block else_block else_ifs) ns) =
      IsPrintable expr × IsPrintable block × AreElseIfs ns
  AreElseIfs (cons _ ns) = ⊥
