-- ===== src/Printer/Visit.antt =====
-- `ifj17_prettyprint` of src/prettyprint.c: the visitors at the nodes of a tree.
--
-- `slots` stands for the order in which khash iterates over the entries of a table. A node that
-- has no callback in src/visitor.c is passed over; a NULL pointer that is visited is the fault
-- `null_pointer`, a node that is taken for another type the fault `bad_access`.
use ifj.Prelude.{Bool, true, false, List, [], ◌∷◌, Bytes, null_pointer, bad_access}
use ifj.Ast.{
  Node, Nodes, Pairs, missing, block_node, args_node, subscript_node, slot_node, unary_op_node,
  binary_op_node, int_node, double_node, id_node, decl_node, dim_node, string_node, array_node,
  hash_pair_node, hash_node, call_node, scope_node, declare_node, function_node, type_node, if_node,
  while_node, return_node, print_node, input_node, nil, cons, no_pairs, pair, is_node,
}
use ifj.Printer.Output.{M, ◌>>◌, skip, crash, text, when, indent, indented}
use ifj.Printer.Visitors.{
  visit_stmt, visit_int, visit_double, visit_id, visit_decl, visit_item, visit_dim, visit_string,
  visit_unary_op, visit_binary_op, visit_array, visit_pair, visit_hash, visit_subscript, visit_slot,
  visit_call, print_args, visit_scope, visit_declare, visit_function, visit_print, visit_input,
  visit_type, visit_while, visit_return, visit_else_if, visit_if,
}

-- `ifj17_vec_length(vec) != 0`
abbrev pub is_filled : Nodes → Bool
is_filled nil = false
is_filled (cons n ns) = true

module _ (slots : (A : Type 0) → List (Bytes × A) → List (Bytes × A)) where
  unfoldable mutual
    pub visit : Node → M
    visit missing = crash null_pointer
    visit (block_node line stmts) = visit_stmts true stmts
    visit (args_node line vec hash) = skip
    visit (subscript_node line left right) = visit_subscript (visit left) (visit right)
    visit (slot_node line left right) = visit_slot (visit left) (visit right)
    visit (unary_op_node line op expr postfix) = visit_unary_op postfix op (visit expr)
    visit (binary_op_node line op left right let_op) =
        visit_binary_op let_op op (visit left) (visit right)
    visit (int_node line val) = visit_int val
    visit (double_node line val) = visit_double val
    visit (id_node line val) = visit_id val
    visit (decl_node line vec type) = visit_decl (visit_lines vec) (is_node type) (visit type)
    visit (dim_node line vec) = visit_dim (visit_dims vec)
    visit (string_node line val) = visit_string val
    visit (array_node line vals) = visit_array (visit_items vals)
    visit (hash_pair_node line key val) = skip
    visit (hash_node line pairs) = visit_hash (visit_pairs pairs)
    visit (call_node line expr (args_node line' vec hash)) =
        visit_call (visit expr)
          (print_args (is_filled vec) (visit_args vec) (slots M (visit_slots hash)))
    visit (call_node line expr missing) = visit_call (visit expr) (crash null_pointer)
    visit (call_node line expr _) = visit_call (visit expr) (crash bad_access)
    visit (scope_node line block) = visit_scope (visit block)
    visit (declare_node line name type params) =
        visit_declare name (is_node type) (visit type) (visit_params params)
    visit (function_node line name type block params) =
        visit_function name (is_node type) (visit type) (visit_lines params) (visit block)
    visit (type_node line name fields) = visit_type name (visit_lines fields)
    visit (if_node line expr block else_block else_ifs) =
        visit_if (visit expr) (visit block) (visit_else_ifs else_ifs) (is_node else_block)
          (visit else_block)
    visit (while_node line expr block) = visit_while (visit expr) (visit block)
    visit (return_node line expr) = visit_return (is_node expr) (visit expr)
    visit (print_node line params) = visit_print (visit_lines params)
    visit (input_node line param) = visit_input (visit param)

    -- The loop of `visit_block`.
    pub visit_stmts : Bool → Nodes → M
    visit_stmts first nil = skip
    visit_stmts first (cons n ns) = visit_stmt first (visit n) >> visit_stmts false ns

    -- The loops that put each node on a line of its own.
    pub visit_lines : Nodes → M
    visit_lines nil = skip
    visit_lines (cons n ns) = text "\n" >> indent >> visit n >> visit_lines ns

    -- The loop of `visit_dim`.
    pub visit_dims : Nodes → M
    visit_dims nil = skip
    visit_dims (cons (binary_op_node line op left right let_op) ns) =
        visit_item (visit left) (is_node right) (visit right) >> visit_dims ns
    visit_dims (cons missing ns) = crash null_pointer
    visit_dims (cons _ ns) = crash bad_access

    -- The loop of `visit_array`.
    pub visit_items : Nodes → M
    visit_items nil = skip
    visit_items (cons n ns) = indent >> visit n >> when (is_filled ns) (text "\n") >> visit_items ns

    -- The loop of `visit_hash`.
    pub visit_pairs : Nodes → M
    visit_pairs nil = skip
    visit_pairs (cons (hash_pair_node line key val) ns) =
        visit_pair (visit key) (visit val) >> visit_pairs ns
    visit_pairs (cons missing ns) = crash null_pointer
    visit_pairs (cons _ ns) = crash bad_access

    -- The loop of `visit_call` over the arguments.
    pub visit_args : Nodes → M
    visit_args nil = skip
    visit_args (cons n ns) = visit n >> when (is_filled ns) (text " ") >> visit_args ns

    pub visit_slots : Pairs → List (Bytes × M)
    visit_slots no_pairs = []
    visit_slots (pair slot n ps) = (slot, visit n) ∷ visit_slots ps

    -- The loop of `visit_declare`.
    pub visit_params : Nodes → M
    visit_params nil = skip
    visit_params (cons n ns) = text "\n" >> indented (indent >> visit n) >> visit_params ns

    -- The loop of `visit_if`.
    pub visit_else_ifs : Nodes → M
    visit_else_ifs nil = skip
    visit_else_ifs (cons (if_node line expr block else_block else_ifs) ns) =
        visit_else_if (visit expr) (visit block) >> visit_else_ifs ns
    visit_else_ifs (cons missing ns) = crash null_pointer
    visit_else_ifs (cons _ ns) = crash bad_access

  -- `ifj17_prettyprint`
  unfoldable pub prettyprint : Node → M
  prettyprint node = visit node >> text "\n"
