-- ===== src/Codegen/Visit.antt =====
-- `ifj17_gen` of src/codegen.c: the visitors at the nodes of a tree.
--
-- `address` stands for the low half of the address of a name, read as a token, where it is one.
-- A node that has no callback is passed over; a NULL pointer that is visited is the fault
-- `null_pointer`, a node that is taken for another type the fault `bad_access`. The constants
-- and the code of the virtual machine stay empty, and are left out.
use ifj.Prelude.{
  ℕ, suc, ◌+◌, Bool, true, false, [], ◌∷◌, Bytes, Option, null_pointer, bad_access, Result,
}
use ifj.Token.{Kind}
use ifj.Ast.{
  Node, Nodes, missing, block_node, args_node, unary_op_node, binary_op_node, int_node, double_node,
  id_node, decl_node, dim_node, string_node, call_node, scope_node, function_node, if_node,
  while_node, return_node, nil, cons, is_node,
}
use ifj.Codegen.Output.{lit, str}
use ifj.Codegen.State.{Gen, gen_init, M, ◌>>◌, skip, crash, print, text}
use ifj.Codegen.Operators.{right_of, visit_unary_op, visit_binary_op}
use ifj.Codegen.Visitors.{
  visit_int, visit_double, visit_id, visit_name, visit_call, in_params, visit_scope, count_locals,
  visit_item, visit_function, visit_while, visit_return, visit_condition, visit_branch, visit_if,
}

-- `ifj17_vec_length`
abbrev pub count : Nodes → ℕ
count nil = 0
count (cons n ns) = suc (count ns)

abbrev pub is_filled : Nodes → Bool
is_filled nil = false
is_filled (cons n ns) = true

module _ (address : Bytes → Option Kind) where
  unfoldable mutual
    pub visit : Node → M
    visit missing = crash null_pointer
    visit (block_node line stmts) = visit_all stmts
    visit (int_node line val) = visit_int val
    visit (double_node line val) = visit_double val
    visit (id_node line val) = visit_id (address val) val
    visit (string_node line val) = print (lit "string@" ∷ str val ∷ [])
    visit (decl_node line vec type) = visit_names vec
    visit (dim_node line vec) = count_locals >> visit_items vec
    visit (unary_op_node line op expr postfix) = visit_unary_op op (visit expr)
    visit (binary_op_node line op left right let_op) =
        visit_binary_op op (right_of right) (visit left) (visit right)
    visit (call_node line expr (args_node line' vec hash)) =
        visit_call (count vec) (visit_all vec) (visit expr)
    visit (call_node line expr missing) = crash null_pointer
    visit (call_node line expr _) = crash bad_access
    visit (scope_node line block) = visit_scope (visit block)
    visit (function_node line name type block params) =
        visit_function name (visit_params params) (visit block)
    visit (while_node line expr block) = visit_while (visit expr) (visit block)
    visit (return_node line expr) = visit_return (is_node expr) (visit expr)
    visit (if_node line expr block else_block else_ifs) =
        visit_if (visit expr) (visit_conditions else_ifs) (is_node else_block) (is_filled else_ifs)
          (visit block) (λ number. visit_blocks number else_ifs) (visit else_block)
    visit _ = skip

    -- The loops of `visit_block` and of `visit_call`.
    pub visit_all : Nodes → M
    visit_all nil = skip
    visit_all (cons n ns) = visit n >> visit_all ns

    -- The loop of `visit_decl`.
    pub visit_names : Nodes → M
    visit_names nil = skip
    visit_names (cons n ns) = visit_name (visit n) >> visit_names ns

    -- The loop of `visit_function`.
    pub visit_params : Nodes → M
    visit_params nil = skip
    visit_params (cons n ns) = in_params (visit n) >> visit_params ns

    -- The loop of `visit_dim`.
    pub visit_items : Nodes → M
    visit_items nil = skip
    visit_items (cons (binary_op_node line op left right let_op) ns) =
        visit_item (is_node right) (visit left) (visit right) >> visit_items ns
    visit_items (cons missing ns) = crash null_pointer
    visit_items (cons _ ns) = crash bad_access

    -- The two loops of `visit_if` over the else-ifs.
    pub visit_conditions : Nodes → M
    visit_conditions nil = skip
    visit_conditions (cons (if_node line expr block else_block else_ifs) ns) =
        visit_condition (visit expr) >> visit_conditions ns
    visit_conditions (cons missing ns) = crash null_pointer
    visit_conditions (cons _ ns) = crash bad_access

    pub visit_blocks : ℕ → Nodes → M
    visit_blocks number nil = skip
    visit_blocks number (cons (if_node line expr block else_block else_ifs) ns) =
        visit_branch (number + 1) (visit block) >> visit_blocks (number + 1) ns
    visit_blocks number (cons missing ns) = crash null_pointer
    visit_blocks number (cons _ ns) = crash bad_access

  -- `ifj17_gen`, from the state that the program starts in.
  unfoldable pub gen : Node → Result Gen
  gen node = (text ".IFJcode17\n" >> text "JUMP Scope\n" >> visit node >> text "\n") gen_init
