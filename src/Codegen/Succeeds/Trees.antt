-- ===== src/Codegen/Succeeds/Trees.antt =====
-- `ifj17_gen` of src/codegen.c on the trees that can be printed.
use ifj.Prelude.{ℕ, ◌+◌, ◌≡◌, refl, true, Bytes, Option, [], ◌∷◌}
use ifj.Token.{Kind}
use ifj.Ast.{
  Node, Nodes, missing, block_node, args_node, unary_op_node, binary_op_node, int_node, double_node,
  id_node, decl_node, dim_node, string_node, call_node, scope_node, function_node, if_node,
  while_node, return_node, nil, cons, is_node,
}
use ifj.Codegen.Output.{lit, str}
use ifj.Codegen.Operators.{right_of}
use ifj.Codegen.Succeeds.{Succeeds, ◌>>>◌, skipped, printed}
use ifj.Codegen.Succeeds.Operators.{IsGiven, visit_binary_op-Succeeds, visit_unary_op-Succeeds}
use ifj.Codegen.Succeeds.Statements.{
  is_harmless, visit_int-Succeeds, visit_double-Succeeds, visit_id-Succeeds, visit_name-Succeeds,
  visit_call-Succeeds, in_params-Succeeds, visit_scope-Succeeds, count_locals-Succeeds,
  visit_item-Succeeds, visit_function-Succeeds, visit_while-Succeeds, visit_return-Succeeds,
  visit_condition-Succeeds, visit_branch-Succeeds, visit_if-Succeeds,
}
use ifj.Codegen.Visit.{
  count, is_filled, visit, visit_all, visit_names, visit_params, visit_items, visit_conditions,
  visit_blocks,
}
use ifj.Printer.Printable.{IsPrintable, ArePrintable, AreDims, AreElseIfs}

right_of-IsGiven : (n : Node) → IsPrintable n → IsGiven (right_of n)
unfolding IsPrintable
right_of-IsGiven missing h = absurd h
right_of-IsGiven (binary_op_node line op left right let_op) h = tt
right_of-IsGiven (call_node line expr args) h = tt
right_of-IsGiven (unary_op_node line op expr postfix) h = tt
right_of-IsGiven _ h = tt

module _ (address : Bytes → Option Kind)
    (harmless : (name : Bytes) → is_harmless (address name) ≡ true) where
  mutual
    unfolding visit IsPrintable

    pub visit-Succeeds : (node : Node) → IsPrintable node → Succeeds (visit address node)
    visit-Succeeds missing h = absurd h
    visit-Succeeds (block_node line stmts) h = visit_all-Succeeds stmts h
    visit-Succeeds (int_node line val) h = visit_int-Succeeds val
    visit-Succeeds (double_node line val) h = visit_double-Succeeds val
    visit-Succeeds (id_node line val) h = visit_id-Succeeds (address val) val (harmless val)
    visit-Succeeds (string_node line val) h = printed (lit "string@" ∷ str val ∷ [])
    visit-Succeeds (decl_node line vec type) h = visit_names-Succeeds vec h.0
    visit-Succeeds (dim_node line vec) h = count_locals-Succeeds >>> visit_items-Succeeds vec h
    visit-Succeeds (unary_op_node line op expr postfix) h =
        visit_unary_op-Succeeds op (visit-Succeeds expr h)
    visit-Succeeds (binary_op_node line op left right let_op) h =
        visit_binary_op-Succeeds (visit-Succeeds left h.0) (visit-Succeeds right h.1) op
          (right_of right) (right_of-IsGiven right h.1)
    visit-Succeeds (call_node line expr (args_node line' nil hash)) h =
        visit_call-Succeeds 0 (λ e. skipped) (visit-Succeeds expr h.0)
    visit-Succeeds (call_node line expr (args_node line' (cons n ns) hash)) h =
        visit_call-Succeeds (count (cons n ns)) (λ e. visit_all-Succeeds (cons n ns) (h.1 refl).0)
          (visit-Succeeds expr h.0)
    visit-Succeeds (call_node line expr _) h = absurd h
    visit-Succeeds (scope_node line block) h = visit_scope-Succeeds (visit-Succeeds block h)
    visit-Succeeds (function_node line name type block params) h =
        visit_function-Succeeds name (visit_params-Succeeds params h.1) (visit-Succeeds block h.2)
    visit-Succeeds (while_node line expr block) h =
        visit_while-Succeeds (visit-Succeeds expr h.0) (visit-Succeeds block h.1)
    visit-Succeeds (return_node line expr) h =
        visit_return-Succeeds (is_node expr) (λ e. visit-Succeeds expr (h e))
    visit-Succeeds (if_node line expr block else_block else_ifs) h =
        visit_if-Succeeds (is_node else_block) (is_filled else_ifs) (visit-Succeeds expr h.0)
          (visit_conditions-Succeeds else_ifs h.2) (visit-Succeeds block h.1)
          (λ n. visit_blocks-Succeeds n else_ifs h.2) (λ e. visit-Succeeds else_block (h.3 e))
    visit-Succeeds _ h = skipped

    visit_all-Succeeds : (ns : Nodes) → ArePrintable ns → Succeeds (visit_all address ns)
    visit_all-Succeeds nil h = skipped
    visit_all-Succeeds (cons n ns) h = visit-Succeeds n h.0 >>> visit_all-Succeeds ns h.1

    visit_names-Succeeds : (ns : Nodes) → ArePrintable ns → Succeeds (visit_names address ns)
    visit_names-Succeeds nil h = skipped
    visit_names-Succeeds (cons n ns) h =
        visit_name-Succeeds (visit-Succeeds n h.0) >>> visit_names-Succeeds ns h.1

    visit_params-Succeeds : (ns : Nodes) → ArePrintable ns → Succeeds (visit_params address ns)
    visit_params-Succeeds nil h = skipped
    visit_params-Succeeds (cons n ns) h =
        in_params-Succeeds (visit-Succeeds n h.0) >>> visit_params-Succeeds ns h.1

    visit_items-Succeeds : (ns : Nodes) → AreDims ns → Succeeds (visit_items address ns)
    visit_items-Succeeds nil h = skipped
    visit_items-Succeeds (cons (binary_op_node line op left right let_op) ns) h =
        visit_item-Succeeds (is_node right) (visit-Succeeds left h.0)
          (λ e. visit-Succeeds right (h.1 e))
        >>> visit_items-Succeeds ns h.2
    visit_items-Succeeds (cons _ ns) h = absurd h

    visit_conditions-Succeeds :
        (ns : Nodes) → AreElseIfs ns → Succeeds (visit_conditions address ns)
    visit_conditions-Succeeds nil h = skipped
    visit_conditions-Succeeds (cons (if_node line expr block else_block else_ifs) ns) h =
        visit_condition-Succeeds (visit-Succeeds expr h.0) >>> visit_conditions-Succeeds ns h.2
    visit_conditions-Succeeds (cons _ ns) h = absurd h

    visit_blocks-Succeeds :
        (n : ℕ) (ns : Nodes) → AreElseIfs ns → Succeeds (visit_blocks address n ns)
    visit_blocks-Succeeds n nil h = skipped
    visit_blocks-Succeeds n (cons (if_node line expr block else_block else_ifs) ns) h =
        visit_branch-Succeeds (n + 1) (visit-Succeeds block h.1)
        >>> visit_blocks-Succeeds (n + 1) ns h.2
    visit_blocks-Succeeds n (cons _ ns) h = absurd h
