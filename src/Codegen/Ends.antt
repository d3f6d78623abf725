-- ===== src/Codegen/Ends.antt =====
-- `ifj17_gen` of src/codegen.c on every tree.
use ifj.Prelude.{
  ℕ, ◌+◌, ◌≡◌, refl, Bytes, [], ◌∷◌, Option, some, arith, IsReal, null_pointer, bad_access, Leads,
  Leads-weaken,
}
use ifj.Token.{Kind}
use ifj.Ast.{
  Node, Nodes, missing, block_node, args_node, unary_op_node, binary_op_node, int_node, double_node,
  id_node, decl_node, dim_node, string_node, call_node, scope_node, function_node, if_node,
  while_node, return_node, nil, cons, is_node,
}
use ifj.Codegen.Output.{lit, str}
use ifj.Codegen.State.{Gen, gen_init}
use ifj.Codegen.Keeps.{loops, Sound, Moves, Keeps, ◌>>>◌, skipped, crashed, printed, texted}
use ifj.Codegen.Operators.{right_of}
use ifj.Codegen.Keeps.Operators.{visit_binary_op-Keeps, visit_unary_op-Keeps}
use ifj.Codegen.Keeps.Leaves.{
  visit_int-Keeps, visit_double-Keeps, visit_id-Keeps, visit_name-Keeps, visit_call-Keeps,
}
use ifj.Codegen.Keeps.Statements.{
  in_params-Keeps, visit_scope-Keeps, count_locals-Keeps, visit_item-Keeps, visit_function-Keeps,
  visit_return-Keeps, visit_condition-Keeps, visit_branch-Keeps, visit_if-Keeps,
}
use ifj.Codegen.Keeps.Loops.{visit_while-Keeps}
use ifj.Codegen.Visit.{
  count, is_filled, visit, visit_all, visit_names, visit_params, visit_items, visit_conditions,
  visit_blocks, gen,
}

module _ (address : Bytes → Option Kind) where
  mutual
    unfolding visit loops

    visit-Keeps : (node : Node) → Keeps (visit address node)
    visit-Keeps missing = crashed null_pointer tt
    visit-Keeps (block_node line stmts) = visit_all-Keeps stmts
    visit-Keeps (int_node line val) = visit_int-Keeps val
    visit-Keeps (double_node line val) = visit_double-Keeps val
    visit-Keeps (id_node line val) = visit_id-Keeps (address val) val
    visit-Keeps (string_node line val) = printed (lit "string@" ∷ str val ∷ []) (λ c. refl)
    visit-Keeps (decl_node line vec type) = visit_names-Keeps vec
    visit-Keeps (dim_node line vec) = count_locals-Keeps >>> visit_items-Keeps vec
    visit-Keeps (unary_op_node line op expr postfix) = visit_unary_op-Keeps op (visit-Keeps expr)
    visit-Keeps (binary_op_node line op left right let_op) =
        visit_binary_op-Keeps (visit-Keeps left) (visit-Keeps right) op (right_of right)
    visit-Keeps (call_node line expr (args_node line' vec hash)) =
        visit_call-Keeps (count vec) (visit_all-Keeps vec) (visit-Keeps expr)
    visit-Keeps (call_node line expr missing) = crashed null_pointer tt
    visit-Keeps (call_node line expr _) = crashed bad_access tt
    visit-Keeps (scope_node line block) = visit_scope-Keeps (visit-Keeps block)
    visit-Keeps (function_node line name type block params) =
        visit_function-Keeps name (visit_params-Keeps params) (visit-Keeps block)
    visit-Keeps (while_node line expr block) =
        visit_while-Keeps (visit-Keeps expr) (visit-Keeps block)
    visit-Keeps (return_node line expr) = visit_return-Keeps (is_node expr) (visit-Keeps expr)
    visit-Keeps (if_node line expr block else_block else_ifs) =
        visit_if-Keeps (is_node else_block) (is_filled else_ifs) (visit-Keeps expr)
          (visit_conditions-Keeps else_ifs) (visit-Keeps block) (λ n. visit_blocks-Keeps n else_ifs)
          (visit-Keeps else_block)
    visit-Keeps _ = skipped

    visit_all-Keeps : (ns : Nodes) → Keeps (visit_all address ns)
    visit_all-Keeps nil = skipped
    visit_all-Keeps (cons n ns) = visit-Keeps n >>> visit_all-Keeps ns

    visit_names-Keeps : (ns : Nodes) → Keeps (visit_names address ns)
    visit_names-Keeps nil = skipped
    visit_names-Keeps (cons n ns) = visit_name-Keeps (visit-Keeps n) >>> visit_names-Keeps ns

    visit_params-Keeps : (ns : Nodes) → Keeps (visit_params address ns)
    visit_params-Keeps nil = skipped
    visit_params-Keeps (cons n ns) = in_params-Keeps (visit-Keeps n) >>> visit_params-Keeps ns

    visit_items-Keeps : (ns : Nodes) → Keeps (visit_items address ns)
    visit_items-Keeps nil = skipped
    visit_items-Keeps (cons (binary_op_node line op left right let_op) ns) =
        visit_item-Keeps (is_node right) (visit-Keeps left) (visit-Keeps right)
        >>> visit_items-Keeps ns
    visit_items-Keeps (cons missing ns) = crashed null_pointer tt
    visit_items-Keeps (cons _ ns) = crashed bad_access tt

    visit_conditions-Keeps : (ns : Nodes) → Keeps (visit_conditions address ns)
    visit_conditions-Keeps nil = skipped
    visit_conditions-Keeps (cons (if_node line expr block else_block else_ifs) ns) =
        visit_condition-Keeps (visit-Keeps expr) >>> visit_conditions-Keeps ns
    visit_conditions-Keeps (cons missing ns) = crashed null_pointer tt
    visit_conditions-Keeps (cons _ ns) = crashed bad_access tt

    visit_blocks-Keeps : (n : ℕ) (ns : Nodes) → Keeps (visit_blocks address n ns)
    visit_blocks-Keeps n nil = skipped
    visit_blocks-Keeps n (cons (if_node line expr block else_block else_ifs) ns) =
        visit_branch-Keeps (n + 1) (visit-Keeps block) >>> visit_blocks-Keeps (n + 1) ns
    visit_blocks-Keeps n (cons missing ns) = crashed null_pointer tt
    visit_blocks-Keeps n (cons _ ns) = crashed bad_access tt

  -- A visit of any node, from a state in which the loop labels printed are numbered from 1 in
  -- order, `loop_num` is at most the last of them and at least the number of loops whose jump is
  -- due: it meets a fault of the program, or it ends in such a state, where scope, params,
  -- from_func and from_dim are what they were before, and `mem_loop_num` has not fallen.
  pub visit-Leads :
      (node : Node) (g : Gen) → Sound g → Leads IsReal (Moves g) (visit address node g)
  visit-Leads node g s = (visit-Keeps node).keeps g s

  -- Code generation ends on every tree. Unless it meets a NULL pointer or a node of another type
  -- than it takes it for, the loop labels of its output are numbered 1, 2 and so on in the order
  -- they are printed, each printed once, and every jump to a loop goes to a label printed before
  -- it.
  pub gen-Leads :
      (node : Node) → Leads IsReal (λ g. loops 0 g.out ≡ some g.mem_loop_num) (gen address node)
  unfolding gen loops
  gen-Leads node =
      Leads-weaken (λ g p. p.sound.numbers)
        ((texted _ >>> texted _ >>> visit-Keeps node >>> texted _).keeps gen_init
          (record { numbers = refl; due = omega arith; labels = omega arith }))
