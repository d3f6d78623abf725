-- ===== src/Codegen/Operators.antt =====
-- `emit_op`, `visit_unary_op` and `visit_binary_op` of src/codegen.c. The visits of the operands
-- are arguments.
use Prim.Native.String.{String}
use ifj.Prelude.{
  ℕ, ◌+◌, ◌-◌, Bool, ◌||◌, codes, same, ◌==◌, if◌then◌else◌, null_pointer, bad_access,
}
use ifj.Token.{
  Kind, spelling, op_plus, op_minus, op_mul, op_div, op_eq, op_neq, op_bit_and, op_bit_or, op_lnot,
}
use ifj.Ast.{Node, missing, binary_op_node, call_node, unary_op_node}
use ifj.Codegen.Output.{
  jump_loop, jump_res_if, jump_res_if_rel, label_int2float, jump_int2float, label_cont, jump_cont,
}
use ifj.Codegen.State.{Gen, M, ◌>>◌, skip, crash, modify, test, text, print_num}

-- `!strcmp(ifj17_token_type_string(op), s)`
abbrev pub spells : Kind → String → Bool
spells op s = same (codes (spelling op)) (codes s)

-- The types of the operands are stored in two variables.
unfoldable pub store_types : M → M → M
store_types left right =
    text "TYPE TF@temp_bool_1 "
    >> left
    >> text "\n"
    >> text "TYPE TF@temp_bool_2 "
    >> right
    >> text "\n"

-- The program ends where the types of the operands differ.
unfoldable pub check_types : M → M → M
check_types left right =
    store_types left right >> text "JUMPIFNEQ END_IF_0 TF@temp_bool_1 TF@temp_bool_2\n"

-- The conversion of an operand of a division, up to the jump over it; then the rest, with the
-- number of the label.
unfoldable pub convert : (Gen → ℕ) → M → M
convert number operand =
    text "TYPE TF@temp_bool_1 "
    >> operand
    >> text "\n"
    >> text "TYPE TF@temp_bool_2 float@1.5\n"
    >> modify (λ g. record g { int2float = g.int2float + 1 })
    >> print_num jump_int2float (λ g. g.int2float)
    >> modify (λ g. record g { label_cont_num = g.label_cont_num + 1 })
    >> print_num jump_cont (λ g. g.label_cont_num)
    >> print_num label_int2float number
    >> text "INT2FLOAT "
    >> operand
    >> text " "
    >> operand
    >> text "\n"
    >> print_num label_cont (λ g. g.label_cont_num)

-- `if (from_if == 1) { ... }`
unfoldable pub jump_if : M
jump_if =
    test (λ g. g.from_if == 1)
      (print_num jump_res_if (λ g. g.else_if_num)
        >> modify (λ g. record g { from_if = g.from_if - 1 }))
      skip

-- `if (from_loop == 1) { ... }`
unfoldable pub jump_back : M
jump_back =
    test (λ g. g.from_loop == 1)
      (print_num jump_loop (λ g. g.loop_num)
        >> modify (λ g. record g { loop_num = g.loop_num - 1 })
        >> modify (λ g. record g { from_loop = g.from_loop - 1 }))
      skip

-- `emit_op`
unfoldable pub emit_op : Kind → M → M → M
emit_op op_plus left right = check_types left right >> text "ADD "
emit_op op_minus left right = check_types left right >> text "SUB "
emit_op op_mul left right = check_types left right >> text "MUL "
emit_op op_div left right =
    modify (λ g. record g { int2float = 0; label_cont_num = 0 })
    >> convert (λ g. g.int2float) left
    >> convert (λ g. g.label_cont_num) right
    >> text "DIV "
emit_op op_eq left right = check_types left right >> text "JUMPIFEQ " >> jump_if >> jump_back
emit_op op_neq left right = check_types left right >> text "JUMPIFNEQ " >> jump_if
emit_op op_bit_and left right = text "AND "
emit_op op_bit_or left right = text "OR "
emit_op op_lnot left right = text "NOT "
emit_op _ left right = skip

-- `visit_unary_op`; the node that `emit_op` takes for a binary operation has its operand as the
-- left one.
unfoldable pub visit_unary_op : Kind → M → M
visit_unary_op op expr =
    if spells op "not"
    then test (λ g. g.not_num == 0)
        (modify (λ g. record g { not_num = g.not_num + 1 }) >> emit_op op expr (crash bad_access))
        (test (λ g. g.not_num == 2) (expr >> modify (λ g. record g { not_num = 0 })) skip)
    else if spells op "-"
    then test (λ g. g.not_num == 0)
        (modify (λ g. record g { not_num = g.not_num + 1 })
          >> test (λ g. g.from_dim == 1) skip (text "MOVE "))
        (test (λ g. g.not_num == 2)
          (modify (λ g. record g { from_minus = g.from_minus + 1 })
            >> expr
            >> modify (λ g. record g { not_num = 0 }))
          skip)
    else skip

-- What `visit_binary_op` asks of the type of the right operand.
pub data Right : Type 0 where
  null_right binary_right call_right unary_right other_right : Right

abbrev pub right_of : Node → Right
right_of missing = null_right
right_of (binary_op_node line op left right let_op) = binary_right
right_of (call_node line expr args) = call_right
right_of (unary_op_node line op expr postfix) = unary_right
right_of _ = other_right

-- An assignment whose right side is no operation and no call; behind `if` it is a comparison.
unfoldable pub assign_value : M → M → M
assign_value left right =
    test (λ g. g.from_if == 1)
      (check_types left right
        >> text "JUMPIFEQ "
        >> print_num jump_res_if (λ g. g.else_if_num)
        >> right
        >> text " "
        >> left
        >> text "\n"
        >> modify (λ g. record g { from_if = g.from_if - 1 }))
      (text "MOVE " >> left >> text " " >> right >> text "\n")

-- The end of `visit_binary_op`: the right side is visited before the left one and behind it.
unfoldable pub visit_operands : M → M → M
visit_operands left right =
    modify (λ g. record g { bin_op = g.bin_op + 1 })
    >> right
    >> left
    >> text " "
    >> modify (λ g. record g { bin_op = g.bin_op + 1 })
    >> right

unfoldable pub compare_less : M → M → M
compare_less left right =
    check_types left right
    >> text "DEFVAR TF@temp_bool_rel\n"
    >> text "GT TF@temp_bool_rel "
    >> left
    >> text " "
    >> right
    >> text "\n"
    >> print_num jump_res_if_rel (λ g. g.else_if_num)
    >> text "bool@true"
    >> text "\n"

-- `visit_binary_op` behind the tests for an assignment.
unfoldable pub visit_operation : Kind → M → M → M
visit_operation op left right =
    if spells op "+"
      || spells op "-"
      || spells op "*"
      || spells op "/"
      || spells op "and"
      || spells op "or"
    then test (λ g. g.bin_op == 1) (emit_op op left right)
        (test (λ g. g.bin_op == 2)
          (left
            >> text " "
            >> right
            >> text "\n"
            >> modify (λ g. record g { bin_op = g.bin_op - 2 }))
          (visit_operands left right))
    else if spells op "==" || spells op "<>"
    then emit_op op left right >> left >> text " " >> right >> text "\n"
    else if spells op ">" || spells op "<"
    then compare_less left right
    else visit_operands left right

-- `visit_binary_op`
unfoldable pub visit_assign : Right → M → M → M → M
visit_assign null_right left right others = crash null_pointer
visit_assign binary_right left right others = others
visit_assign call_right left right others = right >> text "\n" >> text "POPS " >> left >> text "\n"
visit_assign unary_right left right others =
    right
    >> modify (λ g. record g { not_num = g.not_num + 1 })
    >> left
    >> text " "
    >> right
    >> text "\n"
visit_assign other_right left right others = assign_value left right

unfoldable pub visit_binary_op : Kind → Right → M → M → M
visit_binary_op op kind left right =
    if spells op "="
    then visit_assign kind left right (visit_operation op left right)
    else visit_operation op left right
