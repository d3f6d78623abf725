-- ===== src/Parser/Code.antt =====
-- All of the parser's code, to unfold at once where it runs on concrete input.
use ifj.Parser.Monad.{next, accept}
use ifj.Parser.Expr.{
  type_expr, decl_names, decl_expr, paren_expr, arg_list, array_expr, hash_pairs, hash_expr,
  primary_expr, slot_access_expr, call_arg, call_args_loop, call_args, call_parens, call_expr,
}
use ifj.Parser.Operators.{
  binary_loop, binary_level, pow_expr, postfix_expr, unary_expr, multiplicative_expr, additive_expr,
  shift_expr, relational_expr, equality_expr, bitwise_and_expr, bitwise_xor_expr, bitwise_or_expr,
  logical_and_expr, logical_or_expr, dim_value, dim_item, dim_loop, dim_expr, assign_right,
  assignment_expr, not_expr,
}
use ifj.Parser.Stmt.{
  function_param, params_loop, function_params, fields_loop, type_stmt, optional_params,
  optional_type, func_declare, return_stmt, print_loop, print_stmt, note_unless, input_stmt,
}
use ifj.Parser.Block.{
  scope_stmt, function_stmt, condition_block, else_loop, if_stmt, while_stmt, dispatch, stmt,
  closing, block_ends, block_loop, block_body,
}
use ifj.Parser.Grammar.{expr, block, program_loop, program, parse}

unfoldable pub parser_code : Unit {0}
unfolding next accept type_expr decl_names decl_expr paren_expr arg_list array_expr hash_pairs
    hash_expr primary_expr slot_access_expr call_arg call_args_loop call_args call_parens call_expr
    binary_loop binary_level pow_expr postfix_expr unary_expr multiplicative_expr additive_expr
    shift_expr relational_expr equality_expr bitwise_and_expr bitwise_xor_expr bitwise_or_expr
    logical_and_expr logical_or_expr dim_value dim_item dim_loop dim_expr assign_right
    assignment_expr not_expr function_param params_loop function_params fields_loop type_stmt
    optional_params optional_type func_declare return_stmt print_loop print_stmt note_unless
    input_stmt scope_stmt function_stmt condition_block else_loop if_stmt while_stmt dispatch stmt
    closing block_ends block_loop block_body expr block program_loop program parse
parser_code = tt
