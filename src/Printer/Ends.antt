-- ===== src/Printer/Ends.antt =====
-- The printer of src/prettyprint.c ends on every tree.
use ifj.Prelude.{
  Bool, true, false, List, [], ◌∷◌, Bytes, codes, if◌then◌else◌, null_pointer, bad_access,
}
use ifj.Token.{spelling}
use ifj.Ast.{
  Node, Nodes, Pairs, missing, block_node, args_node, subscript_node, slot_node, unary_op_node,
  binary_op_node, int_node, double_node, id_node, decl_node, dim_node, string_node, array_node,
  hash_pair_node, hash_node, call_node, scope_node, declare_node, function_node, type_node, if_node,
  while_node, return_node, print_node, input_node, nil, cons, no_pairs, pair, is_node,
}
use ifj.Printer.Output.{lit, str, Printer, M}
use ifj.Prelude.{IsReal, Anything, Leads}
use ifj.Printer.Visit.{
  is_filled, visit, visit_stmts, visit_lines, visit_dims, visit_items, visit_pairs, visit_args,
  visit_slots, visit_params, visit_else_ifs, prettyprint,
}
use ifj.Printer.Brackets.{Every}
use ifj.Printer.Quits.{
  Quits, written, skipped, spaced, crashed, ◌>>>◌, deeper, when-Ends, broken_outside, EndsSlot,
  print_slots-Ends,
}

module _ (slots : (A : Type 0) → List (Bytes × A) → List (Bytes × A))
    (slots_keep : (P : Bytes × M → Type 0) (entries : List (Bytes × M))
      → Every P entries
      → Every P (slots M entries)) where
  mutual
    unfolding visit

    visit-Ends : (node : Node) → Quits (visit slots node)
    visit-Ends missing = crashed null_pointer tt
    visit-Ends (block_node line stmts) = visit_stmts-Ends true stmts
    visit-Ends (subscript_node line left right) =
        written (lit "(subscript\n" ∷ [])
        >>> deeper
            (spaced >>> visit-Ends left >>> written (lit "\n" ∷ []) >>> spaced >>> visit-Ends right)
        >>> written (lit ")" ∷ [])
    visit-Ends (slot_node line left right) =
        written (lit "(slot\n" ∷ [])
        >>> deeper
            (spaced >>> visit-Ends left >>> written (lit "\n" ∷ []) >>> spaced >>> visit-Ends right)
        >>> written (lit ")" ∷ [])
    visit-Ends (unary_op_node line op expr true) =
        written (lit "(" ∷ [])
        >>> visit-Ends expr
        >>> written (lit " " ∷ str (codes (spelling op)) ∷ [])
        >>> written (lit ")" ∷ [])
    visit-Ends (unary_op_node line op expr false) =
        written (lit "(" ∷ [])
        >>> written (str (codes (spelling op)) ∷ lit " " ∷ [])
        >>> visit-Ends expr
        >>> written (lit ")" ∷ [])
    visit-Ends (binary_op_node line op left right let_op) =
        written (lit (if let_op then "(let " else "(") ∷ str (codes (spelling op)) ∷ lit " " ∷ [])
        >>> visit-Ends left
        >>> written (lit " " ∷ [])
        >>> visit-Ends right
        >>> written (lit ")" ∷ [])
    visit-Ends (int_node line val) = written _
    visit-Ends (double_node line val) = written _
    visit-Ends (id_node line val) = written _
    visit-Ends (decl_node line vec type) =
        written (lit "(decl" ∷ [])
        >>> deeper (
            visit_lines-Ends vec
            >>> when-Ends (is_node type)
                (written (lit "\n" ∷ []) >>> spaced >>> written (lit ": " ∷ []) >>> visit-Ends type)
            >>> written (lit ")" ∷ []))
    visit-Ends (dim_node line vec) =
        written (lit "(dim" ∷ []) >>> deeper (visit_dims-Ends vec >>> written (lit ")" ∷ []))
    visit-Ends (string_node line val) = written _
    visit-Ends (array_node line vals) =
        written (lit "(array\n" ∷ []) >>> deeper (visit_items-Ends vals) >>> written (lit ")" ∷ [])
    visit-Ends (hash_node line pairs) =
        written (lit "(hash\n" ∷ []) >>> deeper (visit_pairs-Ends pairs) >>> written (lit ")" ∷ [])
    visit-Ends (call_node line expr (args_node line' vec hash)) =
        written (lit "(call\n" ∷ [])
        >>> deeper (
            spaced
            >>> visit-Ends expr
            >>> when-Ends (is_filled vec) (
                written (lit "\n" ∷ [])
                >>> spaced
                >>> visit_args-Ends vec
                >>> print_slots-Ends _ (slots_keep EndsSlot _ (visit_slots-Ends hash))))
        >>> written (lit ")" ∷ [])
    visit-Ends (call_node line expr missing) =
        written (lit "(call\n" ∷ [])
        >>> deeper (spaced >>> visit-Ends expr >>> crashed null_pointer tt)
        >>> written (lit ")" ∷ [])
    visit-Ends (call_node line expr _) =
        written (lit "(call\n" ∷ [])
        >>> deeper (spaced >>> visit-Ends expr >>> crashed bad_access tt)
        >>> written (lit ")" ∷ [])
    visit-Ends (scope_node line block) =
        written (lit "(scope ->" ∷ [])
        >>> deeper (written (lit "\n" ∷ []) >>> visit-Ends block)
        >>> written (lit ")" ∷ [])
    visit-Ends (declare_node line name type params) =
        written (lit "(declare" ∷ [])
        >>> written (lit "\n" ∷ [])
        >>> deeper (
            spaced
            >>> written (lit "(function " ∷ str name ∷ lit " -> " ∷ [])
            >>> when-Ends (is_node type) (visit-Ends type)
            >>> visit_params-Ends params)
        >>> written (lit "))" ∷ [])
    visit-Ends (function_node line name type block params) =
        written (lit "(function " ∷ str name ∷ lit " -> " ∷ [])
        >>> deeper (when-Ends (is_node type) (visit-Ends type) >>> visit_lines-Ends params)
        >>> written (lit "\n" ∷ [])
        >>> deeper (visit-Ends block)
        >>> written (lit ")" ∷ [])
    visit-Ends (type_node line name fields) =
        written (lit "(type " ∷ str name ∷ [])
        >>> deeper (visit_lines-Ends fields)
        >>> written (lit ")" ∷ [])
    visit-Ends (if_node line expr block else_block else_ifs) =
        written (lit "(if " ∷ [])
        >>> visit-Ends expr
        >>> deeper (written (lit "\n" ∷ []) >>> visit-Ends block)
        >>> written (lit ")" ∷ [])
        >>> visit_else_ifs-Ends else_ifs
        >>> when-Ends (is_node else_block) (
            written (lit "\n" ∷ [])
            >>> spaced
            >>> written (lit "(else\n" ∷ [])
            >>> deeper (visit-Ends else_block)
            >>> written (lit ")" ∷ []))
    visit-Ends (while_node line expr block) =
        written (lit "(while " ∷ [])
        >>> visit-Ends expr
        >>> deeper (written (lit "\n" ∷ []) >>> visit-Ends block)
        >>> written (lit ")" ∷ [])
    visit-Ends (return_node line expr) =
        written (lit "(return" ∷ [])
        >>> when-Ends (is_node expr)
            (deeper (written (lit "\n" ∷ []) >>> spaced >>> visit-Ends expr))
        >>> written (lit ")" ∷ [])
    visit-Ends (print_node line params) =
        written (lit "(print" ∷ []) >>> deeper (visit_lines-Ends params) >>> written (lit ")" ∷ [])
    visit-Ends (input_node line param) =
        written (lit "(input" ∷ []) >>> deeper (visit-Ends param) >>> written (lit ")" ∷ [])
    visit-Ends _ = skipped

    visit_stmts-Ends : (first : Bool) (ns : Nodes) → Quits (visit_stmts slots first ns)
    visit_stmts-Ends first nil = skipped
    visit_stmts-Ends first (cons n ns) =
        when-Ends (if first then false else true) (written (lit "\n" ∷ []))
        >>> spaced
        >>> visit-Ends n
        >>> broken_outside
        >>> visit_stmts-Ends false ns

    visit_lines-Ends : (ns : Nodes) → Quits (visit_lines slots ns)
    visit_lines-Ends nil = skipped
    visit_lines-Ends (cons n ns) =
        written (lit "\n" ∷ []) >>> spaced >>> visit-Ends n >>> visit_lines-Ends ns

    visit_dims-Ends : (ns : Nodes) → Quits (visit_dims slots ns)
    visit_dims-Ends nil = skipped
    visit_dims-Ends (cons (binary_op_node line op left right let_op) ns) =
        written (lit "\n" ∷ [])
        >>> spaced
        >>> visit-Ends left
        >>> when-Ends (is_node right)
            (written (lit "\n" ∷ []) >>> spaced >>> written (lit " = " ∷ []) >>> visit-Ends right)
        >>> visit_dims-Ends ns
    visit_dims-Ends (cons missing ns) = crashed null_pointer tt
    visit_dims-Ends (cons _ ns) = crashed bad_access tt

    visit_items-Ends : (ns : Nodes) → Quits (visit_items slots ns)
    visit_items-Ends nil = skipped
    visit_items-Ends (cons n ns) =
        spaced
        >>> visit-Ends n
        >>> when-Ends (is_filled ns) (written (lit "\n" ∷ []))
        >>> visit_items-Ends ns

    visit_pairs-Ends : (ns : Nodes) → Quits (visit_pairs slots ns)
    visit_pairs-Ends nil = skipped
    visit_pairs-Ends (cons (hash_pair_node line key val) ns) =
        spaced
        >>> visit-Ends key
        >>> written (lit ": " ∷ [])
        >>> visit-Ends val
        >>> written (lit "\n" ∷ [])
        >>> visit_pairs-Ends ns
    visit_pairs-Ends (cons missing ns) = crashed null_pointer tt
    visit_pairs-Ends (cons _ ns) = crashed bad_access tt

    visit_args-Ends : (ns : Nodes) → Quits (visit_args slots ns)
    visit_args-Ends nil = skipped
    visit_args-Ends (cons n ns) =
        visit-Ends n >>> when-Ends (is_filled ns) (written (lit " " ∷ [])) >>> visit_args-Ends ns

    visit_slots-Ends : (ps : Pairs) → Every EndsSlot (visit_slots slots ps)
    visit_slots-Ends no_pairs = tt
    visit_slots-Ends (pair slot n ps) = (visit-Ends n, visit_slots-Ends ps)

    visit_params-Ends : (ns : Nodes) → Quits (visit_params slots ns)
    visit_params-Ends nil = skipped
    visit_params-Ends (cons n ns) =
        written (lit "\n" ∷ []) >>> deeper (spaced >>> visit-Ends n) >>> visit_params-Ends ns

    visit_else_ifs-Ends : (ns : Nodes) → Quits (visit_else_ifs slots ns)
    visit_else_ifs-Ends nil = skipped
    visit_else_ifs-Ends (cons (if_node line expr block else_block else_ifs) ns) =
        written (lit "\n" ∷ [])
        >>> spaced
        >>> written (lit "(else if " ∷ [])
        >>> visit-Ends expr
        >>> deeper (written (lit "\n" ∷ []) >>> visit-Ends block)
        >>> written (lit ")" ∷ [])
        >>> visit_else_ifs-Ends ns
    visit_else_ifs-Ends (cons missing ns) = crashed null_pointer tt
    visit_else_ifs-Ends (cons _ ns) = crashed bad_access tt

  pub prettyprint-Ends :
      (node : Node) (p : Printer) → Leads IsReal Anything (prettyprint slots node p)
  unfolding prettyprint
  prettyprint-Ends node p = (visit-Ends node >>> written (lit "\n" ∷ [])).quits p
