-- ===== src/Printer/Prints.antt =====
-- The visitors of src/prettyprint.c on the trees that they print.
use ifj.Prelude.{refl, arith, Bool, true, false, List, [], ◌∷◌, Bytes}
use ifj.Ast.{
  Node, Nodes, Pairs, missing, block_node, args_node, subscript_node, slot_node, unary_op_node,
  binary_op_node, int_node, double_node, id_node, decl_node, dim_node, string_node, array_node,
  hash_pair_node, hash_node, call_node, scope_node, declare_node, function_node, type_node, if_node,
  while_node, return_node, print_node, input_node, nil, cons, no_pairs, pair, is_node,
}
use ifj.Printer.Inspect.{inspect}
use ifj.Printer.Output.{lit, str, dec, real, M}
use ifj.Printer.Brackets.{Every, PrintsSlot, level, leaf-Prints}
use ifj.Printer.Pieces.{
  visit_subscript-Prints, visit_slot-Prints, visit_unary_op-Prints, visit_binary_op-Prints,
  visit_decl-Prints, visit_item-Prints, visit_dim-Prints, visit_array-Prints, visit_hash-Prints,
  visit_print-Prints, visit_input-Prints, visit_type-Prints, visit_pair-Prints, visit_call-Prints,
  print_args-Prints, visit_scope-Prints, visit_declare-Prints, visit_function-Prints,
  visit_while-Prints, visit_return-Prints, visit_else_if-Prints, visit_if-Prints, visit_stmt-Prints,
  own_line-Prints,
}
use ifj.Printer.Visit.{
  is_filled, visit, visit_stmts, visit_lines, visit_dims, visit_items, visit_pairs, visit_args,
  visit_slots, visit_params, visit_else_ifs, prettyprint,
}
use ifj.Printer.Balance.{brackets, Prints, ◌>>>◌, skipped, when-Prints, spaced, deeper}
use ifj.Printer.Printable.{IsPrintable, ArePrintable, AreDims, ArePairs, AreSlots, AreElseIfs}

-- The table's order has the entries of the table and no others.
module _ (slots : (A : Type 0) → List (Bytes × A) → List (Bytes × A))
    (slots_keep : (P : Bytes × M → Type 0) (entries : List (Bytes × M))
      → Every P entries
      → Every P (slots M entries)) where
  mutual
    unfolding visit brackets

    pub visit-Prints : (node : Node) → IsPrintable node → Prints 0 0 (visit slots node)
    visit-Prints missing h = elim h [ ]
    visit-Prints (block_node line stmts) h = visit_stmts-Prints true stmts h
    visit-Prints (args_node line vec hash) h = skipped
    visit-Prints (subscript_node line left right) h =
        visit_subscript-Prints (visit-Prints left h.0) (visit-Prints right h.1)
    visit-Prints (slot_node line left right) h =
        visit_slot-Prints (visit-Prints left h.0) (visit-Prints right h.1)
    visit-Prints (unary_op_node line op expr postfix) h =
        visit_unary_op-Prints postfix op (visit-Prints expr h)
    visit-Prints (binary_op_node line op left right let_op) h =
        visit_binary_op-Prints let_op op (visit-Prints left h.0) (visit-Prints right h.1)
    visit-Prints (int_node line val) h = leaf-Prints "(int " (dec val) ")" (λ d. ground arith)
    visit-Prints (double_node line val) h =
        leaf-Prints "(double " (real val) ")" (λ d. ground arith)
    visit-Prints (id_node line val) h = leaf-Prints "(id " (str val) ")" (λ d. ground arith)
    visit-Prints (string_node line val) h =
        leaf-Prints "(string '" (str (inspect val)) "')" (λ d. ground arith)
    visit-Prints (decl_node line vec type) h =
        visit_decl-Prints (is_node type) (visit_lines-Prints vec h.0)
          (λ e. visit-Prints type (h.1 e))
    visit-Prints (dim_node line vec) h = visit_dim-Prints (visit_dims-Prints vec h)
    visit-Prints (array_node line vals) h = visit_array-Prints (visit_items-Prints vals h)
    visit-Prints (hash_pair_node line key val) h = skipped
    visit-Prints (hash_node line pairs) h = visit_hash-Prints (visit_pairs-Prints pairs h)
    visit-Prints (call_node line expr (args_node line' vec hash)) h =
        visit_call-Prints (visit-Prints expr h.0) (
          print_args-Prints (is_filled vec) _ λ e. (
            visit_args-Prints vec (h.1 e).0,
            slots_keep PrintsSlot _ (visit_slots-Prints hash (h.1 e).1),
          ))
    visit-Prints (call_node line expr _) h = elim h [ ]
    visit-Prints (scope_node line block) h = visit_scope-Prints (visit-Prints block h)
    visit-Prints (declare_node line name type params) h =
        visit_declare-Prints name (is_node type) (λ e. visit-Prints type (h.0 e))
          (visit_params-Prints params h.1)
    visit-Prints (function_node line name type block params) h =
        visit_function-Prints name (is_node type) (λ e. visit-Prints type (h.0 e))
          (visit_lines-Prints params h.1) (visit-Prints block h.2)
    visit-Prints (type_node line name fields) h =
        visit_type-Prints name (visit_lines-Prints fields h)
    visit-Prints (if_node line expr block else_block else_ifs) h =
        visit_if-Prints (is_node else_block) (visit-Prints expr h.0) (visit-Prints block h.1)
          (visit_else_ifs-Prints else_ifs h.2) (λ e. visit-Prints else_block (h.3 e))
    visit-Prints (while_node line expr block) h =
        visit_while-Prints (visit-Prints expr h.0) (visit-Prints block h.1)
    visit-Prints (return_node line expr) h =
        visit_return-Prints (is_node expr) (λ e. visit-Prints expr (h e))
    visit-Prints (print_node line params) h = visit_print-Prints (visit_lines-Prints params h)
    visit-Prints (input_node line param) h = visit_input-Prints (visit-Prints param h)

    visit_stmts-Prints :
        (first : Bool) (ns : Nodes) → ArePrintable ns → Prints 0 0 (visit_stmts slots first ns)
    visit_stmts-Prints first nil h = skipped
    visit_stmts-Prints first (cons n ns) h =
        visit_stmt-Prints first (visit-Prints n h.0) >>> visit_stmts-Prints false ns h.1

    visit_lines-Prints : (ns : Nodes) → ArePrintable ns → Prints 0 0 (visit_lines slots ns)
    visit_lines-Prints nil h = skipped
    visit_lines-Prints (cons n ns) h =
        own_line-Prints (visit-Prints n h.0) >>> visit_lines-Prints ns h.1

    visit_dims-Prints : (ns : Nodes) → AreDims ns → Prints 0 0 (visit_dims slots ns)
    visit_dims-Prints nil h = skipped
    visit_dims-Prints (cons (binary_op_node line op left right let_op) ns) h =
        visit_item-Prints (is_node right) (visit-Prints left h.0) (λ e. visit-Prints right (h.1 e))
        >>> visit_dims-Prints ns h.2
    visit_dims-Prints (cons _ ns) h = elim h [ ]

    visit_items-Prints : (ns : Nodes) → ArePrintable ns → Prints 0 0 (visit_items slots ns)
    visit_items-Prints nil h = skipped
    visit_items-Prints (cons n ns) h =
        spaced
        >>> visit-Prints n h.0
        >>> when-Prints (is_filled ns) (λ e. level (lit "\n" ∷ []) (λ d. refl))
        >>> visit_items-Prints ns h.1

    visit_pairs-Prints : (ns : Nodes) → ArePairs ns → Prints 0 0 (visit_pairs slots ns)
    visit_pairs-Prints nil h = skipped
    visit_pairs-Prints (cons (hash_pair_node line key val) ns) h =
        visit_pair-Prints (visit-Prints key h.0) (visit-Prints val h.1)
        >>> visit_pairs-Prints ns h.2
    visit_pairs-Prints (cons _ ns) h = elim h [ ]

    visit_args-Prints : (ns : Nodes) → ArePrintable ns → Prints 0 0 (visit_args slots ns)
    visit_args-Prints nil h = skipped
    visit_args-Prints (cons n ns) h =
        visit-Prints n h.0
        >>> when-Prints (is_filled ns) (λ e. level (lit " " ∷ []) (λ d. refl))
        >>> visit_args-Prints ns h.1

    visit_slots-Prints : (ps : Pairs) → AreSlots ps → Every PrintsSlot (visit_slots slots ps)
    visit_slots-Prints no_pairs h = tt
    visit_slots-Prints (pair slot n ps) h = (visit-Prints n h.0, visit_slots-Prints ps h.1)

    visit_params-Prints : (ns : Nodes) → ArePrintable ns → Prints 0 0 (visit_params slots ns)
    visit_params-Prints nil h = skipped
    visit_params-Prints (cons n ns) h =
        level (lit "\n" ∷ []) (λ d. refl)
        >>> deeper (spaced >>> visit-Prints n h.0)
        >>> visit_params-Prints ns h.1

    visit_else_ifs-Prints : (ns : Nodes) → AreElseIfs ns → Prints 0 0 (visit_else_ifs slots ns)
    visit_else_ifs-Prints nil h = skipped
    visit_else_ifs-Prints (cons (if_node line expr block else_block else_ifs) ns) h =
        visit_else_if-Prints (visit-Prints expr h.0) (visit-Prints block h.1)
        >>> visit_else_ifs-Prints ns h.2
    visit_else_ifs-Prints (cons _ ns) h = elim h [ ]

  -- A tree with no NULL pointer where the printer visits one is printed: the call succeeds, leaves
  -- the indentation as it found it, and appends text that depends on the tree and the
  -- indentation alone, in whose format strings every bracket that is opened is closed again.
  pub prettyprint-Prints : (node : Node) → IsPrintable node → Prints 0 0 (prettyprint slots node)
  unfolding prettyprint brackets
  prettyprint-Prints node h = visit-Prints node h >>> level (lit "\n" ∷ []) (λ d. refl)
