-- ===== src/Codegen/Keeps/Operators.antt =====
-- The operators of src/codegen.c.
use ifj.Prelude.{
  and_then, ℕ, ◌+◌, ◌-◌, ◌≤◌, ◌≡◌, refl, ap, ◌∙◌, arith, [], ◌∷◌, some, ◌==◌, ==_iff, Bool-cases,
  inl, inr, null_pointer, bad_access, gives,
}
use ifj.Token.{
  Kind, op_plus, op_minus, op_mul, op_div, op_eq, op_neq, op_bit_and, op_bit_or, op_lnot,
}
use ifj.Codegen.Output.{
  jump_loop, jump_res_if, jump_res_if_rel, label_int2float, jump_int2float, label_cont, jump_cont,
  numbered,
}
use ifj.Codegen.State.{Gen, M, test}
use ifj.Codegen.Keeps.{
  loops, loops-append, Keeps, ◌>>>◌, skipped, crashed, tested, chosen, texted, counted, unrelated,
}
use ifj.Codegen.Operators.{
  spells, store_types, check_types, convert, jump_if, jump_back, emit_op, visit_unary_op, Right,
  null_right, binary_right, call_right, unary_right, other_right, assign_value, visit_operands,
  compare_less, visit_operation, visit_assign, visit_binary_op,
}

module _ {left right : M} (l : Keeps left) (r : Keeps right) where
  store_types-Keeps : Keeps (store_types left right)
  unfolding store_types
  store_types-Keeps = texted _ >>> l >>> texted _ >>> texted _ >>> r >>> texted _

  pub check_types-Keeps : Keeps (check_types left right)
  unfolding check_types
  check_types-Keeps = store_types-Keeps >>> texted _

convert-Keeps : (n : Gen → ℕ) {operand : M} → Keeps operand → Keeps (convert n operand)
unfolding convert loops
convert-Keeps n h =
    texted _
    >>> h
    >>> texted _
    >>> texted _
    >>> unrelated _ (λ g. refl)
    >>> counted jump_int2float _ (λ c k. refl)
    >>> unrelated _ (λ g. refl)
    >>> counted jump_cont _ (λ c k. refl)
    >>> counted label_int2float n (λ c k. refl)
    >>> texted _
    >>> h
    >>> texted _
    >>> h
    >>> texted _
    >>> counted label_cont _ (λ c k. refl)

pub jump_if-Keeps : Keeps jump_if
unfolding jump_if loops
jump_if-Keeps =
    tested _
      (counted jump_res_if (λ g. g.else_if_num) (λ c k. refl)
        >>> unrelated (λ g. record g { from_if = g.from_if - 1 }) (λ g. refl))
      skipped

loops-jump : (c n : ℕ) → 1 ≤ n → n ≤ c → loops c (numbered jump_loop n ∷ []) ≡ some c
unfolding loops
loops-jump c n h k = ground arith

-- A jump back is due, so its loop is there.
pub jump_back-Keeps : Keeps jump_back
unfolding jump_back
jump_back-Keeps = record {
  keeps = λ g s. elim (Bool-cases (g.from_loop == 1)) [
    | inl e ↦
        rw (e, test)
          (gives (record {
            sound = record {
              numbers =
                  loops-append 0 g.out (numbered jump_loop g.loop_num ∷ [])
                  ∙ ap (λ o. and_then o λ d. loops d (numbered jump_loop g.loop_num ∷ [])) s.numbers
                  ∙ loops-jump g.mem_loop_num g.loop_num
                      (omega (arith, (==_iff g.from_loop 1).0 e, s.due)) s.labels;
              due = omega (arith, s.due);
              labels = omega (arith, s.labels);
            };
            jumps = omega (arith, (==_iff g.from_loop 1).0 e, s.due);
            grows = omega arith;
            same_scope = refl;
            same_params = refl;
            same_func = refl;
            same_dim = refl;
          }))
    | inr e ↦ rw (e, test) (skipped.keeps g s)
  ];
}

module _ {left right : M} (l : Keeps left) (r : Keeps right) where
  pub emit_op-Keeps : (op : Kind) → Keeps (emit_op op left right)
  unfolding emit_op
  emit_op-Keeps op_plus = check_types-Keeps l r >>> texted _
  emit_op-Keeps op_minus = check_types-Keeps l r >>> texted _
  emit_op-Keeps op_mul = check_types-Keeps l r >>> texted _
  emit_op-Keeps op_div =
      unrelated (λ g. record g { int2float = 0; label_cont_num = 0 }) (λ g. refl)
      >>> convert-Keeps (λ g. g.int2float) l
      >>> convert-Keeps (λ g. g.label_cont_num) r
      >>> texted _
  emit_op-Keeps op_eq = check_types-Keeps l r >>> texted _ >>> jump_if-Keeps >>> jump_back-Keeps
  emit_op-Keeps op_neq = check_types-Keeps l r >>> texted _ >>> jump_if-Keeps
  emit_op-Keeps op_bit_and = texted _
  emit_op-Keeps op_bit_or = texted _
  emit_op-Keeps op_lnot = texted _
  emit_op-Keeps _ = skipped

  assign_value-Keeps : Keeps (assign_value left right)
  unfolding assign_value loops
  assign_value-Keeps =
      tested _
        (check_types-Keeps l r
          >>> texted _
          >>> counted jump_res_if (λ g. g.else_if_num) (λ c k. refl)
          >>> r
          >>> texted _
          >>> l
          >>> texted _
          >>> unrelated (λ g. record g { from_if = g.from_if - 1 }) (λ g. refl))
        (texted _ >>> l >>> texted _ >>> r >>> texted _)

  pub visit_operands-Keeps : Keeps (visit_operands left right)
  unfolding visit_operands
  visit_operands-Keeps =
      unrelated (λ g. record g { bin_op = g.bin_op + 1 }) (λ g. refl)
      >>> r
      >>> l
      >>> texted _
      >>> unrelated (λ g. record g { bin_op = g.bin_op + 1 }) (λ g. refl)
      >>> r

  compare_less-Keeps : Keeps (compare_less left right)
  unfolding compare_less loops
  compare_less-Keeps =
      check_types-Keeps l r
      >>> texted _
      >>> texted _
      >>> l
      >>> texted _
      >>> r
      >>> texted _
      >>> counted jump_res_if_rel (λ g. g.else_if_num) (λ c k. refl)
      >>> texted _
      >>> texted _

  pub visit_operation-Keeps : (op : Kind) → Keeps (visit_operation op left right)
  unfolding visit_operation
  visit_operation-Keeps op =
      chosen _
        (tested _ (emit_op-Keeps op) (
          tested _
            (l
              >>> texted _
              >>> r
              >>> texted _
              >>> unrelated (λ g. record g { bin_op = g.bin_op - 2 }) (λ g. refl))
            visit_operands-Keeps))
        (chosen _ (emit_op-Keeps op >>> l >>> texted _ >>> r >>> texted _)
          (chosen _ compare_less-Keeps visit_operands-Keeps))

  pub visit_assign-Keeps :
      (k : Right) {others : M} → Keeps others → Keeps (visit_assign k left right others)
  unfolding visit_assign
  visit_assign-Keeps null_right h = crashed null_pointer tt
  visit_assign-Keeps binary_right h = h
  visit_assign-Keeps call_right h = r >>> texted _ >>> texted _ >>> l >>> texted _
  visit_assign-Keeps unary_right h =
      r
      >>> unrelated (λ g. record g { not_num = g.not_num + 1 }) (λ g. refl)
      >>> l
      >>> texted _
      >>> r
      >>> texted _
  visit_assign-Keeps other_right h = assign_value-Keeps

  pub visit_binary_op-Keeps : (op : Kind) (k : Right) → Keeps (visit_binary_op op k left right)
  unfolding visit_binary_op
  visit_binary_op-Keeps op k =
      chosen _ (visit_assign-Keeps k (visit_operation-Keeps op)) (visit_operation-Keeps op)

pub visit_unary_op-Keeps : (op : Kind) {expr : M} → Keeps expr → Keeps (visit_unary_op op expr)
unfolding visit_unary_op
visit_unary_op-Keeps op h =
    chosen (spells op "not")
      (tested (λ g. g.not_num == 0)
        (unrelated (λ g. record g { not_num = g.not_num + 1 }) (λ g. refl)
          >>> emit_op-Keeps h (crashed bad_access tt) op)
        (tested (λ g. g.not_num == 2) (h >>> unrelated (λ g. record g { not_num = 0 }) (λ g. refl))
          skipped))
      (chosen (spells op "-")
        (tested (λ g. g.not_num == 0)
          (unrelated (λ g. record g { not_num = g.not_num + 1 }) (λ g. refl)
            >>> tested (λ g. g.from_dim == 1) skipped (texted "MOVE "))
          (tested (λ g. g.not_num == 2)
            (unrelated (λ g. record g { from_minus = g.from_minus + 1 }) (λ g. refl)
              >>> h
              >>> unrelated (λ g. record g { not_num = 0 }) (λ g. refl))
            skipped))
        skipped)
