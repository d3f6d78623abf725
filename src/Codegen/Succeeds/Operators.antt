-- ===== src/Codegen/Succeeds/Operators.antt =====
-- The operators of src/codegen.c, where the visits of the operands succeed.
use ifj.Prelude.{ℕ, ◌+◌, ◌-◌, ◌≡◌, sym, true, false, List, [], ◌∷◌, ◌==◌, bad_access, same}
use ifj.Token.{
  Kind, is_one_of, ordinal, spelling, op_plus, op_minus, op_mul, op_div, op_eq, op_neq, op_bit_and,
  op_bit_or, op_lnot,
}
use ifj.Codegen.Output.{
  jump_loop, jump_res_if, jump_res_if_rel, label_int2float, jump_int2float, label_cont, jump_cont,
}
use ifj.Codegen.State.{Gen, M, crash}
use ifj.Codegen.Succeeds.{
  Succeeds, ◌>>>◌, skipped, changed, texted, counted, tested, chosen, either,
}
use ifj.Codegen.Operators.{
  spells, store_types, check_types, convert, jump_if, jump_back, emit_op, visit_unary_op, Right,
  null_right, binary_right, call_right, unary_right, other_right, assign_value, visit_operands,
  compare_less, visit_operation, visit_assign, visit_binary_op,
}

-- The operators whose code visits the operands.
abbrev pub operand_ops : List Kind
operand_ops = op_plus ∷ op_minus ∷ op_mul ∷ op_div ∷ op_eq ∷ op_neq ∷ []

clash : true ≡ false → ⊥
clash h = cc

pub emit_op-bare :
    (op : Kind) (left right : M)
    → is_one_of operand_ops op ≡ false
    → Succeeds (emit_op op left right)
unfolding emit_op ordinal
emit_op-bare op_plus l r h = absurd (clash h)
emit_op-bare op_minus l r h = absurd (clash h)
emit_op-bare op_mul l r h = absurd (clash h)
emit_op-bare op_div l r h = absurd (clash h)
emit_op-bare op_eq l r h = absurd (clash h)
emit_op-bare op_neq l r h = absurd (clash h)
emit_op-bare op_bit_and l r h = texted _
emit_op-bare op_bit_or l r h = texted _
emit_op-bare op_lnot l r h = texted _
emit_op-bare _ l r h = skipped

emit_op-not :
    (op : Kind) (left right : M) → spells op "not" ≡ true → Succeeds (emit_op op left right)
unfolding emit_op spelling same
emit_op-not op_plus l r h = absurd (clash (sym h))
emit_op-not op_minus l r h = absurd (clash (sym h))
emit_op-not op_mul l r h = absurd (clash (sym h))
emit_op-not op_div l r h = absurd (clash (sym h))
emit_op-not op_eq l r h = absurd (clash (sym h))
emit_op-not op_neq l r h = absurd (clash (sym h))
emit_op-not op_bit_and l r h = texted _
emit_op-not op_bit_or l r h = texted _
emit_op-not op_lnot l r h = texted _
emit_op-not _ l r h = skipped

-- A right operand that is there.
abbrev pub IsGiven : Right → Type 0
IsGiven null_right = ⊥
IsGiven _ = Unit

module _ {left right : M} (l : Succeeds left) (r : Succeeds right) where
  store_types-Succeeds : Succeeds (store_types left right)
  unfolding store_types
  store_types-Succeeds = texted _ >>> l >>> texted _ >>> texted _ >>> r >>> texted _

  pub check_types-Succeeds : Succeeds (check_types left right)
  unfolding check_types
  check_types-Succeeds = store_types-Succeeds >>> texted _

convert-Succeeds : (n : Gen → ℕ) {operand : M} → Succeeds operand → Succeeds (convert n operand)
unfolding convert
convert-Succeeds n h =
    texted _
    >>> h
    >>> texted _
    >>> texted _
    >>> changed _
    >>> counted jump_int2float _
    >>> changed _
    >>> counted jump_cont _
    >>> counted label_int2float n
    >>> texted _
    >>> h
    >>> texted _
    >>> h
    >>> texted _
    >>> counted label_cont _

pub jump_if-Succeeds : Succeeds jump_if
unfolding jump_if
jump_if-Succeeds =
    tested _
      (counted jump_res_if (λ g. g.else_if_num)
        >>> changed (λ g. record g { from_if = g.from_if - 1 }))
      skipped

pub jump_back-Succeeds : Succeeds jump_back
unfolding jump_back
jump_back-Succeeds =
    tested _
      (counted jump_loop (λ g. g.loop_num)
        >>> changed (λ g. record g { loop_num = g.loop_num - 1 })
        >>> changed (λ g. record g { from_loop = g.from_loop - 1 }))
      skipped

module _ {left right : M} (l : Succeeds left) (r : Succeeds right) where
  pub emit_op-Succeeds : (op : Kind) → Succeeds (emit_op op left right)
  unfolding emit_op
  emit_op-Succeeds op_plus = check_types-Succeeds l r >>> texted _
  emit_op-Succeeds op_minus = check_types-Succeeds l r >>> texted _
  emit_op-Succeeds op_mul = check_types-Succeeds l r >>> texted _
  emit_op-Succeeds op_div =
      changed (λ g. record g { int2float = 0; label_cont_num = 0 })
      >>> convert-Succeeds (λ g. g.int2float) l
      >>> convert-Succeeds (λ g. g.label_cont_num) r
      >>> texted _
  emit_op-Succeeds op_eq =
      check_types-Succeeds l r >>> texted _ >>> jump_if-Succeeds >>> jump_back-Succeeds
  emit_op-Succeeds op_neq = check_types-Succeeds l r >>> texted _ >>> jump_if-Succeeds
  emit_op-Succeeds op_bit_and = texted _
  emit_op-Succeeds op_bit_or = texted _
  emit_op-Succeeds op_lnot = texted _
  emit_op-Succeeds _ = skipped

  assign_value-Succeeds : Succeeds (assign_value left right)
  unfolding assign_value
  assign_value-Succeeds =
      tested _
        (check_types-Succeeds l r
          >>> texted _
          >>> counted jump_res_if (λ g. g.else_if_num)
          >>> r
          >>> texted _
          >>> l
          >>> texted _
          >>> changed (λ g. record g { from_if = g.from_if - 1 }))
        (texted _ >>> l >>> texted _ >>> r >>> texted _)

  pub visit_operands-Succeeds : Succeeds (visit_operands left right)
  unfolding visit_operands
  visit_operands-Succeeds =
      changed (λ g. record g { bin_op = g.bin_op + 1 })
      >>> r
      >>> l
      >>> texted _
      >>> changed (λ g. record g { bin_op = g.bin_op + 1 })
      >>> r

  compare_less-Succeeds : Succeeds (compare_less left right)
  unfolding compare_less
  compare_less-Succeeds =
      check_types-Succeeds l r
      >>> texted _
      >>> texted _
      >>> l
      >>> texted _
      >>> r
      >>> texted _
      >>> counted jump_res_if_rel (λ g. g.else_if_num)
      >>> texted _
      >>> texted _

  pub visit_operation-Succeeds : (op : Kind) → Succeeds (visit_operation op left right)
  unfolding visit_operation
  visit_operation-Succeeds op =
      either _
        (tested _ (emit_op-Succeeds op) (
          tested _
            (l
              >>> texted _
              >>> r
              >>> texted _
              >>> changed (λ g. record g { bin_op = g.bin_op - 2 }))
            visit_operands-Succeeds))
        (either _ (emit_op-Succeeds op >>> l >>> texted _ >>> r >>> texted _)
          (either _ compare_less-Succeeds visit_operands-Succeeds))

  pub visit_assign-Succeeds :
      (k : Right) {others : M}
      → IsGiven k
      → Succeeds others
      → Succeeds (visit_assign k left right others)
  unfolding visit_assign
  visit_assign-Succeeds null_right g h = absurd g
  visit_assign-Succeeds binary_right g h = h
  visit_assign-Succeeds call_right g h = r >>> texted _ >>> texted _ >>> l >>> texted _
  visit_assign-Succeeds unary_right g h =
      r
      >>> changed (λ g. record g { not_num = g.not_num + 1 })
      >>> l
      >>> texted _
      >>> r
      >>> texted _
  visit_assign-Succeeds other_right g h = assign_value-Succeeds

  pub visit_binary_op-Succeeds :
      (op : Kind) (k : Right) → IsGiven k → Succeeds (visit_binary_op op k left right)
  unfolding visit_binary_op
  visit_binary_op-Succeeds op k g =
      either _ (visit_assign-Succeeds k g (visit_operation-Succeeds op))
        (visit_operation-Succeeds op)

pub visit_unary_op-Succeeds :
    (op : Kind) {expr : M} → Succeeds expr → Succeeds (visit_unary_op op expr)
unfolding visit_unary_op
visit_unary_op-Succeeds op {expr} h =
    chosen (spells op "not")
      (λ e.
        tested (λ g. g.not_num == 0)
          (changed (λ g. record g { not_num = g.not_num + 1 })
            >>> emit_op-not op expr (crash bad_access) e)
          (tested (λ g. g.not_num == 2) (h >>> changed (λ g. record g { not_num = 0 })) skipped))
      (λ e.
        either (spells op "-")
          (tested (λ g. g.not_num == 0)
            (changed (λ g. record g { not_num = g.not_num + 1 })
              >>> tested (λ g. g.from_dim == 1) skipped (texted "MOVE "))
            (tested (λ g. g.not_num == 2)
              (changed (λ g. record g { from_minus = g.from_minus + 1 })
                >>> h
                >>> changed (λ g. record g { not_num = 0 }))
              skipped))
          skipped)
