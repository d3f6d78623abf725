-- ===== src/Codegen/Succeeds/Statements.antt =====
-- The other visitors of src/codegen.c, where the visits of the children succeed.
use ifj.Prelude.{
  bad_access, ℕ, ◌+◌, ◌-◌, ◌≡◌, refl, Bool, true, false, ◌||◌, ◌&&◌, [], ◌∷◌, Bytes, Option, none,
  some, ◌==◌, not,
}
use ifj.Token.{Kind, IntValue, Double, is_one_of}
use ifj.Codegen.Output.{
  label_loop, label_res_if, label_else, jump_else, label_end, jump_end, lit, str, dec, short,
}
use ifj.Codegen.State.{M, crash}
use ifj.Codegen.Succeeds.{
  Succeeds, ◌>>>◌, skipped, changed, texted, printed, counted, tested, chosen, either,
}
use ifj.Codegen.Succeeds.Operators.{operand_ops, emit_op-bare}
use ifj.Codegen.Visitors.{
  visit_int, visit_double, break_args, emit_address, visit_id, visit_name, visit_call, in_scope,
  in_params, in_func, in_dim, visit_scope, count_locals, visit_item, visit_function, visit_while,
  visit_return, visit_condition, visit_branch, visit_branches, visit_if,
}

-- What is read as an operator is none whose code visits operands.
abbrev pub is_harmless : Option Kind → Bool
is_harmless none = true
is_harmless (some op) = not (is_one_of operand_ops op)

pub visit_int-Succeeds : (val : IntValue) → Succeeds (visit_int val)
unfolding visit_int
visit_int-Succeeds val =
    tested (λ g. g.from_return == 1)
      (texted "PUSHS "
        >>> printed (lit "int@" ∷ dec val ∷ [])
        >>> changed (λ g. record g { from_return = g.from_return - 1 }))
      (tested (λ g. g.from_minus == 1)
        (printed (lit "int@-" ∷ dec val ∷ [])
          >>> changed (λ g. record g { from_minus = g.from_minus - 1 }))
        (printed (lit "int@" ∷ dec val ∷ [])))

pub visit_double-Succeeds : (val : Double) → Succeeds (visit_double val)
unfolding visit_double
visit_double-Succeeds val =
    tested (λ g. g.from_minus == 1)
      (printed (lit "float@-" ∷ short val ∷ [])
        >>> changed (λ g. record g { from_minus = g.from_minus - 1 }))
      (printed (lit "float@" ∷ short val ∷ []))

pub break_args-Succeeds : Succeeds break_args
unfolding break_args
break_args-Succeeds = tested (λ g. g.args == 0) skipped (texted "\n")

not-true : (b : Bool) → not b ≡ true → b ≡ false
not-true true h = cc
not-true false h = refl

emit_address-Succeeds :
    (address : Option Kind) → is_harmless address ≡ true → Succeeds (emit_address address)
unfolding emit_address
emit_address-Succeeds none h = skipped
emit_address-Succeeds (some op) h =
    emit_op-bare op (crash bad_access) (crash bad_access) (not-true _ h)

pub visit_id-Succeeds :
    (address : Option Kind) (val : Bytes)
    → is_harmless address ≡ true
    → Succeeds (visit_id address val)
unfolding visit_id
visit_id-Succeeds address val i =
    emit_address-Succeeds address i
    >>> tested (λ g. g.from_call == 1)
        (printed (str val ∷ []) >>> changed (λ g. record g { from_call = g.from_call - 1 }))
        (tested (λ g. g.from_func == 1 && g.from_return == 0)
          (printed (lit "TF@" ∷ str val ∷ []) >>> break_args-Succeeds)
          (tested (λ g. g.from_return == 1)
            (texted "PUSHS "
              >>> printed (lit "TF@" ∷ str val ∷ [])
              >>> changed (λ g. record g { from_return = g.from_return - 1 }))
            (printed (lit "GF@" ∷ str val ∷ []) >>> break_args-Succeeds)))

pub visit_name-Succeeds : {name : M} → Succeeds name → Succeeds (visit_name name)
unfolding visit_name
visit_name-Succeeds h =
    tested (λ g. g.params == 1)
      (texted "DEFVAR " >>> h >>> texted "\n" >>> texted "POPS " >>> h >>> texted "\n")
      (tested (λ g. g.from_dim == 1) (h >>> texted " ") (texted "DEFVAR " >>> h >>> texted "\n"))

pub visit_call-Succeeds :
    (count : ℕ) {arguments expr : M}
    → ((count == 0) ≡ false → Succeeds arguments)
    → Succeeds expr
    → Succeeds (visit_call count arguments expr)
unfolding visit_call
visit_call-Succeeds count a e =
    changed (λ g. record g { args = count })
    >>> chosen (count == 0) (λ e. skipped)
        (λ e. texted "PUSHS " >>> a e >>> changed (λ g. record g { args = 0 }))
    >>> tested (λ g. g.scope == 1)
        (texted "CALL " >>> changed (λ g. record g { from_call = g.from_call + 1 }) >>> e)
        (texted "PUSHFRAME\n")
    >>> tested (λ g. g.scope == 1) skipped (texted "\nPOPFRAME")

pub in_scope-Succeeds : {m : M} → Succeeds m → Succeeds (in_scope m)
in_scope-Succeeds h =
    changed (λ g. record g { scope = g.scope + 1 })
    >>> h
    >>> changed (λ g. record g { scope = g.scope - 1 })

pub in_params-Succeeds : {m : M} → Succeeds m → Succeeds (in_params m)
in_params-Succeeds h =
    changed (λ g. record g { params = g.params + 1 })
    >>> h
    >>> changed (λ g. record g { params = g.params - 1 })

pub in_func-Succeeds : {m : M} → Succeeds m → Succeeds (in_func m)
in_func-Succeeds h =
    changed (λ g. record g { from_func = g.from_func + 1 })
    >>> h
    >>> changed (λ g. record g { from_func = g.from_func - 1 })

pub in_dim-Succeeds : {m : M} → Succeeds m → Succeeds (in_dim m)
in_dim-Succeeds h =
    changed (λ g. record g { from_dim = g.from_dim + 1 })
    >>> h
    >>> changed (λ g. record g { from_dim = g.from_dim - 1 })

pub visit_scope-Succeeds : {block : M} → Succeeds block → Succeeds (visit_scope block)
unfolding visit_scope
visit_scope-Succeeds h = texted _ >>> texted _ >>> texted _ >>> in_scope-Succeeds h >>> texted _

pub count_locals-Succeeds : Succeeds count_locals
unfolding count_locals
count_locals-Succeeds =
    tested (λ g. g.from_func == 1) (changed (λ g. record g { loc_var = g.loc_var + 1 })) skipped

pub visit_item-Succeeds :
    (given : Bool) {left right : M}
    → Succeeds left
    → (given ≡ true → Succeeds right)
    → Succeeds (visit_item given left right)
unfolding visit_item
visit_item-Succeeds given l r =
    l
    >>> chosen given
        (λ e. in_dim-Succeeds (
          texted "MOVE "
          >>> l
          >>> r e
          >>> changed (λ g. record g { not_num = g.not_num + 1 })
          >>> r e))
        (λ e. skipped)

pub visit_function-Succeeds :
    (name : Bytes) {parameters block : M}
    → Succeeds parameters
    → Succeeds block
    → Succeeds (visit_function name parameters block)
unfolding visit_function
visit_function-Succeeds name p b =
    in_func-Succeeds (
      texted "LABEL "
      >>> printed (str name ∷ lit "\n" ∷ [])
      >>> texted "CREATEFRAME \n"
      >>> p
      >>> b)

pub visit_return-Succeeds :
    (given : Bool) {expr : M} → (given ≡ true → Succeeds expr) → Succeeds (visit_return given expr)
unfolding visit_return
visit_return-Succeeds given h =
    chosen given
      (λ e. changed (λ g. record g { from_return = g.from_return + 1 }) >>> h e >>> texted " \n")
      (λ e. skipped)
    >>> texted "RETURN\n"

pub visit_while-Succeeds :
    {expr block : M} → Succeeds expr → Succeeds block → Succeeds (visit_while expr block)
unfolding visit_while
visit_while-Succeeds x b =
    changed (λ g. record g { loop_num = g.mem_loop_num })
    >>> changed (λ g. record g { loop_num = g.loop_num + 1 })
    >>> counted label_loop (λ g. g.loop_num)
    >>> changed (λ g. record g { mem_loop_num = g.mem_loop_num + 1 })
    >>> b
    >>> changed (λ g. record g { from_loop = g.from_loop + 1 })
    >>> x

pub visit_condition-Succeeds : {expr : M} → Succeeds expr → Succeeds (visit_condition expr)
unfolding visit_condition
visit_condition-Succeeds h =
    changed (λ g. record g { from_if = g.from_if + 1 })
    >>> changed (λ g. record g { else_if_num = g.else_if_num + 1 })
    >>> h

pub visit_branch-Succeeds :
    (number : ℕ) {block : M} → Succeeds block → Succeeds (visit_branch number block)
unfolding visit_branch
visit_branch-Succeeds number h =
    counted label_res_if (λ g. number) >>> h >>> counted jump_end (λ g. g.end_if_num)

pub visit_branches-Succeeds :
    (number : ℕ) (has_else has_else_ifs : Bool) {block : M} {blocks : ℕ → M} {else_block : M}
    → Succeeds block
    → ((n : ℕ) → Succeeds (blocks n))
    → (has_else ≡ true → Succeeds else_block)
    → Succeeds (visit_branches number has_else has_else_ifs block blocks else_block)
unfolding visit_branches
visit_branches-Succeeds number has_else has_else_ifs b bs e =
    either has_else
      (changed (λ g. record g { else_num = g.else_num + 1 })
        >>> counted jump_else (λ g. g.else_num))
      skipped
    >>> either (has_else || has_else_ifs) skipped (counted jump_end (λ g. g.end_if_num))
    >>> visit_branch-Succeeds (number + 1) b
    >>> bs (number + 1)
    >>> chosen has_else
        (λ y. counted label_else (λ g. g.else_num) >>> e y >>> counted jump_end (λ g. g.end_if_num))
        (λ y. skipped)
    >>> counted label_end (λ g. g.end_if_num)

pub visit_if-Succeeds :
    {expr conditions : M} (has_else has_else_ifs : Bool) {block : M} {blocks : ℕ → M}
    {else_block : M}
    → Succeeds expr
    → Succeeds conditions
    → Succeeds block
    → ((n : ℕ) → Succeeds (blocks n))
    → (has_else ≡ true → Succeeds else_block)
    → Succeeds (visit_if expr conditions has_else has_else_ifs block blocks else_block)
unfolding visit_if
visit_if-Succeeds has_else has_else_ifs x cs b bs e = record {
  succeeds = λ g.
      (changed (λ g. record g { else_if_num = g.else_if_num + 1 })
          >>> changed (λ g. record g { from_if = g.from_if + 1 })
          >>> changed (λ g. record g { end_if_num = g.end_if_num + 1 })
          >>> x
          >>> cs
          >>> visit_branches-Succeeds g.else_if_num has_else has_else_ifs b bs e).succeeds
        g;
}
