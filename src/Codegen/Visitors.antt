-- ===== src/Codegen/Visitors.antt =====
-- The other visitors of src/codegen.c. The visits of a node's children are arguments.
use ifj.Prelude.{
  ℕ, ◌+◌, ◌-◌, Bool, ◌&&◌, ◌||◌, [], ◌∷◌, Bytes, Option, none, some, ◌==◌, if◌then◌else◌,
  bad_access,
}
use ifj.Token.{Kind, IntValue, Double}
use ifj.Codegen.Output.{
  label_loop, label_res_if, label_else, jump_else, label_end, jump_end, lit, str, dec, short,
}
use ifj.Codegen.State.{M, ◌>>◌, skip, crash, modify, test, print, text, print_num}
use ifj.Codegen.Operators.{emit_op}

-- `visit_int`
unfoldable pub visit_int : IntValue → M
visit_int val =
    test (λ g. g.from_return == 1)
      (text "PUSHS "
        >> print (lit "int@" ∷ dec val ∷ [])
        >> modify (λ g. record g { from_return = g.from_return - 1 }))
      (test (λ g. g.from_minus == 1)
        (print (lit "int@-" ∷ dec val ∷ [])
          >> modify (λ g. record g { from_minus = g.from_minus - 1 }))
        (print (lit "int@" ∷ dec val ∷ [])))

-- `visit_double`
unfoldable pub visit_double : Double → M
visit_double val =
    test (λ g. g.from_minus == 1)
      (print (lit "float@-" ∷ short val ∷ [])
        >> modify (λ g. record g { from_minus = g.from_minus - 1 }))
      (print (lit "float@" ∷ short val ∷ []))

-- `if (args) print_func("\n");`
unfoldable pub break_args : M
break_args = test (λ g. g.args == 0) skip (text "\n")

-- `emit_op(self, node)` on a node that holds a name: the operator that it reads is the low half
-- of the name's address, and the operands lie behind the end of the node.
unfoldable pub emit_address : Option Kind → M
emit_address none = skip
emit_address (some op) = emit_op op (crash bad_access) (crash bad_access)

-- `visit_id`, at a name whose address reads as `address`.
unfoldable pub visit_id : Option Kind → Bytes → M
visit_id address val =
    emit_address address
    >> test (λ g. g.from_call == 1)
        (print (str val ∷ []) >> modify (λ g. record g { from_call = g.from_call - 1 }))
        (test (λ g. g.from_func == 1 && g.from_return == 0)
          (print (lit "TF@" ∷ str val ∷ []) >> break_args)
          (test (λ g. g.from_return == 1)
            (text "PUSHS "
              >> print (lit "TF@" ∷ str val ∷ [])
              >> modify (λ g. record g { from_return = g.from_return - 1 }))
            (print (lit "GF@" ∷ str val ∷ []) >> break_args)))

-- One round of the loop in `visit_decl`.
unfoldable pub visit_name : M → M
visit_name name =
    test (λ g. g.params == 1)
      (text "DEFVAR " >> name >> text "\n" >> text "POPS " >> name >> text "\n")
      (test (λ g. g.from_dim == 1) (name >> text " ") (text "DEFVAR " >> name >> text "\n"))

-- `visit_call`, with the number of positional arguments and their visits.
unfoldable pub visit_call : ℕ → M → M → M
visit_call count arguments expr =
    modify (λ g. record g { args = count })
    >> (if count == 0
        then skip
        else text "PUSHS " >> arguments >> modify (λ g. record g { args = 0 }))
    >> test (λ g. g.scope == 1)
        (text "CALL " >> modify (λ g. record g { from_call = g.from_call + 1 }) >> expr)
        (text "PUSHFRAME\n")
    >> test (λ g. g.scope == 1) skip (text "\nPOPFRAME")

-- `scope++; m; scope--;`
abbrev pub in_scope : M → M
in_scope m =
    modify (λ g. record g { scope = g.scope + 1 })
    >> m
    >> modify (λ g. record g { scope = g.scope - 1 })

-- `params++; m; params--;`
abbrev pub in_params : M → M
in_params m =
    modify (λ g. record g { params = g.params + 1 })
    >> m
    >> modify (λ g. record g { params = g.params - 1 })

-- `from_func++; m; from_func--;`
abbrev pub in_func : M → M
in_func m =
    modify (λ g. record g { from_func = g.from_func + 1 })
    >> m
    >> modify (λ g. record g { from_func = g.from_func - 1 })

-- `from_dim++; m; from_dim--;`
abbrev pub in_dim : M → M
in_dim m =
    modify (λ g. record g { from_dim = g.from_dim + 1 })
    >> m
    >> modify (λ g. record g { from_dim = g.from_dim - 1 })

-- `visit_scope`
unfoldable pub visit_scope : M → M
visit_scope block =
    text "LABEL Scope\n"
    >> text "CREATEFRAME\n"
    >> text "DEFVAR TF@temp_bool_1\nDEFVAR TF@temp_bool_2\n"
    >> in_scope block
    >> text "LABEL END_IF_0\n"

-- `visit_dim` in front of its loop.
unfoldable pub count_locals : M
count_locals =
    test (λ g. g.from_func == 1) (modify (λ g. record g { loc_var = g.loc_var + 1 })) skip

-- One round of the loop in `visit_dim`; `given` if there is a value.
unfoldable pub visit_item : Bool → M → M → M
visit_item given left right =
    left
    >> (if given
        then in_dim (
            text "MOVE "
            >> left
            >> right
            >> modify (λ g. record g { not_num = g.not_num + 1 })
            >> right)
        else skip)

-- `visit_function`
unfoldable pub visit_function : Bytes → M → M → M
visit_function name parameters block = in_func (
    text "LABEL "
    >> print (str name ∷ lit "\n" ∷ [])
    >> text "CREATEFRAME \n"
    >> parameters
    >> block)

-- `visit_while`
unfoldable pub visit_while : M → M → M
visit_while expr block =
    modify (λ g. record g { loop_num = g.mem_loop_num })
    >> modify (λ g. record g { loop_num = g.loop_num + 1 })
    >> print_num label_loop (λ g. g.loop_num)
    >> modify (λ g. record g { mem_loop_num = g.mem_loop_num + 1 })
    >> block
    >> modify (λ g. record g { from_loop = g.from_loop + 1 })
    >> expr

-- `visit_return`; `given` if there is an expression.
unfoldable pub visit_return : Bool → M → M
visit_return given expr =
    (if given
      then modify (λ g. record g { from_return = g.from_return + 1 }) >> expr >> text " \n"
      else skip)
    >> text "RETURN\n"

-- One round of the first loop of `visit_if`.
unfoldable pub visit_condition : M → M
visit_condition expr =
    modify (λ g. record g { from_if = g.from_if + 1 })
    >> modify (λ g. record g { else_if_num = g.else_if_num + 1 })
    >> expr

-- A branch of `visit_if`: the label `number`, the block, and the jump to the end.
unfoldable pub visit_branch : ℕ → M → M
visit_branch number block =
    print_num label_res_if (λ g. number) >> block >> print_num jump_end (λ g. g.end_if_num)

-- `visit_if` behind the conditions. The local `mem_else_if_num` is `number`; the blocks of the
-- else-ifs go on counting from it.
unfoldable pub visit_branches : ℕ → Bool → Bool → M → (ℕ → M) → M → M
visit_branches number has_else has_else_ifs block blocks else_block =
    (if has_else
      then modify (λ g. record g { else_num = g.else_num + 1 })
        >> print_num jump_else (λ g. g.else_num)
      else skip)
    >> (if has_else || has_else_ifs then skip else print_num jump_end (λ g. g.end_if_num))
    >> visit_branch (number + 1) block
    >> blocks (number + 1)
    >> (if has_else
        then print_num label_else (λ g. g.else_num)
          >> else_block
          >> print_num jump_end (λ g. g.end_if_num)
        else skip)
    >> print_num label_end (λ g. g.end_if_num)

-- `visit_if`
unfoldable pub visit_if : M → M → Bool → Bool → M → (ℕ → M) → M → M
visit_if expr conditions has_else has_else_ifs block blocks else_block g =
    (modify (λ g. record g { else_if_num = g.else_if_num + 1 })
        >> modify (λ g. record g { from_if = g.from_if + 1 })
        >> modify (λ g. record g { end_if_num = g.end_if_num + 1 })
        >> expr
        >> conditions
        >> visit_branches g.else_if_num has_else has_else_ifs block blocks else_block)
      g
