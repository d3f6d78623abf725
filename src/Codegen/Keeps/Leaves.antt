-- ===== src/Codegen/Keeps/Leaves.antt =====
-- Literals, names and calls in src/codegen.c.
use ifj.Prelude.{ℕ, ◌+◌, ◌-◌, refl, ◌&&◌, [], ◌∷◌, Bytes, Option, none, some, ◌==◌, bad_access}
use ifj.Token.{Kind, IntValue, Double}
use ifj.Codegen.Output.{lit, str, dec, short}
use ifj.Codegen.State.{M}
use ifj.Codegen.Keeps.{
  loops, Keeps, ◌>>>◌, skipped, crashed, tested, chosen, printed, texted, unrelated,
}
use ifj.Codegen.Visitors.{
  visit_int, visit_double, break_args, emit_address, visit_id, visit_name, visit_call,
}
use ifj.Codegen.Keeps.Operators.{emit_op-Keeps}

pub visit_int-Keeps : (val : IntValue) → Keeps (visit_int val)
unfolding visit_int loops
visit_int-Keeps val =
    tested (λ g. g.from_return == 1)
      (texted "PUSHS "
        >>> printed (lit "int@" ∷ dec val ∷ []) (λ c. refl)
        >>> unrelated (λ g. record g { from_return = g.from_return - 1 }) (λ g. refl))
      (tested (λ g. g.from_minus == 1)
        (printed (lit "int@-" ∷ dec val ∷ []) (λ c. refl)
          >>> unrelated (λ g. record g { from_minus = g.from_minus - 1 }) (λ g. refl))
        (printed (lit "int@" ∷ dec val ∷ []) (λ c. refl)))

pub visit_double-Keeps : (val : Double) → Keeps (visit_double val)
unfolding visit_double loops
visit_double-Keeps val =
    tested (λ g. g.from_minus == 1)
      (printed (lit "float@-" ∷ short val ∷ []) (λ c. refl)
        >>> unrelated (λ g. record g { from_minus = g.from_minus - 1 }) (λ g. refl))
      (printed (lit "float@" ∷ short val ∷ []) (λ c. refl))

pub break_args-Keeps : Keeps break_args
unfolding break_args
break_args-Keeps = tested (λ g. g.args == 0) skipped (texted "\n")

pub emit_address-Keeps : (address : Option Kind) → Keeps (emit_address address)
unfolding emit_address
emit_address-Keeps none = skipped
emit_address-Keeps (some op) = emit_op-Keeps (crashed bad_access tt) (crashed bad_access tt) op

pub visit_id-Keeps : (address : Option Kind) (val : Bytes) → Keeps (visit_id address val)
unfolding visit_id loops
visit_id-Keeps address val =
    emit_address-Keeps address
    >>> tested (λ g. g.from_call == 1)
        (printed (str val ∷ []) (λ c. refl)
          >>> unrelated (λ g. record g { from_call = g.from_call - 1 }) (λ g. refl))
        (tested (λ g. g.from_func == 1 && g.from_return == 0)
          (printed (lit "TF@" ∷ str val ∷ []) (λ c. refl) >>> break_args-Keeps)
          (tested (λ g. g.from_return == 1)
            (texted "PUSHS "
              >>> printed (lit "TF@" ∷ str val ∷ []) (λ c. refl)
              >>> unrelated (λ g. record g { from_return = g.from_return - 1 }) (λ g. refl))
            (printed (lit "GF@" ∷ str val ∷ []) (λ c. refl) >>> break_args-Keeps)))

pub visit_name-Keeps : {name : M} → Keeps name → Keeps (visit_name name)
unfolding visit_name
visit_name-Keeps h =
    tested (λ g. g.params == 1)
      (texted "DEFVAR " >>> h >>> texted "\n" >>> texted "POPS " >>> h >>> texted "\n")
      (tested (λ g. g.from_dim == 1) (h >>> texted " ") (texted "DEFVAR " >>> h >>> texted "\n"))

pub visit_call-Keeps :
    (count : ℕ) {arguments expr : M}
    → Keeps arguments
    → Keeps expr
    → Keeps (visit_call count arguments expr)
unfolding visit_call
visit_call-Keeps count a e =
    unrelated (λ g. record g { args = count }) (λ g. refl)
    >>> chosen (count == 0) skipped
        (texted "PUSHS " >>> a >>> unrelated (λ g. record g { args = 0 }) (λ g. refl))
    >>> tested (λ g. g.scope == 1)
        (texted "CALL "
          >>> unrelated (λ g. record g { from_call = g.from_call + 1 }) (λ g. refl)
          >>> e)
        (texted "PUSHFRAME\n")
    >>> tested (λ g. g.scope == 1) skipped (texted "\nPOPFRAME")
