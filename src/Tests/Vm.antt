-- ===== src/Tests/Vm.antt =====
-- Runs of the interpreter on a small code, and the examples of its theorems.
use ifj.Prelude.{Anything, ℕ, ◌≡◌, refl, arith, [], ◌∷◌, ok, Ends, Leads}
use ifj.Vm.Decode.{opcode, operand_a, operand_b, operand_c, abc, abc-fields, fields-abc, nth_op}
use ifj.Vm.Eval.{
  Activation, eval, rounds, round, execute, assign, operands, divides, read, write, constant,
  register_or_constant, dump, dump_line, run,
}
use ifj.Vm.Ends.{eval-Ends}
use ifj.Vm.Valid.{IsTrap, is_valid}
use ifj.Vm.Inside.{eval-Leads-Inside, eval-returns}

-- Registers 0 and 1 get the constants; unless 1 is at most 0, register 0 is divided by 1.
abbrev quotient_of : ℕ → ℕ → Activation
quotient_of x y = record {
  code = abc 2 0 32 0 ∷ abc 2 1 33 0 ∷ abc 7 0 1 0 ∷ abc 10 0 0 1 ∷ abc 0 0 0 0 ∷ [];
  constants = x ∷ y ∷ [];
}

quotient_of_negative : eval (quotient_of 4294967289 2) ≡ ok 4294967293
unfolding eval rounds round execute assign operands divides read write constant register_or_constant
    nth_op dump dump_line run
quotient_of_negative = refl

quotient_skipped : eval (quotient_of 0 0) ≡ ok 0
unfolding eval rounds round execute assign operands divides read write constant register_or_constant
    nth_op dump dump_line run
quotient_skipped = refl

abc-fields_example :
    abc (opcode 33816832) (operand_a 33816832) (operand_b 33816832) (operand_c 33816832) ≡ 33816832
abc-fields_example = abc-fields 33816832 (omega arith)

fields-abc_example :
    (opcode (abc 8 0 1 33) ≡ 8)
    × (operand_a (abc 8 0 1 33) ≡ 0)
    × (operand_b (abc 8 0 1 33) ≡ 1)
    × (operand_c (abc 8 0 1 33) ≡ 33)
fields-abc_example = fields-abc 8 0 1 33 (omega arith) (omega arith) (omega arith) (omega arith)

eval-Ends_example : Ends (eval (quotient_of 7 2))
eval-Ends_example = eval-Ends (quotient_of 7 2)

eval-Leads-Inside_example : Leads IsTrap Anything (eval (quotient_of 7 2))
unfolding is_valid nth_op
eval-Leads-Inside_example =
    eval-Leads-Inside (quotient_of 7 2) (refl, (refl, (refl, (refl, (refl, tt))))) (omega arith)

-- Registers 0 and 1 get the constants, and register 0 their sum.
abbrev sum_of : ℕ → ℕ → Activation
sum_of x y = record {
  code = abc 2 0 32 0 ∷ abc 2 1 33 0 ∷ abc 8 0 0 1 ∷ abc 0 0 0 0 ∷ [];
  constants = x ∷ y ∷ [];
}

eval-returns_example : (v : ℕ) × (eval (sum_of 7 2) ≡ ok v)
unfolding is_valid nth_op
eval-returns_example = eval-returns (sum_of 7 2) (refl, (refl, (refl, (refl, tt)))) (omega arith)
