-- ===== src/Tests/Codegen.antt =====
-- Runs of the generator, and the examples of its theorems.
use ifj.Prelude.{
  ◌≡◌, refl, arith, false, List, [], Bytes, codes, Option, none, some, Result, ok, err, IsReal,
  Leads,
}
use ifj.Token.{Kind, word, op_eq, op_assign}
use ifj.Ast.{Node, nil, cons, block_node, binary_op_node, int_node, id_node, while_node, scope_node}
use ifj.Codegen.Output.{Piece}
use ifj.Codegen.State.{Gen, gen_init}
use ifj.Codegen.Keeps.{loops, Moves}
use ifj.Codegen.Visit.{visit, gen}
use ifj.Codegen.Ends.{visit-Leads, gen-Leads}

abbrev no_address : Bytes → Option Kind
no_address name = none

abbrev output : Result Gen → List Piece
output (ok g) = g.out
output (err e) = []

-- `scope do while a = 1 a = 2 loop end scope`
abbrev looping : Node
looping = scope_node 1 (
    block_node 1 (
      cons
        (while_node 1 (binary_op_node 1 op_eq (id_node 1 (codes "a")) (int_node 1 (word 1)) false) (
          block_node 1 (
            cons (binary_op_node 1 op_assign (id_node 1 (codes "a")) (int_node 1 (word 2)) false)
              nil)))
        nil))

visit-Leads_example : Leads IsReal (Moves gen_init) (visit no_address looping gen_init)
unfolding loops
visit-Leads_example =
    visit-Leads no_address looping gen_init
      (record { numbers = refl; due = omega arith; labels = omega arith })

gen-Leads_example : Leads IsReal (λ g. loops 0 g.out ≡ some g.mem_loop_num) (gen no_address looping)
gen-Leads_example = gen-Leads no_address looping
