-- ===== src/Tests/Printer.antt =====
-- Runs of the printer, and the examples of its theorems.
use ifj.Prelude.{
  ◌+◌, ◌≡◌, refl, false, List, [], ◌∷◌, Bytes, codes, length, All, ok, err, null_pointer,
}
use ifj.Token.{spelling, word, op_plus, op_minus, op_assign}
use ifj.Ast.{
  Node, missing, nil, cons, no_pairs, pair, block_node, binary_op_node, unary_op_node, int_node,
  id_node, call_node, args_node, decl_node, dim_node,
}
use ifj.Printer.Inspect.{
  inspect, inspect_length, inspect_byte, is_escaped, escape_letter, is_plain, length-inspect,
  unescape-inspect, unescape, double_backslashes,
}
use ifj.Printer.Output.{lit, str, dec, Printer, M}
use ifj.Printer.Visit.{visit, prettyprint}
use ifj.Printer.Brackets.{Every}
use ifj.Printer.Prints.{prettyprint-Prints}
use ifj.Printer.Balance.{Prints}

-- A table that gives its entries in the order in which they came.
abbrev in_order : (A : Type 0) → List (Bytes × A) → List (Bytes × A)
in_order A entries = entries

abbrev keeps_order :
    (P : Bytes × M → Type 0) (entries : List (Bytes × M))
    → Every P entries
    → Every P (in_order M entries)
keeps_order P entries h = h

abbrev outside : Printer
outside = record { indents = 0; out = [] }

-- `f(1, k as 2)` and `dim a as t`
abbrev two_statements : Node
two_statements = block_node 1 (
    cons
      (call_node 1 (id_node 1 (codes "f")) (
        args_node 1 (cons (int_node 1 (word 1)) nil)
          (pair (codes "k") (int_node 1 (word 2)) no_pairs)))
      (cons
        (dim_node 2 (
          cons
            (binary_op_node 2 op_assign
              (decl_node 2 (cons (id_node 2 (codes "a")) nil) (id_node 2 (codes "t"))) missing
              false)
            nil))
        nil))

sum_printed :
    prettyprint in_order
      (binary_op_node 1 op_plus (int_node 1 (word 1)) (id_node 1 (codes "a")) false)
      outside
    ≡ ok (record {
      indents = 0;
      out =
          lit "("
          ∷ str (codes "+")
          ∷ lit " "
          ∷ lit "(int "
          ∷ dec (word 1)
          ∷ lit ")"
          ∷ lit " "
          ∷ lit "(id "
          ∷ str (codes "a")
          ∷ lit ")"
          ∷ lit ")"
          ∷ lit "\n"
          ∷ [];
    })
unfolding prettyprint visit spelling
sum_printed = refl

-- The tree that the parser makes of a minus sign with no operand.
minus_crashes :
    prettyprint in_order (unary_op_node 1 op_minus missing false) outside ≡ err null_pointer
unfolding prettyprint visit spelling
minus_crashes = refl

-- A backslash in front of an `n` is printed as a line break is.
inspect_clash : inspect (codes "\\n") ≡ inspect (codes "\n")
unfolding inspect inspect_byte is_escaped escape_letter
inspect_clash = refl

length-inspect_example : length (inspect (codes "a\nb")) + 1 ≡ inspect_length (codes "a\nb")
length-inspect_example = length-inspect (codes "a\nb")

unescape-inspect_example :
    All is_plain (inspect (codes "a\nb\\"))
    × (unescape false (inspect (double_backslashes (codes "a\nb\\"))) ≡ codes "a\nb\\")
unescape-inspect_example = unescape-inspect (codes "a\nb\\")

prettyprint-Prints_example : Prints 0 0 (prettyprint in_order two_statements)
prettyprint-Prints_example =
    prettyprint-Prints in_order keeps_order two_statements
      ((tt, λ e. ((tt, tt), (tt, tt))), ((((tt, tt), λ e. tt), (λ e. cc), tt), tt))
