-- ===== src/Parser/Program/Definitions.antt =====
-- `input_stmt` and `function_stmt` of src/parser.c on the tokens of the grammar.
use Prim.Native.String.{String}
use ifj.Prelude.{
  append-nil, [], ℕ, ◌<◌, ◌≡◌, refl, sym, ap, ◌∙◌, subst, arith, Bool, true, false, List, ◌∷◌, ◌++◌,
  some,
}
use ifj.Token.{Kind, function_kw, id, input_kw, Token, ordinal, is_kind}
use ifj.Ast.{function_node_new, input_node_new, Node}
use ifj.Parser.Source.{Source}
use ifj.Parser.Monad.{kind, require, stored, Parser, value, M}
use ifj.Parser.Block.{function_stmt, dispatch, stmt}
use ifj.Parser.Stmt.{input_stmt, note_unless}
use ifj.Parser.Grammar.{expr}
use ifj.Parser.Syntax.{Located, located_kind}
use ifj.Parser.Syntax.Stream.{Streams, Streams-append, next-Streams, left-Streams}
use ifj.Parser.Syntax.Kinds.{Follows}
use ifj.Parser.Syntax.Operand.{behind}
use ifj.Parser.Syntax.Level.{Parsed}
use ifj.Parser.Program.{
  Params, TypeOf, params_tokens, type_tokens, ParamsFit, TypeFits, type_tree, params_trees, Whole,
  whole_tokens, whole_tree, Semi, semi_tokens, SemiFits, first, Is,
}
use ifj.Parser.Program.Steps.{is_kind-Taken, shown, at_first, expect-Taken}
use ifj.Parser.Program.Functions.{optional_params-Parsed, optional_type-Parsed}
use ifj.Parser.Program.Wholes.{whole-Parsed}
use ifj.Parser.Program.Simple.{whole_tree-is_node, stmt-at}
use ifj.Parser.Program.Compound.{Blocked, semi-Parsed}

module _ ⦃G : Source⦄ where
  open G use {Scanner, tok, line, left}

  -- A parameter that is there gives no message.
  noted :
      (fuel : ℕ) (expr : M Node) (b : Bool) (s : String) (p : Parser)
      → b ≡ true
      → note_unless fuel expr b s p ≡ value tt p
  unfolding note_unless
  noted fuel expr true s p h = refl
  noted fuel expr false s p h = cc

  -- `input_stmt`
  pub input_stmt-Parsed :
      (x : Located) (w : Whole) (semi : Semi) (fuel : ℕ) (block : M Node) (p : Parser) (t : Scanner)
      → Streams p.lex (x ∷ (whole_tokens w ++ semi_tokens semi)) t
      → Is input_kw x
      → Follows (located_kind (first (semi_tokens semi) (shown t)))
      → SemiFits semi (shown t)
      → left p.lex < fuel
      → Parsed (stmt fuel (expr fuel) block p) p (input_node_new (whole_tree w) x.0) t
  unfolding dispatch input_stmt ordinal Streams
  input_stmt-Parsed x w semi fuel block p t s h k e a =
      let q : Parser = record p { ctx = some "input statement" } in
      let n = next-Streams q x (whole_tokens w ++ semi_tokens semi) t s in
      let u = Streams-append (whole_tokens w) (semi_tokens semi) n.0 t n.2 in
      let r =
        whole-Parsed w fuel (record q { lex = n.0 }) u.0 u.1
          (at_first (λ z. Follows (located_kind z)) (semi_tokens semi) u.0 t u.2 k)
          (omega (arith, n.3)) in
      let v : Parser = record q { ctx = r.0; lex = u.0 } in
      let d =
        semi-Parsed semi [] v t
          (subst (λ xs. Streams u.0 xs t) (sym (append-nil (semi_tokens semi))) u.2) e in
      (
        r.0,
        stmt-at fuel (expr fuel) block input_kw p (ap (λ (z : Token). z.kind) n.5 ∙ h) (
              behind _ _ (expect-Taken input_kw (whole_tokens w ++ semi_tokens semi) t n h) (
                behind _ _ (ap stored r.1) (
                  behind _ _ (noted fuel (expr fuel) _ "Expected variable" v (whole_tree-is_node w))
                    (behind _ _ d.1.1 refl))))
            ∙ (λ i. value (input_node_new (whole_tree w) (n.4 i)) (record v { lex = d.1.2 i })),
      )

  required :
      (k : Kind) (s : String) (p : Parser) → is_kind (kind p) k ≡ true → require k s p ≡ value tt p
  required k s p h = rw (h, require) refl

  -- `function_stmt`
  pub function_stmt-Parsed :
      (x y : Located) (ps : Params) (ty : TypeOf) (semi : Semi) (xs : List Located) (fuel : ℕ)
      (block : M Node) (p : Parser) (t : Scanner) (node : Node)
      → Streams p.lex (x ∷ y ∷ (params_tokens ps ++ (type_tokens ty ++ (semi_tokens semi ++ xs)))) t
      → Is function_kw x
      → Is id y
      → ParamsFit ps (first (type_tokens ty ++ (semi_tokens semi ++ xs)) (shown t))
      → TypeFits ty (first (semi_tokens semi ++ xs) (shown t))
      → SemiFits semi (first xs (shown t))
      → left p.lex < fuel
      → ((n : Scanner) → Streams n xs t → left n < left p.lex → Blocked block p node n t)
      → Parsed
          (stmt fuel (expr fuel) block p)
          p
          (function_node_new y.1.as_string (type_tree ty) node (params_trees ps) x.0)
          t
  unfolding dispatch function_stmt ordinal
  function_stmt-Parsed x y ps ty semi xs fuel block p t node s h k e f d a b =
      let third = semi_tokens semi ++ xs in
      let second = type_tokens ty ++ third in
      let rest = params_tokens ps ++ second in
      let start : Parser = record p { ctx = some "function statement" } in
      let n = next-Streams start x (y ∷ rest) t s in
      let q : Parser = record start { lex = n.0 } in
      let m = next-Streams q y rest t n.2 in
      let u = Streams-append (params_tokens ps) second m.0 t m.2 in
      let v = Streams-append (type_tokens ty) third u.0 t u.2 in
      let r =
        optional_params-Parsed ps "function" fuel (record q { lex = m.0 }) u.0 u.1
          (at_first (ParamsFit ps) second u.0 t u.2 e) (omega (arith, n.3, m.3)) in
      let w : Parser = record p { ctx = some "function"; lex = u.0 } in
      let i = optional_type-Parsed ty fuel w v.0 v.1 (at_first (TypeFits ty) third v.0 t v.2 f) in
      let j = semi-Parsed semi xs (record w { lex = v.0 }) t v.2 d in
      let l = left-Streams (params_tokens ps) m.0 u.0 u.1 in
      let z = left-Streams (type_tokens ty) u.0 v.0 v.1 in
      let o = b j.1.0 j.1.2 (omega (arith, n.3, m.3, l, z, j.1.3)) w.ctx in
      (
        o.0,
        stmt-at fuel (expr fuel) block function_kw p (ap (λ (c : Token). c.kind) n.5 ∙ h) (
              behind _ _ (expect-Taken function_kw (y ∷ rest) t n h) (
                behind _ _ (required id "missing function name" q (is_kind-Taken id rest t m k)) (
                  behind _ _ m.1
                    (behind _ _ r.1 (behind _ _ i (behind _ _ j.1.1 (behind _ _ o.1 refl)))))))
            ∙ (λ c.
                value
                  (function_node_new (m.5 c).as_string (type_tree ty) node (params_trees ps)
                    (n.4 c))
                  (record p { ctx = o.0; lex = t })),
      )
