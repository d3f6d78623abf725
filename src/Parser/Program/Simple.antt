-- ===== src/Parser/Program/Simple.antt =====
-- `print_stmt` and `return_stmt` of src/parser.c on the tokens of the grammar.
use Prim.Native.String.{String}
use ifj.Prelude.{
  ℕ, zero, suc, ◌<◌, ◌≡◌, refl, sym, ap, ◌∙◌, subst, arith, true, false, List, [], ◌∷◌, Option,
  some,
}
use ifj.Token.{Token, Kind, ordinal, semicolon, then_kw, return_kw, print_kw}
use ifj.Ast.{Node, Nodes, missing, nil, push, is_node, return_node_new, print_node_new}
use ifj.Parser.Source.{Source}
use ifj.Parser.Monad.{Parser, Run, value, M, kind, stored}
use ifj.Parser.Stmt.{return_stmt, print_loop, print_stmt}
use ifj.Parser.Block.{stmt, dispatch}
use ifj.Parser.Grammar.{expr}
use ifj.Parser.Syntax.{Located, Stops}
use ifj.Parser.Syntax.Stream.{Streams, Streams-append, next-Streams, left-Streams}
use ifj.Parser.Syntax.Kinds.{Follows}
use ifj.Parser.Syntax.Operand.{behind, accept-other}
use ifj.Parser.Syntax.Primary.{this}
use ifj.Parser.Syntax.Nodes.{tree_of-is_node}
use ifj.Parser.Syntax.Level.{Parsed}
use ifj.Parser.Program.{
  Whole, plain, assigned, negated, whole_tokens, whole_tree, Prints, last_print, more_prints,
  prints_tokens, prints_trees, PrintsFit, Is, starts_any,
}
use ifj.Parser.Program.Steps.{shown, accept-Taken, expect-Taken}
use ifj.Parser.Program.Wholes.{whole-Parsed, whole-starts_any}
use ifj.Parser.Program.Silent.{expr-null}
use ifj.Parser.Program.Closing.{opens, opens-semicolon}
use ifj.Parser.Program.Sequence.{join, join-push, push-join}

pub whole_tree-is_node : (w : Whole) → is_node (whole_tree w) ≡ true
unfolding whole_tree
whole_tree-is_node (plain e) = tree_of-is_node e
whole_tree-is_node (assigned e op h w) = refl
whole_tree-is_node (negated op h w) = refl

pub semicolon-Follows : Follows semicolon
unfolding ordinal Stops
semicolon-Follows = (
  (refl, (refl, (refl, (refl, (refl, (refl, (refl, (refl, (refl, (refl, refl)))))))))),
  refl,
  refl,
  refl,
)

pub then_kw-Follows : Follows then_kw
unfolding ordinal Stops
then_kw-Follows = (
  (refl, (refl, (refl, (refl, (refl, (refl, (refl, (refl, (refl, (refl, refl)))))))))),
  refl,
  refl,
  refl,
)

pub starts_any-opens : (k : Kind) → starts_any k ≡ true → opens k ≡ true
unfolding ordinal
starts_any-opens k h = ground arith

module _ ⦃G : Source⦄ where
  open G use {Scanner, tok, line, left}

  -- The token of a kind that an expression stops at.
  pub followed :
      (k : Kind)
      → Follows k
      → (x : Located) (xs : List Located) (s t : Scanner) → Streams s (x ∷ xs) t
      → Is k x
      → Follows (tok s).kind
  unfolding Streams
  followed k f x xs s t h e = subst Follows (sym (ap (λ (y : Token). y.kind) h.1 ∙ e)) f

  pub stmt-at :
      (fuel : ℕ) (expr block : M Node) (k : Kind) (p : Parser) {r : Run Node}
      → kind p ≡ k
      → dispatch fuel expr block k (record p { ctx = some "statement" }) ≡ r
      → stmt fuel expr block p ≡ r
  unfolding stmt
  stmt-at fuel expr block k p h e =
      ap (λ j. dispatch fuel expr block j (record p { ctx = some "statement" })) h ∙ e

  pub prints-Parsed :
      (ps : Prints) (fuel f : ℕ) (acc : Nodes) (p : Parser) (t : Scanner)
      → Streams p.lex (prints_tokens ps) t
      → PrintsFit ps (shown t)
      → left p.lex < fuel
      → left p.lex < f
      → (c : Option String) × (print_loop fuel (expr fuel) f acc p
          ≡ value (join acc (prints_trees ps)) (record p { ctx = c; lex = t }))
  unfolding print_loop Streams prints_tokens prints_trees
  prints-Parsed ps zero f acc p t s k a b = absurd (omega arith)
  prints-Parsed ps fuel zero acc p t s k a b = absurd (omega arith)
  prints-Parsed (last_print w x) (suc fuel) (suc zero) acc p t s k a b =
      let m = Streams-append (whole_tokens w) (x ∷ []) p.lex t s in
      absurd (
        omega (arith, left-Streams (whole_tokens w) p.lex m.0 m.1, left-Streams (x ∷ []) m.0 t m.2))
  prints-Parsed (last_print w x) (suc fuel) (suc (suc f)) acc p t s k a b =
      let m = Streams-append (whole_tokens w) (x ∷ []) p.lex t s in
      let r =
        whole-Parsed w (suc fuel) p m.0 m.1
          (followed semicolon semicolon-Follows x [] m.0 t m.2 k.0) a in
      let q : Parser = record p { ctx = r.0; lex = m.0 } in
      let n = next-Streams q x [] t m.2 in
      let u : Parser = record q { lex = n.0 } in
      (
        r.0,
        behind _ _ (ap stored r.1) (
            this _ _ _ q (whole_tree-is_node w) (
              behind _ _ (accept-Taken semicolon [] t n k.0) (
                behind _ _
                  (ap stored
                    (expr-null fuel u (subst (λ y. starts_any (tok y).kind ≡ false) (sym n.2) k.1)))
                  (λ i. value (push-join acc (whole_tree w) i) (record q { lex = n.2 i }))))),
      )
  prints-Parsed (more_prints w x ps) (suc fuel) (suc f) acc p t s k a b =
      let m = Streams-append (whole_tokens w) (x ∷ prints_tokens ps) p.lex t s in
      let r =
        whole-Parsed w (suc fuel) p m.0 m.1
          (followed semicolon semicolon-Follows x (prints_tokens ps) m.0 t m.2 k.0) a in
      let q : Parser = record p { ctx = r.0; lex = m.0 } in
      let n = next-Streams q x (prints_tokens ps) t m.2 in
      let u : Parser = record q { lex = n.0 } in
      let o =
        prints-Parsed ps (suc fuel) f (push acc (whole_tree w)) u t n.2 k.1
          (omega (arith, n.3, left-Streams (whole_tokens w) p.lex m.0 m.1))
          (omega (arith, n.3, left-Streams (whole_tokens w) p.lex m.0 m.1)) in
      (
        o.0,
        behind _ _ (ap stored r.1) (
            this _ _ _ q (whole_tree-is_node w) (
              behind _ _ (accept-Taken semicolon (prints_tokens ps) t n k.0) (
                o.1
                ∙ ap (λ x. value x (record p { ctx = o.0; lex = t }))
                    (join-push acc (whole_tree w) _)))),
      )

  pub print_stmt-Parsed :
      (x : Located) (ps : Prints) (fuel : ℕ) (block : M Node) (p : Parser) (t : Scanner)
      → Streams p.lex (x ∷ prints_tokens ps) t
      → Is print_kw x
      → PrintsFit ps (shown t)
      → left p.lex < fuel
      → Parsed (stmt fuel (expr fuel) block p) p (print_node_new (prints_trees ps) x.0) t
  unfolding dispatch print_stmt ordinal
  print_stmt-Parsed x ps fuel block p t s h k a =
      let q : Parser = record p { ctx = some "print statement" } in
      let n = next-Streams q x (prints_tokens ps) t s in
      let o =
        prints-Parsed ps fuel fuel nil (record q { lex = n.0 }) t n.2 k (omega (arith, n.3))
          (omega (arith, n.3)) in
      (
        o.0,
        stmt-at fuel (expr fuel) block print_kw p (ap (λ (y : Token). y.kind) n.5 ∙ h)
              (behind _ _ (expect-Taken print_kw (prints_tokens ps) t n h) (behind _ _ o.1 refl))
            ∙ ap (λ y. value (print_node_new (prints_trees ps) y) (record p { ctx = o.0; lex = t }))
                n.4,
      )

  pub return_stmt-Parsed :
      (x : Located) (w : Whole) (fuel : ℕ) (block : M Node) (p : Parser) (t : Scanner)
      → Streams p.lex (x ∷ whole_tokens w) t
      → Is return_kw x
      → Follows (tok t).kind
      → left p.lex < fuel
      → Parsed (stmt fuel (expr fuel) block p) p (return_node_new (whole_tree w) x.0) t
  unfolding dispatch return_stmt ordinal
  return_stmt-Parsed x w fuel block p t s h k a =
      let q : Parser = record p { ctx = some "return statement" } in
      let n = next-Streams q x (whole_tokens w) t s in
      let u : Parser = record q { lex = n.0 } in
      let o = whole-Parsed w fuel u t n.2 k (omega (arith, n.3)) in
      (
        o.0,
        stmt-at fuel (expr fuel) block return_kw p (ap (λ (y : Token). y.kind) n.5 ∙ h) (
              behind _ _ (expect-Taken return_kw (whole_tokens w) t n h) (
                behind _ _
                  (accept-other semicolon u (
                    opens-semicolon (kind u)
                      (starts_any-opens (kind u) (whole-starts_any w n.0 t n.2))))
                  (behind _ _ o.1 refl)))
            ∙ ap (λ y. value (return_node_new (whole_tree w) y) (record p { ctx = o.0; lex = t }))
                n.4,
      )

  pub return_stmt_bare-Parsed :
      (x y : Located) (fuel : ℕ) (block : M Node) (p : Parser) (t : Scanner)
      → Streams p.lex (x ∷ y ∷ []) t
      → Is return_kw x
      → Is semicolon y
      → Parsed (stmt fuel (expr fuel) block p) p (return_node_new missing x.0) t
  unfolding dispatch return_stmt ordinal Streams
  return_stmt_bare-Parsed x y fuel block p t s h k =
      let q : Parser = record p { ctx = some "return statement" } in
      let n = next-Streams q x (y ∷ []) t s in
      let u : Parser = record q { lex = n.0 } in
      let o = next-Streams u y [] t n.2 in
      (
        q.ctx,
        stmt-at fuel (expr fuel) block return_kw p (ap (λ (z : Token). z.kind) n.5 ∙ h) (
              behind _ _ (expect-Taken return_kw (y ∷ []) t n h)
                (behind _ _ (accept-Taken semicolon [] t o k) refl))
            ∙ (λ i. value (return_node_new missing (n.4 i)) (record q { lex = o.2 i })),
      )
