-- ===== src/Parser/Program/Wholes.antt =====
-- `expr` of src/parser.c at assignments and negations.
use Prim.Native.String.{String}
use ifj.Prelude.{
  ℕ, zero, suc, ◌<◌, ◌≡◌, refl, sym, ap, ◌∙◌, subst, arith, true, false, Bool-cases, inl, inr, [],
  ◌∷◌, some,
}
use ifj.Token.{Token, Kind, ordinal, is_kind, is_one_of, op_lnot, dim_kw, op_fork, op_assign}
use ifj.Ast.{Node, binary_op_node_new, unary_op_node_new}
use ifj.Parser.Source.{Source}
use ifj.Parser.Monad.{Parser, value, M, kind, next, accept}
use ifj.Parser.Operators.{compounds, assign_right, assignment_expr, not_expr}
use ifj.Parser.Grammar.{expr}
use ifj.Parser.Syntax.{located_kind, tokens_of, tree_of, Stops}
use ifj.Parser.Syntax.Stream.{Streams, Streams-append, next-Streams, left-Streams}
use ifj.Parser.Syntax.Kinds.{starts, starts-not, starts-dim, Follows}
use ifj.Parser.Syntax.Operand.{behind, otherwise, accept-other}
use ifj.Parser.Syntax.Primary.{this}
use ifj.Parser.Syntax.Nodes.{starts-Streams, first_line-Streams}
use ifj.Parser.Syntax.Whole.{level, logical_or_expr-level}
use ifj.Parser.Syntax.Level.{Parsed, level-Parsed}
use ifj.Parser.Syntax.Reads.{expr-Parsed}
use ifj.Parser.Program.{Whole, plain, assigned, negated, whole_tokens, whole_tree, starts_any}
use ifj.Parser.Program.Steps.{accept-Taken}

assigns-Stops : (k : Kind) → is_one_of (op_assign ∷ compounds) k ≡ true → Stops 10 k
unfolding Stops ordinal
assigns-Stops k h = ground arith

assigns-fork : (k : Kind) → is_one_of (op_assign ∷ compounds) k ≡ true → is_kind k op_fork ≡ false
unfolding ordinal
assigns-fork k h = ground arith

compounds_else :
    (k : Kind)
    → is_one_of (op_assign ∷ compounds) k ≡ true
    → is_one_of (op_assign ∷ []) k ≡ false
    → is_one_of compounds k ≡ true
unfolding ordinal
compounds_else k h e = ground arith

module _ ⦃G : Source⦄ where
  open G use {Scanner, tok, line, left}

  module _ (f : ℕ) (expr : M Node) (p q : Parser) (m t : Scanner) (node right : Node) where
    assign_right-Parsed :
        (ctx : String) (op : Kind) (line : ℕ)
        → next q ≡ value tt (record q { lex = m })
        → Parsed (expr (record q { ctx = some ctx; lex = m })) q right t
        → Parsed
            (assign_right f expr ctx op node line q)
            q
            (binary_op_node_new op node right line)
            t
    unfolding assign_right
    assign_right-Parsed ctx op line n r = (r.0, behind _ _ n (behind _ _ r.1 refl))

    not_expr-assign :
        starts (kind p) ≡ true
        → level f expr f 10 p ≡ value node q
        → is_one_of (op_assign ∷ compounds) (kind q) ≡ true
        → next q ≡ value tt (record q { lex = m })
        → ((ctx : String) → Parsed (expr (record q { ctx = some ctx; lex = m })) q right t)
        → Parsed (not_expr f expr p) q (binary_op_node_new (kind q) node right (line p.lex)) t
    unfolding not_expr assignment_expr
    not_expr-assign s e h n r = elim (Bool-cases (is_one_of (op_assign ∷ []) (kind q))) [
      | inl i ↦
          let a = assign_right-Parsed "assignment" (kind q) (line p.lex) n (r "assignment") in
          (
            a.0,
            behind (accept op_lnot p) _ (accept-other op_lnot p (starts-not _ s)) (
                behind (accept dim_kw p) _ (accept-other dim_kw p (starts-dim _ s)) (
                  behind _ _ (logical_or_expr-level f expr p q node e (assigns-fork _ h))
                    (this _ _ _ q i a.1))),
          )
      | inr i ↦
          let a =
            assign_right-Parsed "compound assignment" (kind q) (line p.lex) n
              (r "compound assignment") in
          (
            a.0,
            behind (accept op_lnot p) _ (accept-other op_lnot p (starts-not _ s)) (
                behind (accept dim_kw p) _ (accept-other dim_kw p (starts-dim _ s)) (
                  behind _ _ (logical_or_expr-level f expr p q node e (assigns-fork _ h))
                    (otherwise _ _ _ q i (this _ _ _ q (compounds_else (kind q) h i) a.1)))),
          )
    ]

  whole_starts_plain : (k : Kind) → starts k ≡ true → starts_any k ≡ true
  unfolding ordinal
  whole_starts_plain k h = ground arith

  whole_starts_not : (k : Kind) → k ≡ op_lnot → starts_any k ≡ true
  unfolding ordinal
  whole_starts_not k h = subst (λ j. starts_any j ≡ true) (sym h) refl

  -- The first token of an expression.
  pub whole-starts_any :
      (w : Whole) (s t : Scanner) → Streams s (whole_tokens w) t → starts_any (tok s).kind ≡ true
  unfolding whole_tokens Streams
  whole-starts_any (plain e) s t k = whole_starts_plain _ (starts-Streams e s t k)
  whole-starts_any (assigned e op h w) s t k =
      let m = Streams-append (tokens_of e) (op ∷ whole_tokens w) s t k in
      whole_starts_plain _ (starts-Streams e s m.0 m.1)
  whole-starts_any (negated op h w) s t k = whole_starts_not _ (ap (λ (x : Token). x.kind) k.1 ∙ h)

  negation-Parsed :
      (f : ℕ) (expr : M Node) (p : Parser) (m t : Scanner) (node : Node)
      → accept op_lnot p ≡ value true (record p { lex = m })
      → Parsed (expr (record p { lex = m })) p node t
      → Parsed (not_expr f expr p) p (unary_op_node_new op_lnot node false (line p.lex)) t
  unfolding not_expr
  negation-Parsed f expr p m t node h r = (r.0, behind _ _ h (behind _ _ r.1 refl))

  -- `expr` reads an expression of the grammar with its assignments and negations.
  pub whole-Parsed :
      (w : Whole) (fuel : ℕ) (p : Parser) (t : Scanner)
      → Streams p.lex (whole_tokens w) t
      → Follows (tok t).kind
      → left p.lex < fuel
      → Parsed (expr fuel p) p (whole_tree w) t
  unfolding expr whole_tokens whole_tree
  whole-Parsed w zero p t s k a = absurd (omega arith)
  whole-Parsed (plain e) fuel p t s k a = expr-Parsed e fuel p t s k a
  whole-Parsed (assigned e op h w) (suc f) p t s k a =
      let m = Streams-append (tokens_of e) (op ∷ whole_tokens w) p.lex t s in
      let b = next-Streams (record p { lex = m.0 }) op (whole_tokens w) t m.2 in
      let stops = subst (λ x. Stops 10 x.kind) (sym b.5) (assigns-Stops _ h) in
      let r = level-Parsed e f (suc f) p m.0 m.1 stops a a in
      let q : Parser = record p { ctx = r.0; lex = m.0 } in
      let n = next-Streams q op (whole_tokens w) t m.2 in
      let z =
        not_expr-assign (suc f) (expr f) p q n.0 t (tree_of e) (whole_tree w)
          (starts-Streams e p.lex m.0 m.1) r.1
          (subst (λ x. is_one_of (op_assign ∷ compounds) x.kind ≡ true) (sym n.5) h) n.1
          (λ ctx.
            whole-Parsed w f (record q { ctx = some ctx; lex = n.0 }) t n.2 k
              (omega (arith, n.3, left-Streams (tokens_of e) p.lex m.0 m.1))) in
      (
        z.0,
        z.1
            ∙ ap
                (λ x.
                  value (binary_op_node_new x.kind (tree_of e) (whole_tree w) (line p.lex))
                    (record p { ctx = z.0; lex = t }))
                n.5
            ∙ ap
                (λ x.
                  value (binary_op_node_new (located_kind op) (tree_of e) (whole_tree w) x)
                    (record p { ctx = z.0; lex = t }))
                (first_line-Streams e p.lex m.0 m.1),
      )
  whole-Parsed (negated op h w) (suc f) p t s k a =
      let n = next-Streams p op (whole_tokens w) t s in
      let r =
        negation-Parsed (suc f) (expr f) p n.0 t (whole_tree w)
          (accept-Taken op_lnot (whole_tokens w) t n h)
          (whole-Parsed w f (record p { lex = n.0 }) t n.2 k (omega (arith, n.3))) in
      (
        r.0,
        r.1
            ∙ ap
                (λ x.
                  value (unary_op_node_new op_lnot (whole_tree w) false x)
                    (record p { ctx = r.0; lex = t }))
                n.4,
      )
