-- ===== src/Parser/Program/Dimensions.antt =====
-- `dim_expr` of src/parser.c on the tokens of the grammar.
use Prim.Native.String.{String}
use ifj.Prelude.{
  ℕ, zero, suc, ◌<◌, ◌≤◌, ◌≡◌, refl, sym, ap, ◌∙◌, subst, arith, false, [], ◌∷◌, ◌++◌, Option, some,
}
use ifj.Token.{ordinal, is_kind, comma, op_assign, op_lnot, dim_kw}
use ifj.Ast.{Nodes, missing, nil, push, binary_op_node_new, dim_node_new}
use ifj.Parser.Source.{Source}
use ifj.Parser.Monad.{Parser, value, with_error, stored}
use ifj.Parser.Operators.{dim_value, dim_item, dim_loop, dim_expr, assignment_expr, not_expr}
use ifj.Parser.Grammar.{expr}
use ifj.Parser.Syntax.{Located}
use ifj.Parser.Syntax.Stream.{Streams, Streams-append, next-Streams, left-Streams}
use ifj.Parser.Syntax.Operand.{behind, accept-other}
use ifj.Parser.Syntax.Level.{Parsed}
use ifj.Parser.Program.{
  whole_tokens, names_tokens, Decl, decl, decl_tokens, decl_tree, Init, unset, set_to, init_tokens,
  init_tree, Dims, last_dim, more_dims, dims_tokens, dims_trees, dims_line, dim_tree, Is, DeclFits,
  InitFits, DimsFit,
}
use ifj.Parser.Program.Steps.{shown, at_first, accept-first, accept-Taken}
use ifj.Parser.Program.Wholes.{whole-Parsed}
use ifj.Parser.Program.Sequence.{join, join-push, push-join}
use ifj.Parser.Program.Declarations.{decl-Parsed, names_first}

module _ ⦃G : Source⦄ where
  open G use {Scanner, tok, line, left}

  init-Parsed :
      (v : Init) (f : ℕ) (p : Parser) (t : Scanner)
      → Streams p.lex (init_tokens v) t
      → InitFits v (shown t)
      → left p.lex ≤ f
      → Parsed (dim_value (suc f) (expr f) p) p (init_tree v) t
  unfolding dim_value init_tokens init_tree Streams
  init-Parsed unset f p t s k a = (
    p.ctx,
    behind _ _ (accept-first op_assign [] p t s k) (λ i. value missing (record p { lex = s i })),
  )
  init-Parsed (set_to x w) f p t s k a =
      let n = next-Streams p x (whole_tokens w) t s in
      let r = whole-Parsed w f (record p { lex = n.0 }) t n.2 k.1 (omega (arith, n.3)) in
      (
        r.0,
        behind _ _ (accept-Taken op_assign (whole_tokens w) t n k.0)
            (ap (with_error "expecting declaration initializer") r.1),
      )

  -- One declaration with its value.
  dim_item-Parsed :
      (d : Decl) (v : Init) (f : ℕ) (p : Parser) (m t : Scanner)
      → Streams p.lex (decl_tokens d) m
      → Streams m (init_tokens v) t
      → DeclFits d
      → InitFits v (shown t)
      → left p.lex ≤ f
      → Parsed (dim_item (suc f) (expr f) p) p (dim_tree d v) t
  unfolding dim_item decl_tree decl_tokens
  dim_item-Parsed (decl ns x y) v f p m t s h k l a =
      let e = decl-Parsed (decl ns x y) (suc f) p m s k (omega arith) in
      let b = left-Streams (names_tokens ns ++ x ∷ y ∷ []) p.lex m s in
      let r =
        init-Parsed v f (record p { ctx = some "dim expression"; lex = m }) t h l
          (omega (arith, b)) in
      (
        r.0,
        behind _ _ (ap stored e) (behind _ _ r.1 refl)
            ∙ ap
                (λ z.
                  value (binary_op_node_new op_assign (decl_tree (decl ns x y)) (init_tree v) z)
                    (record p { ctx = r.0; lex = t }))
                (names_first ns (x ∷ y ∷ []) p.lex m s k.0).1,
      )

  dims-Parsed :
      (ds : Dims) (f n : ℕ) (acc : Nodes) (p : Parser) (t : Scanner)
      → Streams p.lex (dims_tokens ds) t
      → DimsFit ds (shown t)
      → left p.lex ≤ f
      → left p.lex < n
      → (c : Option String) × (dim_loop (suc f) (expr f) n acc p
          ≡ value (join acc (dims_trees ds)) (record p { ctx = c; lex = t }))
  unfolding dim_loop dims_tokens dims_trees
  dims-Parsed ds f zero acc p t s k a b = absurd (omega arith)
  dims-Parsed (last_dim d v) f (suc n) acc p t s k a b =
      let m = Streams-append (decl_tokens d) (init_tokens v) p.lex t s in
      let r = dim_item-Parsed d v f p m.0 t m.1 m.2 k.0 k.1 a in
      (
        r.0,
        behind _ _ r.1 (
            behind _ _ (accept-other comma (record p { ctx = r.0; lex = t }) k.2)
              (ap (λ z. value z (record p { ctx = r.0; lex = t })) (push-join acc (dim_tree d v)))),
      )
  dims-Parsed (more_dims d v x ds) f (suc n) acc p t s k a b =
      let m = Streams-append (decl_tokens d) (init_tokens v ++ x ∷ dims_tokens ds) p.lex t s in
      let u = Streams-append (init_tokens v) (x ∷ dims_tokens ds) m.0 t m.2 in
      let r =
        dim_item-Parsed d v f p m.0 u.0 m.1 u.1 k.0
          (at_first (InitFits v) (x ∷ dims_tokens ds) u.0 t u.2 k.1) a in
      let q : Parser = record p { ctx = r.0; lex = u.0 } in
      let e = next-Streams q x (dims_tokens ds) t u.2 in
      let l = left-Streams (decl_tokens d) p.lex m.0 m.1 in
      let i = left-Streams (init_tokens v) m.0 u.0 u.1 in
      let o =
        dims-Parsed ds f n (push acc (dim_tree d v)) (record q { lex = e.0 }) t e.2 k.3
          (omega (arith, e.3, l, i)) (omega (arith, e.3, l, i)) in
      (
        o.0,
        behind _ _ r.1 (
            behind _ _ (accept-Taken comma (dims_tokens ds) t e k.2) (
              o.1
              ∙ ap (λ z. value z (record p { ctx = o.0; lex = t }))
                  (join-push acc (dim_tree d v) (dims_trees ds)))),
      )

  dims_first :
      (ds : Dims) (s t : Scanner) (after : Located)
      → Streams s (dims_tokens ds) t
      → DimsFit ds after
      → line s ≡ dims_line ds
  unfolding dims_tokens decl_tokens
  dims_first (last_dim (decl ns x y) v) s t after h k =
      let m = Streams-append (names_tokens ns ++ x ∷ y ∷ []) (init_tokens v) s t h in
      (names_first ns (x ∷ y ∷ []) s m.0 m.1 k.0.0).1
  dims_first (more_dims (decl ns x y) v z ds) s t after h k =
      let m =
        Streams-append (names_tokens ns ++ x ∷ y ∷ []) (init_tokens v ++ z ∷ dims_tokens ds) s t
          h in
      (names_first ns (x ∷ y ∷ []) s m.0 m.1 k.0.0).1

  -- `dim`, as an expression.
  pub dim_expr-Parsed :
      (x : Located) (ds : Dims) (fuel : ℕ) (p : Parser) (t : Scanner)
      → Streams p.lex (x ∷ dims_tokens ds) t
      → Is dim_kw x
      → DimsFit ds (shown t)
      → left p.lex < fuel
      → Parsed (expr fuel p) p (dim_node_new (dims_trees ds) (dims_line ds)) t
  unfolding expr not_expr assignment_expr dim_expr ordinal
  dim_expr-Parsed x ds zero p t s h k a = absurd (omega arith)
  dim_expr-Parsed x ds (suc f) p t s h k a =
      let n = next-Streams p x (dims_tokens ds) t s in
      let q : Parser = record p { lex = n.0 } in
      let r = dims-Parsed ds f (suc f) nil q t n.2 k (omega (arith, n.3)) (omega (arith, n.3)) in
      (
        r.0,
        behind _ _
              (accept-first op_lnot (x ∷ dims_tokens ds) p t s
                (subst (λ j. is_kind j op_lnot ≡ false) (sym h) refl))
              (behind _ _ (accept-Taken dim_kw (dims_tokens ds) t n h) (behind _ _ r.1 refl))
            ∙ ap (λ z. value (dim_node_new (dims_trees ds) z) (record p { ctx = r.0; lex = t }))
                (dims_first ds n.0 t (shown t) n.2 k),
      )
