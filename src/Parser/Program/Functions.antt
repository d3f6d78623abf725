-- ===== src/Parser/Program/Functions.antt =====
-- The heads of functions in src/parser.c on the tokens of the grammar.
use Prim.Native.String.{String}
use ifj.Prelude.{
  ℕ, zero, suc, ◌<◌, ◌≡◌, refl, sym, ap, ◌∙◌, subst, arith, true, false, [], ◌∷◌, ◌++◌, Option,
  some,
}
use ifj.Token.{ordinal, is_kind, id, as_kw, comma, op_assign, lparen, rparen}
use ifj.Ast.{Nodes, missing, nil, push, binary_op_node_new}
use ifj.Parser.Source.{Source}
use ifj.Parser.Monad.{Parser, value, with_error}
use ifj.Parser.Stmt.{function_param, params_loop, function_params, optional_params, optional_type}
use ifj.Parser.Grammar.{expr}
use ifj.Parser.Syntax.{Located, located_kind}
use ifj.Parser.Syntax.Stream.{Streams, Streams-append, next-Streams, left-Streams}
use ifj.Parser.Syntax.Operand.{behind, otherwise, accept-other}
use ifj.Parser.Syntax.Primary.{this}
use ifj.Parser.Syntax.Level.{Parsed}
use ifj.Parser.Program.{
  whole_tokens, whole_tree, names_tokens, Decl, decl, decl_tokens, decl_tree, Init, unset, set_to,
  init_tokens, Dims, last_dim, more_dims, dims_tokens, param_tree, param_trees, Params, no_params,
  bare_params, given_params, params_tokens, params_trees, TypeOf, untyped, typed, type_tokens,
  type_tree, DeclFits, InitFits, DimsFit, ParamsFit, TypeFits,
}
use ifj.Parser.Program.Steps.{shown, at_first, accept-first, accept-Taken, demand-Taken}
use ifj.Parser.Program.Wholes.{whole-Parsed}
use ifj.Parser.Program.Sequence.{join, join-push, push-join}
use ifj.Parser.Program.Declarations.{decl-Parsed, names_first, type-Parsed}

module _ ⦃G : Source⦄ where
  open G use {Scanner, tok, line, left}

  -- One parameter with its value.
  param-Parsed :
      (d : Decl) (v : Init) (fuel : ℕ) (p : Parser) (m t : Scanner)
      → Streams p.lex (decl_tokens d) m
      → Streams m (init_tokens v) t
      → DeclFits d
      → InitFits v (shown t)
      → left p.lex < fuel
      → Parsed (function_param fuel (expr fuel) p) p (param_tree d v) t
  unfolding function_param decl_tokens init_tokens Streams
  param-Parsed d unset fuel p m t s h k l a =
      let e = decl-Parsed d fuel p m s k a in
      let q : Parser = record p { ctx = some "function param"; lex = m } in
      (
        q.ctx,
        behind _ _ e (
            behind _ _ (accept-first op_assign [] q t h l)
              (λ i. value (decl_tree d) (record q { lex = h i }))),
      )
  param-Parsed (decl ns x y) (set_to z w) fuel p m t s h k l a =
      let e = decl-Parsed (decl ns x y) fuel p m s k a in
      let q : Parser = record p { ctx = some "function param"; lex = m } in
      let n = next-Streams q z (whole_tokens w) t h in
      let b = left-Streams (names_tokens ns ++ x ∷ y ∷ []) p.lex m s in
      let r = whole-Parsed w fuel (record q { lex = n.0 }) t n.2 l.1 (omega (arith, n.3, b)) in
      (
        r.0,
        behind _ _ e
              (behind _ _ (accept-Taken op_assign (whole_tokens w) t n l.0) (behind _ _ r.1 refl))
            ∙ ap
                (λ i.
                  value (binary_op_node_new op_assign (decl_tree (decl ns x y)) (whole_tree w) i)
                    (record p { ctx = r.0; lex = t }))
                (names_first ns (x ∷ y ∷ []) p.lex m s k.0).1,
      )

  params-Parsed :
      (ds : Dims) (fuel n : ℕ) (acc : Nodes) (p : Parser) (t : Scanner)
      → Streams p.lex (dims_tokens ds) t
      → DimsFit ds (shown t)
      → left p.lex < fuel
      → left p.lex < n
      → (c : Option String) × (params_loop fuel (expr fuel) n acc p
          ≡ value (join acc (param_trees ds)) (record p { ctx = c; lex = t }))
  unfolding params_loop dims_tokens param_trees
  params-Parsed ds fuel zero acc p t s k a b = absurd (omega arith)
  params-Parsed (last_dim d v) fuel (suc n) acc p t s k a b =
      let m = Streams-append (decl_tokens d) (init_tokens v) p.lex t s in
      let r = param-Parsed d v fuel p m.0 t m.1 m.2 k.0 k.1 a in
      (
        r.0,
        behind _ _ r.1 (
            behind _ _ (accept-other comma (record p { ctx = r.0; lex = t }) k.2) (
              ap (λ z. value z (record p { ctx = r.0; lex = t }))
                (push-join acc (param_tree d v)))),
      )
  params-Parsed (more_dims d v x ds) fuel (suc n) acc p t s k a b =
      let m = Streams-append (decl_tokens d) (init_tokens v ++ x ∷ dims_tokens ds) p.lex t s in
      let u = Streams-append (init_tokens v) (x ∷ dims_tokens ds) m.0 t m.2 in
      let r =
        param-Parsed d v fuel p m.0 u.0 m.1 u.1 k.0
          (at_first (InitFits v) (x ∷ dims_tokens ds) u.0 t u.2 k.1) a in
      let q : Parser = record p { ctx = r.0; lex = u.0 } in
      let e = next-Streams q x (dims_tokens ds) t u.2 in
      let l = left-Streams (decl_tokens d) p.lex m.0 m.1 in
      let i = left-Streams (init_tokens v) m.0 u.0 u.1 in
      let o =
        params-Parsed ds fuel n (push acc (param_tree d v)) (record q { lex = e.0 }) t e.2 k.3
          (omega (arith, e.3, l, i)) (omega (arith, e.3, l, i)) in
      (
        o.0,
        behind _ _ r.1 (
            behind _ _ (accept-Taken comma (dims_tokens ds) t e k.2) (
              o.1
              ∙ ap (λ z. value z (record p { ctx = o.0; lex = t }))
                  (join-push acc (param_tree d v) (param_trees ds)))),
      )

  -- The first token of declarations is a name.
  dims_id :
      (ds : Dims) (s t : Scanner) (after : Located)
      → Streams s (dims_tokens ds) t
      → DimsFit ds after
      → is_kind (tok s).kind id ≡ true
  unfolding dims_tokens decl_tokens
  dims_id (last_dim (decl ns x y) v) s t after h k =
      let m = Streams-append (names_tokens ns ++ x ∷ y ∷ []) (init_tokens v) s t h in
      (names_first ns (x ∷ y ∷ []) s m.0 m.1 k.0.0).0
  dims_id (more_dims (decl ns x y) v z ds) s t after h k =
      let m =
        Streams-append (names_tokens ns ++ x ∷ y ∷ []) (init_tokens v ++ z ∷ dims_tokens ds) s t
          h in
      (names_first ns (x ∷ y ∷ []) s m.0 m.1 k.0.0).0

  pub optional_params-Parsed :
      (ps : Params) (ctx : String) (fuel : ℕ) (p : Parser) (t : Scanner)
      → Streams p.lex (params_tokens ps) t
      → ParamsFit ps (shown t)
      → left p.lex < fuel
      → (c : Option String) × (optional_params fuel (expr fuel) ctx p
          ≡ value (params_trees ps) (record p { ctx = c; lex = t }))
  unfolding optional_params function_params params_tokens params_trees ordinal Streams
  optional_params-Parsed no_params ctx fuel p t s k a =
      (p.ctx, behind _ _ (accept-first lparen [] p t s k) (λ i. value nil (record p { lex = s i })))
  optional_params-Parsed (bare_params x y) ctx fuel p t s k a =
      let n = next-Streams p x (y ∷ []) t s in
      let q : Parser = record p { ctx = some "function params"; lex = n.0 } in
      let m = next-Streams (record q { ctx = some ctx }) y [] t n.2 in
      let e =
        at_first (λ z. is_kind (located_kind z) id ≡ false) (y ∷ []) n.0 t n.2
          (subst (λ j. is_kind j id ≡ false) (sym k.1) refl) in
      (
        some ctx,
        behind _ _ (accept-Taken lparen (y ∷ []) t n k.0) (
            behind _ _ (otherwise _ _ _ q e refl) (
              behind _ _ (demand-Taken rparen "missing closing ')'" [] t m k.1)
                (λ i. value nil (record q { ctx = some ctx; lex = m.2 i })))),
      )
  optional_params-Parsed (given_params x ds y) ctx fuel p t s k a =
      let n = next-Streams p x (dims_tokens ds ++ y ∷ []) t s in
      let q : Parser = record p { ctx = some "function params"; lex = n.0 } in
      let u = Streams-append (dims_tokens ds) (y ∷ []) n.0 t n.2 in
      let f = at_first (DimsFit ds) (y ∷ []) u.0 t u.2 k.1 in
      let r =
        params-Parsed ds fuel fuel nil q u.0 u.1 f (omega (arith, n.3)) (omega (arith, n.3)) in
      let m = next-Streams (record q { ctx = some ctx; lex = u.0 }) y [] t u.2 in
      (
        some ctx,
        behind _ _ (accept-Taken lparen (dims_tokens ds ++ y ∷ []) t n k.0) (
            behind _ _ (this _ _ _ q (dims_id ds n.0 u.0 (shown u.0) u.1 f) r.1) (
              behind _ _ (demand-Taken rparen "missing closing ')'" [] t m k.2)
                (λ i. value (param_trees ds) (record q { ctx = some ctx; lex = m.2 i })))),
      )

  pub optional_type-Parsed :
      (ty : TypeOf) (fuel : ℕ) (p : Parser) (t : Scanner)
      → Streams p.lex (type_tokens ty) t
      → TypeFits ty (shown t)
      → optional_type fuel (expr fuel) p ≡ value (type_tree ty) (record p { lex = t })
  unfolding optional_type type_tokens Streams
  optional_type-Parsed untyped fuel p t s k =
      behind _ _ (accept-first as_kw [] p t s k) (λ i. value missing (record p { lex = s i }))
  optional_type-Parsed (typed x y) fuel p t s k =
      let n = next-Streams p x (y ∷ []) t s in
      behind _ _ (accept-Taken as_kw (y ∷ []) t n k.0) (
        ap (with_error "missing type after ':'") (type-Parsed y (record p { lex = n.0 }) t n.2 k.1))
