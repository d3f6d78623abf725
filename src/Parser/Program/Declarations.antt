-- ===== src/Parser/Program/Declarations.antt =====
-- `decl_expr` of src/parser.c on the tokens of the grammar.
use ifj.Prelude.{
  ℕ, zero, suc, ◌<◌, ◌≡◌, refl, sym, ap, ◌∙◌, subst, arith, true, false, List, [], ◌∷◌, ◌++◌, some,
}
use ifj.Token.{Token, ordinal, is_kind, id, as_kw, comma}
use ifj.Ast.{id_node_new, Nodes, nil, push, decl_node_new}
use ifj.Parser.Source.{Source}
use ifj.Parser.Monad.{Parser, value, with_error}
use ifj.Parser.Expr.{decl_names, decl_expr, type_expr}
use ifj.Parser.Syntax.{Located, located_kind}
use ifj.Parser.Syntax.Stream.{Streams, Streams-append, next-Streams}
use ifj.Parser.Syntax.Operand.{behind, accept-other}
use ifj.Parser.Syntax.Primary.{this}
use ifj.Parser.Program.{
  name_tree, Names, last_name, more_names, names_tokens, names_trees, names_line, Decl, decl,
  decl_tokens, decl_tree, Is, NamesFit, DeclFits,
}
use ifj.Parser.Program.Steps.{at_first, is_kind_refl, is_kind-Taken, accept-Taken, demand-Taken}
use ifj.Parser.Program.Sequence.{join, join-push, push-join}

module _ ⦃G : Source⦄ where
  open G use {Scanner, tok, line, left}

  pub names-Parsed :
      (ns : Names) (f : ℕ) (acc : Nodes) (p : Parser) (t : Scanner)
      → Streams p.lex (names_tokens ns) t
      → NamesFit ns
      → is_kind (tok t).kind comma ≡ false
      → left p.lex < f
      → decl_names f acc p ≡ value (join acc (names_trees ns)) (record p { lex = t })
  unfolding decl_names names_tokens names_trees Streams
  names-Parsed ns zero acc p t s k e a = absurd (omega arith)
  names-Parsed (last_name x) (suc f) acc p t s k e a =
      let n = next-Streams p x [] t s in
      let q : Parser = record p { lex = n.0 } in
      let c = subst (λ y. is_kind (tok y).kind comma ≡ false) (sym n.2) e in
      this _ _ _ p (is_kind-Taken id [] t n k) (
        behind _ _ n.1 (
          behind _ _ (accept-other comma q c) λ i.
            value
              ((ap (push acc) (λ j. id_node_new (n.5 j).as_string (n.4 j))
                  ∙ push-join acc (name_tree x))
                i)
              (record q { lex = n.2 i })))
  names-Parsed (more_names x y ns) (suc f) acc p t s k e a =
      let n = next-Streams p x (y ∷ names_tokens ns) t s in
      let q : Parser = record p { lex = n.0 } in
      let m = next-Streams q y (names_tokens ns) t n.2 in
      this _ _ _ p (is_kind-Taken id (y ∷ names_tokens ns) t n k.0) (
        behind _ _ n.1 (
          behind _ _ (accept-Taken comma (names_tokens ns) t m k.1) (
            ap (λ z. decl_names f (push acc z) (record q { lex = m.0 }))
              (λ j. id_node_new (n.5 j).as_string (n.4 j))
            ∙ names-Parsed ns f (push acc (name_tree x)) (record q { lex = m.0 }) t m.2 k.2 e
                (omega (arith, n.3, m.3))
            ∙ ap (λ z. value z (record q { lex = t }))
                (join-push acc (name_tree x) (names_trees ns)))))

  -- The first name.
  pub names_first :
      (ns : Names) (xs : List Located) (s t : Scanner)
      → Streams s (names_tokens ns ++ xs) t
      → NamesFit ns
      → (is_kind (tok s).kind id ≡ true) × (line s ≡ names_line ns)
  unfolding names_tokens Streams
  names_first (last_name x) xs s t h k = (
    subst (λ j. is_kind j id ≡ true) (sym (ap (λ (y : Token). y.kind) h.1 ∙ k)) (is_kind_refl id),
    h.0,
  )
  names_first (more_names x y ns) xs s t h k = (
    subst (λ j. is_kind j id ≡ true) (sym (ap (λ (y : Token). y.kind) h.1 ∙ k.0)) (is_kind_refl id),
    h.0,
  )

  as-comma : is_kind as_kw comma ≡ false
  unfolding ordinal
  as-comma = refl

  -- The type of a declaration.
  pub type-Parsed :
      (x : Located) (p : Parser) (t : Scanner)
      → Streams p.lex (x ∷ []) t
      → Is id x
      → type_expr p ≡ value (name_tree x) (record p { lex = t })
  unfolding type_expr Streams
  type-Parsed x p t s k =
      let n = next-Streams p x [] t s in
      rw (is_kind-Taken id [] t n k) (
        behind _ _ n.1
          (λ i. value (id_node_new (n.5 i).as_string (n.4 i)) (record p { lex = n.2 i })))

  pub decl-Parsed :
      (d : Decl) (fuel : ℕ) (p : Parser) (t : Scanner)
      → Streams p.lex (decl_tokens d) t
      → DeclFits d
      → left p.lex < fuel
      → decl_expr fuel p ≡ value (decl_tree d) (record p { ctx = some "declaration"; lex = t })
  unfolding decl_expr decl_tokens decl_tree
  decl-Parsed (decl ns x y) fuel p t s k a =
      let m = Streams-append (names_tokens ns) (x ∷ y ∷ []) p.lex t s in
      let q : Parser = record p { ctx = some "declaration" } in
      let r : Parser = record q { lex = m.0 } in
      let f = names_first ns (x ∷ y ∷ []) p.lex t s k.0 in
      let c =
        at_first (λ z. is_kind (located_kind z) comma ≡ false) (x ∷ y ∷ []) m.0 t m.2
          (subst (λ j. is_kind j comma ≡ false) (sym k.1) as-comma) in
      let n = next-Streams r x (y ∷ []) t m.2 in
      let u : Parser = record r { lex = n.0 } in
      this _ _ _ q f.0 (
        behind _ _ (names-Parsed ns fuel nil q m.0 m.1 k.0 c a) (
          behind _ _ (demand-Taken as_kw "expecting type" (y ∷ []) t n k.1) (
            behind _ _ (ap (with_error "expecting type") (type-Parsed y u t n.2 k.2)) (
              ap
                (λ l. value (decl_node_new (names_trees ns) (name_tree y) l) (record q { lex = t }))
                f.1))))
