-- ===== src/Parser/Program/Compound.antt =====
-- `scope_stmt`, `while_stmt` and `if_stmt` of src/parser.c on the tokens of the grammar, around
-- the blocks that they hold.
use Prim.Native.String.{String}
use ifj.Prelude.{
  ℕ, ◌<◌, ◌≤◌, ◌≡◌, refl, sym, ap, ◌∙◌, subst, arith, Bool, true, false, List, ◌∷◌, ◌++◌, Option,
  some,
}
use ifj.Token.{Token, ordinal, is_kind, semicolon, then_kw, scope_kw, do_kw, while_kw, if_kw}
use ifj.Ast.{Node, Nodes, nil, scope_node_new, while_node_new, if_node, if_node_new}
use ifj.Parser.Source.{Source}
use ifj.Parser.Monad.{Parser, value, M, accept, next}
use ifj.Parser.Block.{dispatch, stmt, scope_stmt, while_stmt, condition_block, if_stmt, else_loop}
use ifj.Parser.Grammar.{expr}
use ifj.Parser.Syntax.{Located, located_kind}
use ifj.Parser.Syntax.Stream.{
  Streams, Streams-append, next-Streams, next-scan, left-scan, left-Streams,
}
use ifj.Parser.Syntax.Kinds.{Follows}
use ifj.Parser.Syntax.Operand.{behind}
use ifj.Parser.Syntax.Level.{Parsed}
use ifj.Parser.Program.{
  Whole, whole_tokens, whole_tree, Semi, absent, present, semi_tokens, SemiFits, first, Is,
}
use ifj.Parser.Program.Steps.{
  is_kind_refl, shown, at_first, accept-first, accept-Taken, expect-Taken, demand-Taken,
}
use ifj.Parser.Syntax.Primary.{accept-next}
use ifj.Parser.Program.Wholes.{whole-Parsed}
use ifj.Parser.Program.Simple.{stmt-at, followed, then_kw-Follows}

module _ ⦃G : Source⦄ where
  open G use {Scanner, tok, line, left}

  -- What `block` does on some tokens from a scanner on, whatever the context.
  abbrev pub Blocked : M Node → Parser → Node → Scanner → Scanner → Type 0
  Blocked block p node n t =
      (c : Option String) → Parsed (block (record p { ctx = c; lex = n })) p node t

  -- A semicolon that may be there.
  pub semi-Parsed :
      (semi : Semi) (xs : List Located) (p : Parser) (t : Scanner)
      → Streams p.lex (semi_tokens semi ++ xs) t
      → SemiFits semi (first xs (shown t))
      → (b : Bool) × ((m : Scanner) × (accept semicolon p ≡ value b (record p { lex = m }))
          × Streams m xs t
          × (left m ≤ left p.lex))
  semi-Parsed absent xs p t s k =
      (false, (p.lex, accept-first semicolon xs p t s k, s, omega arith))
  semi-Parsed (present x) xs p t s k =
      let n = next-Streams p x xs t s in
      (true, (n.0, accept-Taken semicolon xs t n k, n.2, omega (arith, n.3)))

  -- The state behind the first token of a stream.
  unfoldable pub behind_token :
      (x : Located) (xs : List Located) (s t : Scanner) → Streams s (x ∷ xs) t → Scanner
  unfolding Streams
  behind_token x xs s t h = h.2.0.1

  pub behind_token-Taken :
      (x : Located) (xs : List Located) (p : Parser) (t : Scanner) (h : Streams p.lex (x ∷ xs) t)
      → (next p ≡ value tt (record p { lex = behind_token x xs p.lex t h }))
        × Streams (behind_token x xs p.lex t h) xs t
        × (left (behind_token x xs p.lex t h) < left p.lex)
  unfolding Streams behind_token
  behind_token-Taken x xs p t h = (next-scan {p = p} h.2.1, h.2.2, left-scan h.2.1)

  pub scope_stmt-Parsed :
      (x : Located) (xs : List Located) (fuel : ℕ) (block : M Node) (p : Parser) (t : Scanner)
      (node : Node)
      → Streams p.lex (x ∷ xs) t
      → Is scope_kw x
      → ((n : Scanner) → Streams n xs t → left n < left p.lex → Blocked block p node n t)
      → Parsed (stmt fuel (expr fuel) block p) p (scope_node_new node x.0) t
  unfolding dispatch scope_stmt ordinal
  scope_stmt-Parsed x xs fuel block p t node s h b =
      let q : Parser = record p { ctx = some "scope statement" } in
      let n = next-Streams q x xs t s in
      let o = b n.0 n.2 n.3 q.ctx in
      (
        o.0,
        stmt-at fuel (expr fuel) block scope_kw p (ap (λ (y : Token). y.kind) n.5 ∙ h)
              (behind _ _ (expect-Taken scope_kw xs t n h) (behind _ _ o.1 refl))
            ∙ ap (λ y. value (scope_node_new node y) (record p { ctx = o.0; lex = t })) n.4,
      )

  pub while_stmt-Parsed :
      (x y : Located) (w : Whole) (semi : Semi) (xs : List Located) (fuel : ℕ) (block : M Node)
      (p : Parser) (t : Scanner) (node : Node)
      → Streams p.lex (x ∷ y ∷ (whole_tokens w ++ (semi_tokens semi ++ xs))) t
      → Is do_kw x
      → Is while_kw y
      → Follows (located_kind (first (semi_tokens semi ++ xs) (shown t)))
      → SemiFits semi (first xs (shown t))
      → left p.lex < fuel
      → ((n : Scanner) → Streams n xs t → left n < left p.lex → Blocked block p node n t)
      → Parsed (stmt fuel (expr fuel) block p) p (while_node_new (whole_tree w) node x.0) t
  unfolding dispatch while_stmt ordinal
  while_stmt-Parsed x y w semi xs fuel block p t node s h k f e a b =
      let rest = semi_tokens semi ++ xs in
      let start : Parser = record p { ctx = some "statement" } in
      let n = next-Streams start x (y ∷ (whole_tokens w ++ rest)) t s in
      let m = next-Streams (record start { lex = n.0 }) y (whole_tokens w ++ rest) t n.2 in
      let q : Parser = record p { ctx = some "while statement condition"; lex = m.0 } in
      let u = Streams-append (whole_tokens w) rest m.0 t m.2 in
      let r =
        whole-Parsed w fuel q u.0 u.1 (at_first (λ z. Follows (located_kind z)) rest u.0 t u.2 f)
          (omega (arith, n.3, m.3)) in
      let v : Parser = record q { ctx = r.0; lex = u.0 } in
      let d = semi-Parsed semi xs v t u.2 e in
      let o =
        b d.1.0 d.1.2 (omega (arith, n.3, m.3, d.1.3, left-Streams (whole_tokens w) m.0 u.0 u.1))
          r.0 in
      (
        o.0,
        stmt-at fuel (expr fuel) block do_kw p (ap (λ (z : Token). z.kind) n.5 ∙ h) (
              behind _ _ (expect-Taken do_kw _ t n h) (
                behind _ _ (demand-Taken while_kw "missing 'while'" _ t m k)
                  (behind _ _ r.1 (behind _ _ d.1.1 (behind _ _ o.1 refl)))))
            ∙ ap
                (λ z.
                  value (while_node_new (whole_tree w) node z) (record p { ctx = o.0; lex = t }))
                n.4,
      )

  pub condition_block-Parsed :
      (w : Whole) (y : Located) (xs : List Located) (ctx : String) (l fuel : ℕ) (block : M Node)
      (p : Parser) (m t u : Scanner) (node : Node)
      → Streams p.lex (whole_tokens w) m
      → (s : Streams m (y ∷ xs) t) → Is then_kw y
      → left p.lex < fuel
      → Blocked block p node (behind_token y xs m t s) u
      → Parsed
          (condition_block fuel (expr fuel) block ctx l p)
          p
          (if_node_new (whole_tree w) node l)
          u
  unfolding condition_block
  condition_block-Parsed w y xs ctx l fuel block p m t u node r s h a b =
      let e =
        whole-Parsed w fuel (record p { ctx = some ctx }) m r
          (followed then_kw then_kw-Follows y xs m t s h) a in
      let n = behind_token-Taken y xs (record p { ctx = e.0; lex = m }) t s in
      let k =
        at_first (λ x. is_kind (located_kind x) then_kw ≡ true) (y ∷ xs) m t s
          (subst (λ j. is_kind j then_kw ≡ true) (sym h) (is_kind_refl then_kw)) in
      let o = b (some "if statement") in
      (
        o.0,
        behind _ _ e.1 (
            behind _ _
              (behind _ _ (accept-next then_kw (record p { ctx = e.0; lex = m }) k n.0) refl)
              (behind _ _ o.1 refl)),
      )

  -- `if_stmt`, from what its condition and its other branches do.
  pub if_stmt-Parsed :
      (x : Located) (xs : List Located) (fuel : ℕ) (block : M Node) (p : Parser) (t : Scanner)
      (cond body node : Node) (nodes : Nodes)
      → (s : Streams p.lex (x ∷ xs) t) → Is if_kw x
      → (m : Scanner)
      → ((c : Option String)
          → Parsed
              (condition_block fuel
                (expr fuel)
                block
                "if statement condition"
                x.0
                (record p { ctx = c; lex = behind_token x xs p.lex t s }))
              p
              (if_node_new cond body x.0)
              m)
      → ((c : Option String)
          → (d : Option String) × (else_loop fuel
                (expr fuel)
                block
                fuel
                x.0
                nil
                (record p { ctx = c; lex = m })
              ≡ value (node, nodes) (record p { ctx = d; lex = t })))
      → Parsed (stmt fuel (expr fuel) block p) p (if_node x.0 cond body node nodes) t
  unfolding dispatch if_stmt ordinal Streams
  if_stmt-Parsed x xs fuel block p t cond body node nodes s h m b e =
      let q : Parser = record p { ctx = some "statement" } in
      let n = behind_token-Taken x xs q t s in
      let k =
        at_first (λ y. is_kind (located_kind y) if_kw ≡ true) (x ∷ xs) q.lex t s
          (subst (λ j. is_kind j if_kw ≡ true) (sym h) (is_kind_refl if_kw)) in
      let c = b q.ctx in
      let o = e c.0 in
      (
        o.0,
        stmt-at fuel (expr fuel) block if_kw p (ap (λ (y : Token). y.kind) s.1 ∙ h) (
            behind _ _ (behind _ _ (accept-next if_kw q k n.0) refl) (
              behind _ _
                (ap
                    (λ z.
                      condition_block fuel (expr fuel) block "if statement condition" z
                        (record q { lex = behind_token x xs p.lex t s }))
                    s.0
                  ∙ c.1)
                (behind _ _
                  (ap
                      (λ z.
                        else_loop fuel (expr fuel) block fuel z nil
                          (record p { ctx = c.0; lex = m }))
                      s.0
                    ∙ o.1)
                  refl))),
      )
