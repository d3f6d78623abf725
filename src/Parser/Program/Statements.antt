-- ===== src/Parser/Program/Statements.antt =====
-- `stmt` and `block` of src/parser.c read the statements and the blocks of the grammar.
use Prim.Native.String.{String}
use ifj.Prelude.{
  ℕ, zero, suc, ◌<◌, ◌≤◌, ◌≡◌, refl, sym, ap, ◌∙◌, subst, arith, true, List, ◌∷◌, ◌++◌, Option,
  some,
}
use ifj.Ast.{missing, Node, Nodes, nil, push, if_node_new, block_node}
use ifj.Parser.Source.{Source}
use ifj.Parser.Monad.{Parser, value, M}
use ifj.Parser.Block.{stmt, block_ends, else_loop, block_body}
use ifj.Parser.Grammar.{expr, block}
use ifj.Parser.Syntax.{Located}
use ifj.Parser.Syntax.Stream.{Streams, Streams-append, left-Streams}
use ifj.Parser.Syntax.Operand.{behind}
use ifj.Parser.Syntax.Level.{Parsed}
use ifj.Parser.Program.{
  defined, Stmt, expression, returned, returned_bare, printed, received, dimmed, looped, scoped,
  branched, Branches, no_else, else_block, else_if, Body, body, Items, no_items, item, semi_tokens,
  ending_tokens, whole_tokens, whole_tree, stmt_tokens, branches_tokens, body_tokens, items_tokens,
  stmt_tree, else_tree, else_if_trees, body_tree, items_trees, StmtFits, BranchesFit, BodyFits,
  ItemsFit,
}
use ifj.Parser.Program.Steps.{shown, at_first, Streams-first}
use ifj.Parser.Program.Wholes.{whole-Parsed, whole-starts_any}
use ifj.Parser.Program.Sequence.{
  join, join-nil, join-push, Listed, no_more, one_more, block_loop-Listed,
}
use ifj.Parser.Program.Simple.{print_stmt-Parsed, return_stmt-Parsed, return_stmt_bare-Parsed}
use ifj.Parser.Program.Definitions.{function_stmt-Parsed, input_stmt-Parsed}
use ifj.Parser.Program.Compound.{
  semi-Parsed, behind_token, behind_token-Taken, scope_stmt-Parsed, while_stmt-Parsed,
  condition_block-Parsed, if_stmt-Parsed,
}
use ifj.Parser.Program.Parts.{dim-Parsed, stmt-expr, stmt-Begins, block_ends-Ending}
use ifj.Parser.Program.Elses.{else_loop-none, else_loop-else, else_loop-else_if}

module _ ⦃G : Source⦄ where
  open G use {Scanner, tok, line, left}

  -- Behind some tokens, what is left is no more than before them.
  falls : (xs : List Located) (s t : Scanner) → Streams s xs t → left t ≤ left s
  falls xs s t h = omega (arith, left-Streams xs s t h)

  -- The body of a block, from the statements and the end of it.
  block_body-Listed :
      (fuel : ℕ) (ex bl : M Node) (p q : Parser) (t : Scanner) (nodes : Nodes)
      → Listed fuel ex bl p nodes q
      → block_ends fuel ex bl q ≡ value true (record q { lex = t })
      → left p.lex < fuel
      → block_body fuel ex bl p ≡ value (block_node (line p.lex) nodes) (record q { lex = t })
  unfolding block_body
  block_body-Listed fuel ex bl p q t nodes h e a =
      behind _ _ (block_loop-Listed fuel ex bl fuel nil h e a) refl

  mutual
    unfolding stmt_tokens branches_tokens body_tokens items_tokens stmt_tree else_tree else_if_trees
        body_tree items_trees StmtFits BranchesFit BodyFits ItemsFit block Streams

    pub stmt-Parsed :
        (st : Stmt) (fuel g : ℕ) (p : Parser) (t : Scanner)
        → Streams p.lex (stmt_tokens st) t
        → StmtFits st (shown t)
        → left p.lex < fuel
        → left p.lex ≤ g
        → Parsed (stmt fuel (expr fuel) (block g) p) p (stmt_tree st) t
    stmt-Parsed (expression w) fuel g p t s k a b =
        let r = whole-Parsed w fuel (record p { ctx = some "statement" }) t s k a in
        (r.0, stmt-expr fuel (expr fuel) (block g) p (whole-starts_any w p.lex t s) r.1)
    stmt-Parsed (returned x w) fuel g p t s k a b =
        return_stmt-Parsed x w fuel (block g) p t s k.0 k.1 a
    stmt-Parsed (returned_bare x y) fuel g p t s k a b =
        return_stmt_bare-Parsed x y fuel (block g) p t s k.0 k.1
    stmt-Parsed (printed x ps) fuel g p t s k a b =
        print_stmt-Parsed x ps fuel (block g) p t s k.0 k.1 a
    stmt-Parsed (received x w semi) fuel g p t s k a b =
        input_stmt-Parsed x w semi fuel (block g) p t s k.0 k.1 k.2 a
    stmt-Parsed (dimmed x ds) fuel g p t s k a b = dim-Parsed x ds fuel (block g) p t s k.0 k.1 a
    stmt-Parsed (defined x y ps ty semi b) fuel g p t s k a h =
        function_stmt-Parsed x y ps ty semi (body_tokens b) fuel (block g) p t (body_tree b) s k.0
          k.1 k.2 k.3 k.4 a
          (λ n s l c. block-Parsed b g (record p { ctx = c; lex = n }) t s k.5 (omega arith))
    stmt-Parsed (looped x y w semi b) fuel g p t s k a h =
        while_stmt-Parsed x y w semi (body_tokens b) fuel (block g) p t (body_tree b) s k.0 k.1 k.2
          k.3 a (λ n s l c. block-Parsed b g (record p { ctx = c; lex = n }) t s k.4 (omega arith))
    stmt-Parsed (scoped x b) fuel g p t s k a h =
        scope_stmt-Parsed x (body_tokens b) fuel (block g) p t (body_tree b) s k.0
          (λ n s l c. block-Parsed b g (record p { ctx = c; lex = n }) t s k.1 (omega arith))
    stmt-Parsed (branched x w y b bs) fuel g p t s k a h =
        let after = body_tokens b ++ branches_tokens bs in
        let xs = whole_tokens w ++ y ∷ after in
        let n = behind_token x xs p.lex t s in
        let i = behind_token-Taken x xs p t s in
        let m = Streams-append (whole_tokens w) (y ∷ after) n t i.1 in
        let o = behind_token y after m.0 t m.2 in
        let j = behind_token-Taken y after (record p { lex = m.0 }) t m.2 in
        let u = Streams-append (body_tokens b) (branches_tokens bs) o t j.1 in
        let d = falls (whole_tokens w) n m.0 m.1 in
        let e = falls (body_tokens b) o u.0 u.1 in
        if_stmt-Parsed x xs fuel (block g) p t (whole_tree w) (body_tree b) (else_tree bs)
          (else_if_trees x.0 bs) s k.0 u.0
          (λ c.
            condition_block-Parsed w y after "if statement condition" x.0 fuel (block g)
              (record p { ctx = c; lex = n }) m.0 t u.0 (body_tree b) m.1 m.2 k.1
              (omega (arith, i.2))
              (λ z.
                block-Parsed b g (record p { ctx = z; lex = o }) u.0 u.1
                  (at_first (BodyFits b) (branches_tokens bs) u.0 t u.2 k.2)
                  (omega (arith, i.2, j.2, d))))
          (λ c.
            else_loop-Parsed bs fuel g fuel x.0 nil (record p { ctx = c; lex = u.0 }) t u.2 k.3
              (omega (arith, i.2, j.2, d, e)) (omega (arith, i.2, j.2, d, e))
              (omega (arith, i.2, j.2, d, e)))

    else_loop-Parsed :
        (bs : Branches) (fuel g f l : ℕ) (acc : Nodes) (p : Parser) (t : Scanner)
        → Streams p.lex (branches_tokens bs) t
        → BranchesFit bs (shown t)
        → left p.lex < fuel
        → left p.lex ≤ g
        → left p.lex < f
        → (c : Option String) × (else_loop fuel (expr fuel) (block g) f l acc p
            ≡ value (else_tree bs, join acc (else_if_trees l bs)) (record p { ctx = c; lex = t }))
    else_loop-Parsed bs fuel g zero l acc p t s k a b d = absurd (omega arith)
    else_loop-Parsed no_else fuel g (suc f) l acc p t s k a b d = (
      p.ctx,
      else_loop-none fuel (block g) f l acc p t s k
          ∙ ap (λ x. value (missing, x) (record p { lex = t })) (sym (join-nil acc)),
    )
    else_loop-Parsed (else_block x b) fuel g (suc f) l acc p t s k a h d =
        let r =
          else_loop-else fuel (block g) f l acc p t x (body_tokens b) (body_tree b) s k.0
            (λ n s l c. block-Parsed b g (record p { ctx = c; lex = n }) t s k.1 (omega arith)) in
        (
          r.0,
          r.1
              ∙ ap (λ x. value (body_tree b, x) (record p { ctx = r.0; lex = t }))
                  (sym (join-nil acc)),
        )
    else_loop-Parsed (else_if x w y b bs) fuel g (suc f) l acc p t s k a h d =
        let after = body_tokens b ++ branches_tokens bs in
        let node = if_node_new (whole_tree w) (body_tree b) l in
        let r =
          else_loop-else_if fuel (block g) f l acc p t x (whole_tokens w ++ y ∷ after) node
            (else_tree bs) (join (push acc node) (else_if_trees l bs)) s k.0
            (λ n s i.
              let m = Streams-append (whole_tokens w) (y ∷ after) n t s in
              let o = behind_token y after m.0 t m.2 in
              let j = behind_token-Taken y after (record p { lex = m.0 }) t m.2 in
              let u = Streams-append (body_tokens b) (branches_tokens bs) o t j.1 in
              let v = falls (whole_tokens w) n m.0 m.1 in
              let e = falls (body_tokens b) o u.0 u.1 in
              (
                u.0,
                condition_block-Parsed w y after "elseif statement condition" l fuel (block g)
                    (record p { lex = n }) m.0 t u.0 (body_tree b) m.1 m.2 k.1 (omega arith)
                    (λ z.
                      block-Parsed b g (record p { ctx = z; lex = o }) u.0 u.1
                        (at_first (BodyFits b) (branches_tokens bs) u.0 t u.2 k.2)
                        (omega (arith, j.2))),
                λ c.
                    else_loop-Parsed bs fuel g f l (push acc node) (record p { ctx = c; lex = u.0 })
                      t u.2 k.3 (omega (arith, j.2)) (omega (arith, j.2)) (omega (arith, j.2)),
              )) in
        (
          r.0,
          r.1
              ∙ ap (λ x. value (else_tree bs, x) (record p { ctx = r.0; lex = t }))
                  (join-push acc node (else_if_trees l bs)),
        )

    pub block-Parsed :
        (b : Body) (g : ℕ) (p : Parser) (t : Scanner)
        → Streams p.lex (body_tokens b) t
        → BodyFits b (shown t)
        → left p.lex < g
        → Parsed (block g p) p (body_tree b) t
    block-Parsed b zero p t s k a = absurd (omega arith)
    block-Parsed (body l ss e) (suc f) p t s k a =
        let m = Streams-append (items_tokens ss) (ending_tokens e) p.lex t s in
        let r =
          items-Listed ss (suc f) f p m.0 m.1
            (at_first (ItemsFit ss) (ending_tokens e) m.0 t m.2 k.1) a (omega arith) in
        let q : Parser = record p { ctx = r.0; lex = m.0 } in
        (
          r.0,
          block_body-Listed (suc f) (expr (suc f)) (block f) p q t (items_trees ss) r.1
                (block_ends-Ending (suc f) (expr (suc f)) (block f) e q t m.2 k.2) a
              ∙ ap (λ x. value (block_node x (items_trees ss)) (record q { lex = t }))
                  (ap (λ (x : Located). x.0)
                      (Streams-first (items_tokens ss ++ ending_tokens e) p.lex t s)
                    ∙ sym k.0),
        )

    pub items-Listed :
        (ss : Items) (fuel g : ℕ) (p : Parser) (t : Scanner)
        → Streams p.lex (items_tokens ss) t
        → ItemsFit ss (shown t)
        → left p.lex < fuel
        → left p.lex ≤ g
        → (c : Option String) × Listed fuel
            (expr fuel)
            (block g)
            p
            (items_trees ss)
            (record p { ctx = c; lex = t })
    items-Listed no_items fuel g p t s k a b = (
      p.ctx,
      subst (λ x. Listed fuel (expr fuel) (block g) p nil (record p { lex = x })) s no_more,
    )
    items-Listed (item st semi ss) fuel g p t s k a b =
        let rest = semi_tokens semi ++ items_tokens ss in
        let m = Streams-append (stmt_tokens st) rest p.lex t s in
        let fit = at_first (StmtFits st) rest m.0 t m.2 k.0 in
        let r = stmt-Parsed st fuel g p m.0 m.1 fit a b in
        let q : Parser = record p { ctx = r.0; lex = m.0 } in
        let d = semi-Parsed semi (items_tokens ss) q t m.2 k.1 in
        let e = stmt-Begins st p.lex m.0 (shown m.0) m.1 fit in
        let o =
          items-Listed ss fuel g (record q { lex = d.1.0 }) t d.1.2 k.2 (omega (arith, d.1.3, e.1))
            (omega (arith, d.1.3, e.1)) in
        (o.0, one_more d.0 e.0 r.1 d.1.1 (omega (arith, d.1.3, e.1)) o.1)
