-- ===== src/Parser/Program/Elses.antt =====
-- The loop of `if_stmt` of src/parser.c over the else-ifs, on the tokens of the grammar.
use Prim.Native.String.{String}
use ifj.Prelude.{
  ℕ, suc, ◌<◌, ◌≡◌, refl, sym, ap, ◌∙◌, subst, arith, false, List, [], ◌∷◌, Option, some,
}
use ifj.Token.{Kind, ordinal, is_kind, is_one_of, else_kw, elseif_kw}
use ifj.Ast.{Node, Nodes, missing, push}
use ifj.Parser.Source.{Source}
use ifj.Parser.Monad.{Parser, value, M}
use ifj.Parser.Block.{else_loop, condition_block}
use ifj.Parser.Grammar.{expr}
use ifj.Parser.Syntax.{Located}
use ifj.Parser.Syntax.Stream.{Streams, next-Streams}
use ifj.Parser.Syntax.Operand.{behind, accept-other}
use ifj.Parser.Syntax.Level.{Parsed}
use ifj.Parser.Program.{Is}
use ifj.Parser.Program.Steps.{accept-Taken}

no_more-else :
    (k : Kind) → is_one_of (else_kw ∷ elseif_kw ∷ []) k ≡ false → is_kind k else_kw ≡ false
unfolding ordinal
no_more-else k h = ground arith

no_more-elseif :
    (k : Kind) → is_one_of (else_kw ∷ elseif_kw ∷ []) k ≡ false → is_kind k elseif_kw ≡ false
unfolding ordinal
no_more-elseif k h = ground arith

elseif-else : is_kind elseif_kw else_kw ≡ false
unfolding ordinal
elseif-else = refl

module _ ⦃G : Source⦄ where
  open G use {Scanner, tok, line, left}

  module _ (fuel : ℕ) (block : M Node) (f l : ℕ) (acc : Nodes) (p : Parser) (t : Scanner) where
    pub else_loop-none :
        p.lex ≡ t
        → is_one_of (else_kw ∷ elseif_kw ∷ []) (tok t).kind ≡ false
        → else_loop fuel (expr fuel) block (suc f) l acc p
          ≡ value (missing, acc) (record p { lex = t })
    unfolding else_loop
    else_loop-none s k =
        let h = subst (λ x. is_one_of (else_kw ∷ elseif_kw ∷ []) (tok x).kind ≡ false) (sym s) k in
        behind _ _ (accept-other else_kw p (no_more-else _ h))
          (behind _ _ (accept-other elseif_kw p (no_more-elseif _ h)) refl)
        ∙ ap (λ y. value (missing, acc) (record p { lex = y })) s

    pub else_loop-else :
        (x : Located) (xs : List Located) (node : Node)
        → Streams p.lex (x ∷ xs) t
        → Is else_kw x
        → ((n : Scanner)
            → Streams n xs t
            → left n < left p.lex
            → (c : Option String) → Parsed (block (record p { ctx = c; lex = n })) p node t)
        → (c : Option String) × (else_loop fuel (expr fuel) block (suc f) l acc p
            ≡ value (node, acc) (record p { ctx = c; lex = t }))
    unfolding else_loop
    else_loop-else x xs node s h b =
        let n = next-Streams p x xs t s in
        let o = b n.0 n.2 n.3 (some "else statement") in
        (o.0, behind _ _ (accept-Taken else_kw xs t n h) (behind _ _ o.1 refl))

    pub else_loop-else_if :
        (x : Located) (xs : List Located) (node right : Node) (all : Nodes)
        → Streams p.lex (x ∷ xs) t
        → Is elseif_kw x
        → ((n : Scanner)
            → Streams n xs t
            → left n < left p.lex
            → (m : Scanner) × Parsed
                (condition_block fuel
                  (expr fuel)
                  block
                  "elseif statement condition"
                  l
                  (record p { lex = n }))
                p
                node
                m
              × ((c : Option String)
                  → (d : Option String) × (else_loop fuel
                        (expr fuel)
                        block
                        f
                        l
                        (push acc node)
                        (record p { ctx = c; lex = m })
                      ≡ value (right, all) (record p { ctx = d; lex = t }))))
        → (c : Option String) × (else_loop fuel (expr fuel) block (suc f) l acc p
            ≡ value (right, all) (record p { ctx = c; lex = t }))
    unfolding else_loop
    else_loop-else_if x xs node right all s h b =
        let n = next-Streams p x xs t s in
        let o = b n.0 n.2 n.3 in
        let z = o.2 o.1.0 in
        let k =
          subst (λ y. is_kind y.kind else_kw ≡ false) (sym n.5)
            (subst (λ j. is_kind j else_kw ≡ false) (sym h) elseif-else) in
        (
          z.0,
          behind _ _ (accept-other else_kw p k)
              (behind _ _ (accept-Taken elseif_kw xs t n h) (behind _ _ o.1.1 z.1)),
        )
