-- ===== src/Parser/Program/Sequence.antt =====
-- The loops of src/parser.c that read statements.
use ifj.Prelude.{ℕ, zero, suc, ◌<◌, ◌≡◌, refl, sym, ap, ◌∙◌, arith, Bool, true}
use ifj.Token.{is_kind, semicolon, eos}
use ifj.Ast.{Node, Nodes, nil, cons, push}
use ifj.Parser.Source.{Source}
use ifj.Parser.Monad.{Parser, value, M, kind, accept}
use ifj.Parser.Block.{stmt, block_ends, block_loop}
use ifj.Parser.Grammar.{expr, block, program_loop}
use ifj.Parser.Syntax.Operand.{behind, otherwise}
use ifj.Parser.Syntax.Primary.{this}
use ifj.Parser.Program.Closing.{opens, opens-eos, block_ends-opens}

abbrev pub join : Nodes → Nodes → Nodes
join nil ns = ns
join (cons m ms) ns = cons m (join ms ns)

pub join-nil : (ms : Nodes) → join ms nil ≡ ms
join-nil nil = refl
join-nil (cons m ms) = ap (cons m) (join-nil ms)

pub join-push : (ms : Nodes) (n : Node) (ns : Nodes) → join (push ms n) ns ≡ join ms (cons n ns)
join-push nil n ns = refl
join-push (cons m ms) n ns = ap (cons m) (join-push ms n ns)

pub push-join : (ms : Nodes) (n : Node) → push ms n ≡ join ms (cons n nil)
push-join nil n = refl
push-join (cons m ms) n = ap (cons m) (push-join ms n)

module _ ⦃G : Source⦄ where
  open G use {left}

  -- Statements that `stmt` reads one after the other, with the optional semicolon behind each.
  pub data Listed (fuel : ℕ) (expr block : M Node) : Parser → Nodes → Parser → Type 0 where
    no_more : {p : Parser} → Listed fuel expr block p nil p
    one_more :
        {p q r s : Parser} {node : Node} {rest : Nodes} (b : Bool)
        → opens (kind p) ≡ true
        → stmt fuel expr block p ≡ value node q
        → accept semicolon q ≡ value b r
        → left r.lex < left p.lex
        → Listed fuel expr block r rest s
        → Listed fuel expr block p (cons node rest) s

  pub block_loop-Listed :
      (fuel : ℕ) (expr block : M Node) (f : ℕ) (acc : Nodes) {p q r : Parser} {nodes : Nodes}
      → Listed fuel expr block p nodes q
      → block_ends fuel expr block q ≡ value true r
      → left p.lex < f
      → block_loop fuel expr block f acc p ≡ value (join acc nodes) r
  unfolding block_loop
  block_loop-Listed fuel expr block zero acc h e a = absurd (omega arith)
  block_loop-Listed fuel expr block (suc f) acc {r = r} no_more e a =
      behind _ _ e (ap (λ x. value x r) (sym (join-nil acc)))
  block_loop-Listed fuel expr block (suc f) acc {r = r} (one_more {p} b o s m l h) e a =
      behind _ _ (block_ends-opens fuel expr block p o) (
        behind _ _ s (
          behind _ _ m (
            block_loop-Listed fuel expr block f (push acc _) h e (omega (arith, l))
            ∙ ap (λ x. value x r) (join-push acc _ _))))

  pub program_loop-Listed :
      (fuel f : ℕ) (acc : Nodes) {p q : Parser} {nodes : Nodes}
      → Listed fuel (expr fuel) (block fuel) p nodes q
      → is_kind (kind q) eos ≡ true
      → left p.lex < f
      → program_loop fuel f acc p ≡ value (join acc nodes) q
  unfolding program_loop
  program_loop-Listed fuel zero acc h e a = absurd (omega arith)
  program_loop-Listed fuel (suc f) acc {q} no_more e a =
      this _ _ _ q e (ap (λ x. value x q) (sym (join-nil acc)))
  program_loop-Listed fuel (suc f) acc {q = r} (one_more {p} b o s m l h) e a =
      otherwise _ _ _ p (opens-eos _ o) (
        behind _ _ s (
          behind _ _ m (
            program_loop-Listed fuel f (push acc _) h e (omega (arith, l))
            ∙ ap (λ x. value x r) (join-push acc _ _))))
