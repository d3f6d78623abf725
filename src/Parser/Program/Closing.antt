-- ===== src/Parser/Program/Closing.antt =====
-- Where a block of src/parser.c ends, and where it goes on.
use ifj.Ast.{Node}
use ifj.Prelude.{
  ℕ, Bool-cases, inl, inr, ◌≡◌, refl, sym, subst, arith, Bool, true, false, [], ◌∷◌, ◌||◌,
}
use ifj.Token.{
  input_kw, Kind, ordinal, is_kind, is_one_of, end_kw, else_kw, elseif_kw, loop_kw, function_kw,
  scope_kw, if_kw, eos, semicolon, return_kw, print_kw, do_kw,
}
use ifj.Parser.Source.{Source}
use ifj.Parser.Monad.{Parser, value, M, kind, next}
use ifj.Parser.Block.{closing, block_ends}
use ifj.Parser.Syntax.{Located, located_kind}
use ifj.Parser.Syntax.Operand.{behind, otherwise, accept-other}
use ifj.Parser.Syntax.Primary.{this, accept-next}
use ifj.Parser.Program.{Is, starts_any}
use ifj.Parser.Program.Steps.{Taken, is_kind-Taken, accept-Taken}

-- The tokens that a statement of the grammar starts with.
abbrev pub opens : Kind → Bool
opens k =
    starts_any k
    || is_one_of (return_kw ∷ print_kw ∷ input_kw ∷ function_kw ∷ do_kw ∷ scope_kw ∷ if_kw ∷ []) k

module _ (k : Kind) (h : opens k ≡ true) where
  opens-else : is_one_of (else_kw ∷ elseif_kw ∷ []) k ≡ false
  unfolding ordinal
  opens-else = ground arith

  opens-loop : is_kind k loop_kw ≡ false
  unfolding ordinal
  opens-loop = ground arith

  opens-end : is_kind k end_kw ≡ false
  unfolding ordinal
  opens-end = ground arith

  pub opens-eos : is_kind k eos ≡ false
  unfolding ordinal
  opens-eos = ground arith

  pub opens-semicolon : is_kind k semicolon ≡ false
  unfolding ordinal
  opens-semicolon = ground arith

loop-else : (k : Kind) → is_kind k loop_kw ≡ true → is_one_of (else_kw ∷ elseif_kw ∷ []) k ≡ false
unfolding ordinal
loop-else k h = ground arith

end-else : (k : Kind) → is_kind k end_kw ≡ true → is_one_of (else_kw ∷ elseif_kw ∷ []) k ≡ false
unfolding ordinal
end-else k h = ground arith

end-loop : (k : Kind) → is_kind k end_kw ≡ true → is_kind k loop_kw ≡ false
unfolding ordinal
end-loop k h = ground arith

last_word :
    (k : Kind)
    → is_one_of (function_kw ∷ scope_kw ∷ if_kw ∷ []) k ≡ true
    → is_kind k function_kw ≡ false
    → is_kind k scope_kw ≡ false
    → is_kind k if_kw ≡ true
unfolding ordinal
last_word k h i j = ground arith

module _ ⦃G : Source⦄ (fuel : ℕ) (expr block : M Node) where
  open G use {Scanner}

  pub block_ends-opens :
      (p : Parser) → opens (kind p) ≡ true → block_ends fuel expr block p ≡ value false p
  unfolding block_ends
  block_ends-opens p h = otherwise _ _ _ p (opens-else _ h) (
      behind _ _ (accept-other loop_kw p (opens-loop _ h))
        (behind _ _ (accept-other end_kw p (opens-end _ h)) refl))

  pub block_ends-else :
      (p : Parser)
      → is_one_of (else_kw ∷ elseif_kw ∷ []) (kind p) ≡ true
      → block_ends fuel expr block p ≡ value true p
  unfolding block_ends
  block_ends-else p h = this _ _ _ p h refl

  pub block_ends-loop :
      {p : Parser} {x : Located} (t : Scanner) (m : Taken p x [] t)
      → Is loop_kw x
      → block_ends fuel expr block p ≡ value true (record p { lex = m.0 })
  unfolding block_ends
  block_ends-loop {p} t m h =
      otherwise _ _ _ p (loop-else _ (is_kind-Taken loop_kw [] t m h))
        (behind _ _ (accept-Taken loop_kw [] t m h) refl)

  -- The word behind `end`.
  closing-Taken :
      (p q : Parser)
      → is_one_of (function_kw ∷ scope_kw ∷ if_kw ∷ []) (kind p) ≡ true
      → next p ≡ value tt q
      → closing fuel expr block p ≡ value tt q
  unfolding closing
  closing-Taken p q h n = elim (Bool-cases (is_kind (kind p) function_kw)) [
    | inl i ↦ behind _ _ (accept-next function_kw p i n) refl
    | inr i ↦
        behind _ _ (accept-other function_kw p i) (elim (Bool-cases (is_kind (kind p) scope_kw)) [
          | inl j ↦ behind _ _ (accept-next scope_kw p j n) refl
          | inr j ↦
              behind _ _ (accept-other scope_kw p j)
                (behind _ _ (accept-next if_kw p (last_word _ h i j) n) refl)
        ])
  ]

  pub block_ends-end :
      {p : Parser} {x y : Located} (t : Scanner) (m : Taken p x (y ∷ []) t)
      (n : Taken (record p { lex = m.0 }) y [] t)
      → Is end_kw x
      → is_one_of (function_kw ∷ scope_kw ∷ if_kw ∷ []) (located_kind y) ≡ true
      → block_ends fuel expr block p ≡ value true (record p { lex = n.0 })
  unfolding block_ends
  block_ends-end {p} t m n h k =
      let e = is_kind-Taken end_kw _ t m h in
      otherwise _ _ _ p (end-else _ e) (
        behind _ _ (accept-other loop_kw p (end-loop _ e)) (
          behind _ _ (accept-Taken end_kw _ t m h) (
            behind _ _
              (closing-Taken (record p { lex = m.0 }) _
                (subst (λ x. is_one_of (function_kw ∷ scope_kw ∷ if_kw ∷ []) x.kind ≡ true)
                  (sym n.5) k)
                n.1)
              refl)))
