-- ===== src/Parser/Syntax/Kinds.antt =====
-- Which tokens start an expression, go on it and end it.
use ifj.Prelude.{ℕ, zero, suc, ◌≡◌, arith, Bool, true, false, [], ◌∷◌, ◌||◌}
use ifj.Token.{
  Kind, ordinal, is_kind, is_one_of, lparen, rparen, op_lnot, dim_kw, op_fork, op_assign,
}
use ifj.Parser.Operators.{prefixes, compounds}
use ifj.Parser.Syntax.{level_ops, atoms, Stops}

pub level_ops-Stops : (n : ℕ) (k : Kind) → is_one_of (level_ops n) k ≡ true → Stops n k
unfolding Stops ordinal
level_ops-Stops zero k h = ground arith
level_ops-Stops (suc zero) k h = ground arith
level_ops-Stops (suc (suc zero)) k h = ground arith
level_ops-Stops (suc (suc (suc zero))) k h = ground arith
level_ops-Stops (suc (suc (suc (suc zero)))) k h = ground arith
level_ops-Stops (suc (suc (suc (suc (suc zero))))) k h = ground arith
level_ops-Stops (suc (suc (suc (suc (suc (suc zero)))))) k h = ground arith
level_ops-Stops (suc (suc (suc (suc (suc (suc (suc zero))))))) k h = ground arith
level_ops-Stops (suc (suc (suc (suc (suc (suc (suc (suc zero)))))))) k h = ground arith
level_ops-Stops (suc (suc (suc (suc (suc (suc (suc (suc (suc zero))))))))) k h = ground arith
level_ops-Stops (suc (suc (suc (suc (suc (suc (suc (suc (suc (suc n)))))))))) k h = ground arith

-- The tokens that an expression starts with.
abbrev pub starts : Kind → Bool
starts k = is_one_of atoms k || is_one_of prefixes k || is_kind k lparen

pub starts_atom : (k : Kind) → is_one_of atoms k ≡ true → starts k ≡ true
unfolding ordinal
starts_atom k h = ground arith

pub starts_prefix : (k : Kind) → is_one_of prefixes k ≡ true → starts k ≡ true
unfolding ordinal
starts_prefix k h = ground arith

pub starts_paren : (k : Kind) → is_kind k lparen ≡ true → starts k ≡ true
unfolding ordinal
starts_paren k h = ground arith

pub starts-not : (k : Kind) → starts k ≡ true → is_kind k op_lnot ≡ false
unfolding ordinal
starts-not k h = ground arith

pub starts-dim : (k : Kind) → starts k ≡ true → is_kind k dim_kw ≡ false
unfolding ordinal
starts-dim k h = ground arith

-- A token behind which an expression is over.
abbrev pub Follows : Kind → Type 0
Follows k =
    Stops 10 k
    × (is_kind k op_fork ≡ false)
    × (is_one_of (op_assign ∷ []) k ≡ false)
    × (is_one_of compounds k ≡ false)

pub atoms-prefixes : (k : Kind) → is_one_of atoms k ≡ true → is_one_of prefixes k ≡ false
unfolding ordinal
atoms-prefixes k h = ground arith

pub lparen-prefixes : (k : Kind) → is_kind k lparen ≡ true → is_one_of prefixes k ≡ false
unfolding ordinal
lparen-prefixes k h = ground arith

rparen-Stops : (k : Kind) → is_kind k rparen ≡ true → Stops 10 k
unfolding Stops ordinal
rparen-Stops k h = ground arith

rparen-fork : (k : Kind) → is_kind k rparen ≡ true → is_kind k op_fork ≡ false
unfolding ordinal
rparen-fork k h = ground arith

rparen-assign : (k : Kind) → is_kind k rparen ≡ true → is_one_of (op_assign ∷ []) k ≡ false
unfolding ordinal
rparen-assign k h = ground arith

rparen-compounds : (k : Kind) → is_kind k rparen ≡ true → is_one_of compounds k ≡ false
unfolding ordinal
rparen-compounds k h = ground arith

pub rparen-Follows : (k : Kind) → is_kind k rparen ≡ true → Follows k
rparen-Follows k h = (rparen-Stops k h, rparen-fork k h, rparen-assign k h, rparen-compounds k h)
