-- ===== src/Parser/Reads.antt =====
-- How the parts of the parser use up the input: the measure of what is left to scan falls where
-- a call succeeds, and does not grow where it gives up. From this the fuel is enough.
pub mod Terms
pub mod Calls
pub mod Levels
pub mod Statements
pub mod Blocks
use Prim.Native.String.{String}
use ifj.Prelude.{
  ℕ, suc, ◌≤◌, ◌<◌, ◌≡◌, refl, Bool, true, false, Bool-cases, inl, inr, arith, Result, ok, err,
  Fault, IsReal,
}
use ifj.Token.{Kind, is_kind}
use ifj.Ast.{Node, missing}
use ifj.Parser.Source.{Source, Falls}
use ifj.Parser.Monad.{
  Parser, Run, value, null, fault, M, bind, stored, with_error, scanned, pure, kind, next, accept,
  expect, demand, require, or_error, nullable,
}

module _ ⦃G : Source⦄ where
  open G use {scan, left, scan_falls}

  abbrev pub size : Parser → ℕ
  size p = left p.lex

  -- The run returns a value with `P`, or gives up with at most `n` left to scan, or meets a
  -- fault of the program.
  pub data Ensures {ℓ} {A : Type ℓ} (n : ℕ) (P : A → Parser → Type 0) : Run A → Type ℓ where
    returns : {a : A} {q : Parser} → P a q → Ensures n P (value a q)
    gives_up : {q : Parser} → size q ≤ n → Ensures n P (null q)
    faults : {e : Fault} → IsReal e → Ensures n P (fault e)

  module _ {ℓ} {A : Type ℓ} {n : ℕ} {P : A → Parser → Type 0} where
    pub after {κ} :
        {B : Type κ} {Q : B → Parser → Type 0} {r : Run A} {f : A → M B}
        → Ensures n P r
        → ((a : A) (q : Parser) → P a q → Ensures n Q (f a q))
        → Ensures n Q (bind r f)
    after (returns {a} {q} h) k = k a q h
    after (gives_up h) k = gives_up h
    after (faults h) k = faults h

    pub Ensures-with_error : (s : String) {r : Run A} → Ensures n P r → Ensures n P (with_error s r)
    Ensures-with_error s (returns h) = returns h
    Ensures-with_error s (gives_up h) = gives_up h
    Ensures-with_error s (faults h) = faults h

    pub weaken :
        {Q : A → Parser → Type 0} {m : ℕ} {r : Run A}
        → n ≤ m
        → ((a : A) (q : Parser) → P a q → Q a q)
        → Ensures n P r
        → Ensures m Q r
    weaken le k (returns {a} {q} h) = returns (k a q h)
    weaken le k (gives_up h) = gives_up (omega arith)
    weaken le k (faults h) = faults h

  -- A test, with what it tells either branch.
  pub choose {ℓ} :
      {A : Type ℓ} {n : ℕ} {P : A → Parser → Type 0} (b : Bool) (x y : M A) (p : Parser)
      → (b ≡ true → Ensures n P (x p))
      → (b ≡ false → Ensures n P (y p))
      → Ensures n P ((elim b as (λ _. M A) [ true ↦ x | false ↦ y ]) p)
  choose true x y p h k = h refl
  choose false x y p h k = k refl

  -- The measure has fallen, or at least not grown.
  abbrev pub Fell : {A : Type 0} → Parser → A → Parser → Type 0
  Fell p a q = size q < size p

  abbrev pub Kept : {A : Type 0} → Parser → A → Parser → Type 0
  Kept p a q = size q ≤ size p

  -- What `accept` has done.
  abbrev pub Moved : Kind → Parser → Bool → Parser → Type 0
  Moved k p true q = size q < size p
  Moved k p false q = (size q ≤ size p) × (is_kind (kind q) k ≡ false)

  pub Ensures-stored :
      {n : ℕ} (p : Parser) {r : Run Node}
      → Ensures (size p) (Fell p) r
      → Ensures n (λ a q. size q ≤ size p) (stored r)
  Ensures-stored p (returns h) = returns (omega arith)
  Ensures-stored p (gives_up h) = returns h
  Ensures-stored p (faults h) = faults h

  scanned-Ensures :
      (n : ℕ) (p : Parser) (r : Result (Bool × G.Scanner))
      → Falls left p.lex r
      → Ensures n (Fell p) (scanned p r)
  scanned-Ensures n p (ok (b, s)) h = returns h
  scanned-Ensures n p (err e) h = faults h

  pub next-Ensures : (n : ℕ) (p : Parser) → Ensures n (Fell p) (next p)
  unfolding next
  next-Ensures n p = scanned-Ensures n p (scan p.lex) (scan_falls p.lex)

  pub accept-Ensures : (n : ℕ) (k : Kind) (p : Parser) → Ensures n (Moved k p) (accept k p)
  unfolding accept
  accept-Ensures n k p = elim (Bool-cases (is_kind (kind p) k)) [
    | inl e ↦ rw (e, accept) (after (next-Ensures n p) λ a q h. returns h)
    | inr e ↦ rw (e, accept) (returns (omega arith, e))
  ]

  pub accept-Kept : (n : ℕ) (k : Kind) (p : Parser) → size p ≤ n → Ensures n (Kept p) (accept k p)
  accept-Kept n k p h =
      weaken (omega arith) (elim [ true ↦ λ q m. omega arith | false ↦ λ q m. m.0 ])
        (accept-Ensures n k p)

  pub expect-Ensures :
      (n : ℕ) (k : Kind) (p : Parser) → size p ≤ n → Ensures n (Fell p) (expect k p)
  expect-Ensures n k p h =
      after (accept-Ensures n k p)
        (elim [ true ↦ λ q k. returns k | false ↦ λ q k. gives_up (omega arith) ])

  pub demand-Ensures :
      (n : ℕ) (k : Kind) (s : String) (p : Parser) → size p ≤ n → Ensures n (Fell p) (demand k s p)
  demand-Ensures n k s p h =
      after (accept-Ensures n k p)
        (elim [ true ↦ λ q k. returns k | false ↦ λ q k. gives_up (omega arith) ])

  pub require-Ensures :
      (n : ℕ) (k : Kind) (s : String) (p : Parser) → size p ≤ n → Ensures n (Kept p) (require k s p)
  require-Ensures n k s p h = elim (Bool-cases (is_kind (kind p) k)) [
    | inl e ↦ rw e (returns (omega arith))
    | inr e ↦ rw e (gives_up h)
  ]
