-- ===== src/Parser/Syntax/Stream.antt =====
-- Scanners that give a list of tokens.
use ifj.Prelude.{◌+◌, ◌<◌, ◌≤◌, ◌≡◌, refl, ap, subst, arith, Bool, List, [], ◌∷◌, ◌++◌, length, ok}
use ifj.Parser.Source.{Source, Falls}
use ifj.Parser.Monad.{Parser, value, next, scanned}
use ifj.Parser.Syntax.{Located}

module _ ⦃G : Source⦄ where
  open G use {Scanner, scan, tok, line, left, scan_falls}

  -- From the first state on, the scanner shows the tokens one after the other, and is then in the
  -- second state.
  unfoldable pub Streams : Scanner → List Located → Scanner → Type 0
  Streams s [] t = s ≡ t
  Streams s (x ∷ xs) t =
      (line s ≡ x.0) × (tok s ≡ x.1) × ((u : Bool × Scanner) × (scan s ≡ ok u) × Streams u.1 xs t)

  pub Streams-append :
      (xs ys : List Located) (s t : Scanner)
      → Streams s (xs ++ ys) t
      → (m : Scanner) × Streams s xs m × Streams m ys t
  unfolding Streams
  Streams-append [] ys s t h = (s, refl, h)
  Streams-append (x ∷ xs) ys s t (i, k, (u, e, h)) =
      let r = Streams-append xs ys u.1 t h in (r.0, (i, k, (u, e, r.1)), r.2)

  pub next-scan :
      {p : Parser} {u : Bool × Scanner}
      → scan p.lex ≡ ok u
      → next p ≡ value tt (record p { lex = u.1 })
  unfolding next
  next-scan {p = p} e = ap (scanned p) e

  pub left-scan : {s : Scanner} {u : Bool × Scanner} → scan s ≡ ok u → left u.1 < left s
  left-scan {s} e = subst (Falls left s) e (scan_falls s)

  -- What is left comes down with every token.
  pub left-Streams :
      (xs : List Located) (s t : Scanner) → Streams s xs t → length xs + left t ≤ left s
  unfolding Streams
  left-Streams [] s t h = rw (h) omega arith
  left-Streams (x ∷ xs) s t (i, k, (u, e, h)) = omega (arith, left-scan e, left-Streams xs u.1 t h)

  -- One token of a stream: `next` moves on to the others.
  pub next-Streams :
      (p : Parser) (x : Located) (xs : List Located) (t : Scanner)
      → Streams p.lex (x ∷ xs) t
      → (m : Scanner) × (next p ≡ value tt (record p { lex = m }))
        × Streams m xs t
        × (left m < left p.lex)
        × (line p.lex ≡ x.0)
        × (tok p.lex ≡ x.1)
  unfolding Streams
  next-Streams p x xs t (i, k, (u, e, h)) = (u.1, next-scan {p = p} e, h, left-scan e, i, k)
