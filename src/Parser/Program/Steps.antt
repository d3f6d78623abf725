-- ===== src/Parser/Program/Steps.antt =====
-- One token of a stream, taken by `accept` and `expect`, and the token that stands behind a
-- part.
use Prim.Native.String.{String}
use ifj.Prelude.{◌<◌, ◌≡◌, refl, sym, ap, ◌∙◌, subst, arith, true, false, List, [], ◌∷◌}
use ifj.Token.{Token, Kind, is_kind}
use ifj.Parser.Source.{Source}
use ifj.Parser.Monad.{Parser, value, kind, next, accept, expect, demand}
use ifj.Parser.Syntax.{Located, located_kind}
use ifj.Parser.Syntax.Stream.{Streams}
use ifj.Parser.Syntax.Operand.{behind, accept-other}
use ifj.Parser.Syntax.Primary.{accept-next}
use ifj.Parser.Program.{first, Is}

pub is_kind_refl : (k : Kind) → is_kind k k ≡ true
is_kind_refl k = ground arith

module _ ⦃G : Source⦄ where
  open G use {Scanner, tok, line, left}

  -- The token that a scanner shows, with its line.
  abbrev pub shown : Scanner → Located
  shown s = (line s, tok s)

  pub Streams-first :
      (xs : List Located) (s t : Scanner) → Streams s xs t → shown s ≡ first xs (shown t)
  unfolding Streams
  Streams-first [] s t h = ap shown h
  Streams-first (x ∷ xs) s t h = λ i. (h.0 i, h.1 i)

  -- A fact about the token in front of a part, from the part's tokens.
  pub at_first :
      (P : Located → Type 0) (xs : List Located) (s t : Scanner)
      → Streams s xs t
      → P (first xs (shown t))
      → P (shown s)
  at_first P xs s t h k = subst P (sym (Streams-first xs s t h)) k

  -- What is known behind the first token of a stream.
  abbrev pub Taken : Parser → Located → List Located → Scanner → Type 0
  Taken p x xs t =
      (m : Scanner) × (next p ≡ value tt (record p { lex = m }))
      × Streams m xs t
      × (left m < left p.lex)
      × (line p.lex ≡ x.0)
      × (tok p.lex ≡ x.1)

  pub is_kind-Taken :
      (k : Kind) {p : Parser} {x : Located} (xs : List Located) (t : Scanner)
      → Taken p x xs t
      → Is k x
      → is_kind (kind p) k ≡ true
  is_kind-Taken k {p} xs t m h =
      subst (λ j. is_kind j k ≡ true) (sym (ap (λ (t : Token). t.kind) m.5 ∙ h)) (is_kind_refl k)

  pub accept-Taken :
      (k : Kind) {p : Parser} {x : Located} (xs : List Located) (t : Scanner) (m : Taken p x xs t)
      → Is k x
      → accept k p ≡ value true (record p { lex = m.0 })
  accept-Taken k {p} xs t m h = accept-next k p (is_kind-Taken k xs t m h) m.1

  pub expect-Taken :
      (k : Kind) {p : Parser} {x : Located} (xs : List Located) (t : Scanner) (m : Taken p x xs t)
      → Is k x
      → expect k p ≡ value tt (record p { lex = m.0 })
  expect-Taken k xs t m h = behind _ _ (accept-Taken k xs t m h) refl

  pub demand-Taken :
      (k : Kind) (s : String) {p : Parser} {x : Located} (xs : List Located) (t : Scanner)
      (m : Taken p x xs t)
      → Is k x
      → demand k s p ≡ value tt (record p { lex = m.0 })
  demand-Taken k s xs t m h = behind _ _ (accept-Taken k xs t m h) refl

  -- A test that fails at the first token of a part.
  pub accept-first :
      (k : Kind) (xs : List Located) (p : Parser) (t : Scanner)
      → Streams p.lex xs t
      → is_kind (located_kind (first xs (shown t))) k ≡ false
      → accept k p ≡ value false p
  accept-first k xs p t h e =
      accept-other k p (at_first (λ x. is_kind (located_kind x) k ≡ false) xs p.lex t h e)
