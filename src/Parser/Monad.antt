-- ===== src/Parser/Monad.antt =====
-- The state of the parser, and the macros and `ifj17_parser_init` of src/parser.c.
use Prim.Native.String.{String}
use ifj.Prelude.{ℕ, Bool, true, false, Option, none, some, Result, ok, err, Fault, if◌then◌else◌}
pub use ifj.Token.{is_one_of}
use ifj.Token.{Token, Kind, is_kind}
use ifj.Ast.{Node, missing}
use ifj.Parser.Source.{Source}

module _ ⦃G : Source⦄ where
  open G use {Scanner, scan, tok, line}

  -- `ifj17_parser_t`. The pointer `tok` is NULL before the first token and then points into the
  -- scanner, so it is no field of its own.
  pub record Parser : Type 0 where
    pub ctx : Option String
    pub err : Option String
    pub in_args : ℕ
    pub lex : Scanner

  -- `ifj17_parser_init`
  abbrev pub parser_init : Scanner → Parser
  parser_init lex = record { ctx = none; err = none; in_args = 0; lex = lex }

  -- A call returns a value, or NULL, with the state that it leaves; or it faults.
  pub data Run {ℓ} (A : Type ℓ) : Type ℓ where
    value : A → Parser → Run A
    null : Parser → Run A
    fault : Fault → Run A

  abbrev pub M {ℓ} : Type ℓ → Type ℓ
  M A = Parser → Run A

  abbrev pub bind {ℓ κ} : {A : Type ℓ} {B : Type κ} → Run A → (A → M B) → Run B
  bind (value a q) f = f a q
  bind (null q) f = null q
  bind (fault e) f = fault e

  infixl 5 ◌>>=◌ ◌>>◌
  abbrev pub ◌>>=◌ {ℓ κ} : {A : Type ℓ} {B : Type κ} → M A → (A → M B) → M B
  ◌>>=◌ m f p = bind (m p) f

  abbrev pub ◌>>◌ {ℓ κ} : {A : Type ℓ} {B : Type κ} → M A → M B → M B
  m >> k = m >>= λ _. k

  abbrev pub pure {ℓ} : {A : Type ℓ} → A → M A
  pure a p = value a p

  -- `return NULL`
  abbrev pub give_up {ℓ} : {A : Type ℓ} → M A
  give_up p = null p

  -- The current token, and `lineno`.
  abbrev pub token : M Token
  token p = value (tok p.lex) p

  abbrev pub lineno : M ℕ
  lineno p = value (line p.lex) p

  abbrev pub kind : Parser → Kind
  kind p = (tok p.lex).kind

  -- `is(t)`
  abbrev pub is : Kind → M Bool
  is k p = value (is_kind (kind p) k) p

  abbrev pub scanned : Parser → Result (Bool × Scanner) → Run (Unit {0})
  scanned p (ok (b, s)) = value tt (record p { lex = s })
  scanned p (err e) = fault e

  -- `next`: the returned int is not looked at.
  unfoldable pub next : M (Unit {0})
  next p = scanned p (scan p.lex)

  -- `accept(t)`
  unfoldable pub accept : Kind → M Bool
  accept k p = elim (is_kind (kind p) k) [ true ↦ (next >> pure true) p | false ↦ value false p ]

  -- `if (!accept(t)) return NULL;`
  abbrev pub expect : Kind → M (Unit {0})
  expect k = do a ← accept k; if a then pure tt else give_up

  -- `context(str)`
  abbrev pub context : String → M (Unit {0})
  context s p = value tt (record p { ctx = some s })

  abbrev pub first_error : Option String → String → String
  first_error none s = s
  first_error (some t) s = t

  -- `return error(str)`: NULL, and the message unless there is one.
  abbrev pub error {ℓ} : {A : Type ℓ} → String → M A
  error s p = null (record p { err = some (first_error p.err s) })

  -- `if (!b) return error(str);`
  abbrev pub ensure : Bool → String → M (Unit {0})
  ensure b s = if b then pure tt else error s

  -- `if (!accept(t)) return error(str);`
  abbrev pub demand : Kind → String → M (Unit {0})
  demand k s = do a ← accept k; ensure a s

  -- `if (!is(t)) return error(str);`
  abbrev pub require : Kind → String → M (Unit {0})
  require k s = do a ← is k; ensure a s

  -- `m`, with `return error(str)` where it is NULL.
  abbrev pub with_error {ℓ} : {A : Type ℓ} → String → Run A → Run A
  with_error s (value a q) = value a q
  with_error s (null q) = error s q
  with_error s (fault e) = fault e

  abbrev pub or_error {ℓ} : {A : Type ℓ} → M A → String → M A
  or_error m s p = with_error s (m p)

  -- `m`, whose result may be a NULL pointer that is stored as it is.
  abbrev pub stored : Run Node → Run Node
  stored (value a q) = value a q
  stored (null q) = value missing q
  stored (fault e) = fault e

  abbrev pub nullable : M Node → M Node
  nullable m p = stored (m p)
