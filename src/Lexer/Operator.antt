-- ===== src/Lexer/Operator.antt =====
-- The operators and comments of `ifj17_scan` in src/lexer.c.
use ifj.Prelude.{
  ℕ, ◌||◌, List, [], ◌∷◌, Option, none, some, Bytes, ◌==◌, if◌then◌else◌, overrun, Result, ok, err,
}
use ifj.Token.{
  Kind, lparen, rparen, lbrace, rbrace, lbrack, rbrack, comma, op_dot, op_mod, op_bit_xor,
  op_bit_not, qmark, colon, op_div_assign, semicolon, op_plus, op_incr, op_plus_assign, op_minus,
  op_decr, op_minus_assign, op_mul, op_mul_assign, op_pow, op_div, op_not, op_eq, op_assign, op_neq,
  op_lte, op_bit_shl, op_lt, op_gte, op_bit_shr, op_gt,
}
use ifj.Lexer.State.{Lexer, Step, again, fault, emit}
use ifj.Lexer.Text.{scan_string}

-- A table of bytes with what they lead to.
unfoldable pub find_byte {ℓ} : {A : Type ℓ} → List (ℕ × A) → ℕ → Option A
find_byte [] c = none
find_byte ((b, a) ∷ table) c = if c == b then some a else find_byte table c

-- The cases that return a token at once.
abbrev pub singles : List (ℕ × Kind)
singles =
    (b'(', lparen)
    ∷ (b')', rparen)
    ∷ (b'{', lbrace)
    ∷ (b'}', rbrace)
    ∷ (b'[', lbrack)
    ∷ (b']', rbrack)
    ∷ (b',', comma)
    ∷ (b'.', op_dot)
    ∷ (b'%', op_mod)
    ∷ (b'^', op_bit_xor)
    ∷ (b'~', op_bit_not)
    ∷ (b'?', qmark)
    ∷ (b':', colon)
    ∷ (b'\\', op_div_assign)
    ∷ (b';', semicolon)
    ∷ []

-- A case that looks at the next byte: the longer tokens, and the token if none fits.
pub record Choice : Type 0 where
  pub longer : List (ℕ × Kind)
  pub alone : Kind

abbrev choice : List (ℕ × Kind) → Kind → Choice
choice t k = record { longer = t; alone = k }

abbrev pub doubles : List (ℕ × Choice)
doubles =
    (b'+', choice ((b'+', op_incr) ∷ (b'=', op_plus_assign) ∷ []) op_plus)
    ∷ (b'-', choice ((b'-', op_decr) ∷ (b'=', op_minus_assign) ∷ []) op_minus)
    ∷ (b'*', choice ((b'=', op_mul_assign) ∷ (b'*', op_pow) ∷ []) op_mul)
    ∷ (b'=', choice ((b'=', op_eq) ∷ []) op_assign)
    ∷ (b'<', choice ((b'>', op_neq) ∷ (b'=', op_lte) ∷ (b'<', op_bit_shl) ∷ []) op_lt)
    ∷ (b'>', choice ((b'=', op_gte) ∷ (b'>', op_bit_shr) ∷ []) op_gt)
    ∷ []

-- `case next` of such a token, and `undo` where none of its cases fits.
unfoldable pub scan_choice : Choice → Lexer → Bytes → Step
scan_choice t l [] = fault overrun
scan_choice t l (d ∷ ds) = elim (find_byte t.longer d) [
  | some k ↦ emit k l ds
  | none ↦ emit t.alone l (d ∷ ds)
]

-- `'&'` and `'|'`: the byte twice, and then `=` or not.
unfoldable pub scan_twice : ℕ → Kind → Kind → Kind → Lexer → Bytes → Step
scan_twice b both longest alone l [] = fault overrun
scan_twice b both longest alone l (d ∷ ds) =
    if d == b then scan_choice (choice ((b'=', longest) ∷ []) both) l ds else emit alone l (d ∷ ds)

-- `while ((c = next) != b && c); undo;`
unfoldable pub skip_until : ℕ → Bytes → Result Bytes
skip_until b [] = err overrun
skip_until b (c ∷ cs) = if c == b || c == 0 then ok (c ∷ cs) else skip_until b cs

-- `goto scan` behind a comment.
abbrev pub resume : Lexer → Result Bytes → Step
resume l (ok rest) = again (record l { rest = rest })
resume l (err e) = fault e

-- `case '/'`. The byte that is compared with a quote is not put back.
unfoldable pub scan_slash : Lexer → Bytes → Step
scan_slash l [] = fault overrun
scan_slash l (d ∷ ds) =
    if d == b'\''
    then resume l (skip_until b'\'' ds)
    else scan_choice (choice ((b'=', op_div_assign) ∷ []) op_div) l ds

-- `case '\''`: the end of a block comment, or a comment up to the end of the line.
unfoldable pub scan_quote : Lexer → Bytes → Step
scan_quote l [] = fault overrun
scan_quote l (d ∷ ds) =
    if d == b'/' then again (record l { rest = ds }) else resume l (skip_until b'\n' ds)

-- `case '!'`
unfoldable pub scan_bang : Lexer → Bytes → Step
scan_bang l [] = fault overrun
scan_bang l (d ∷ ds) = if d == b'"' then scan_string l ds else emit op_not l (d ∷ ds)
