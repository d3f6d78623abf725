-- ===== src/Lexer/Scan.antt =====
-- `ifj17_scan` of src/lexer.c, and the loop of `--tokens` in src/ifj17.c.
use ifj.Prelude.{
  ℕ, zero, suc, ◌+◌, ◌*◌, Bool, true, false, ◌||◌, List, [], ◌∷◌, none, some, Bytes, length, ◌==◌,
  if◌then◌else◌, overrun, no_fuel, Result, ok, err,
}
use ifj.Token.{
  Token, semicolon, eos, op_and, op_and_assign, op_fork, op_or, op_or_assign, op_bit_or,
}
use ifj.Lexer.State.{
  Lexer, Step, again, stop, fault, emit, set_kind, fail, illegal_character, need_semi,
}
use ifj.Lexer.Chars.{is_word_start, is_digit}
use ifj.Lexer.Ident.{scan_ident}
use ifj.Lexer.Number.{scan_number}
use ifj.Lexer.Operator.{
  find_byte, singles, doubles, scan_choice, scan_twice, scan_slash, scan_quote, scan_bang,
}

-- `case '\n'` and `case '\r'`
unfoldable pub scan_newline : Lexer → ℕ → Bytes → Step
scan_newline l c cs =
    if need_semi l.tok.kind
    then emit semicolon l (c ∷ cs)
    else again (record l { lineno = l.lineno + 1; rest = cs })

-- The `default` case.
unfoldable pub scan_default : Lexer → ℕ → Bytes → Step
scan_default l c cs =
    if is_word_start c
    then scan_ident l c cs
    else if is_digit c || c == b'.'
    then scan_number l c cs
    else stop false (fail illegal_character (record l { rest = cs }))

-- The cases that are in none of the two tables.
unfoldable pub scan_other : Lexer → ℕ → Bytes → Step
scan_other l c cs =
    if c == b'/'
    then scan_slash l cs
    else if c == b'!'
    then scan_bang l cs
    else if c == b'&'
    then scan_twice b'&' op_and op_and_assign op_fork l cs
    else if c == b'|'
    then scan_twice b'|' op_or op_or_assign op_bit_or l cs
    else if c == b'\''
    then scan_quote l cs
    else if c == b'\n' || c == b'\r'
    then scan_newline l c cs
    else if c == 0
    then stop false (set_kind eos (record l { rest = cs }))
    else scan_default l c cs

-- The `switch` at the byte `c`, with `cs` behind it.
unfoldable pub scan_byte : Lexer → ℕ → Bytes → Step
scan_byte l c cs = elim (c == b' ' || c == b'\t') [
  | true ↦ again (record l { rest = cs })
  | false ↦ elim (find_byte singles c) [
    | some k ↦ emit k l cs
    | none ↦ elim (find_byte doubles c) [ some t ↦ scan_choice t l cs | none ↦ scan_other l c cs ]
  ]
]

-- One round from the label `scan`.
unfoldable pub scan_step : Lexer → Bytes → Step
scan_step l [] = fault overrun
scan_step l (c ∷ cs) = scan_byte l c cs

-- The rounds of one call, a unit of fuel for each.
unfoldable pub scan_rounds : ℕ → Lexer → Result (Bool × Lexer)
scan_rounds zero l = err no_fuel
scan_rounds (suc f) l = elim (scan_step l l.rest) [
  | again l' ↦ scan_rounds f l'
  | stop b l' ↦ ok (b, l')
  | fault e ↦ err e
]

-- `ifj17_scan`: each round but the last reads a byte, so the bytes left bound the rounds.
unfoldable pub scan : Lexer → Result (Bool × Lexer)
scan l = scan_rounds (suc (length l.rest)) l

-- `while (ifj17_scan(&lex))` of `--tokens`, with the tokens in the order of their printing and
-- the line that is printed with each.
unfoldable pub token_loop : ℕ → Lexer → Result (List (ℕ × Token) × Lexer)
token_loop zero l = err no_fuel
token_loop (suc f) l = elim (scan l) [
  | ok (true, l') ↦ elim (token_loop f l') [
    | ok (ts, last) ↦ ok ((l'.lineno, l'.tok) ∷ ts, last)
    | err e ↦ err e
  ]
  | ok (false, l') ↦ ok ([], l')
  | err e ↦ err e
]

-- The whole loop: twice the bytes left bound its rounds, a byte for a token and one more for
-- a semicolon that is inserted.
unfoldable pub tokens : Lexer → Result (List (ℕ × Token) × Lexer)
tokens l = token_loop (2 * length l.rest + 2) l
