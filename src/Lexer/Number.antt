-- ===== src/Lexer/Number.antt =====
-- `scan_number` of src/lexer.c: integer, hexadecimal and double literals.
use ifj.Prelude.{
  ℕ, ◌+◌, ◌-◌, ◌*◌, ◌%◌, Bool, true, false, ◌||◌, [], ◌∷◌, none, some, Bytes, ◌==◌, if◌then◌else◌,
  overrun,
}
use ifj.Token.{int, double, int_mod, Double, of_int, div, mul, pow, IntValue, word, truncated}
use ifj.Lexer.State.{Lexer, Step, stop, fault, fail, set_kind, bad_hex_literal}
use ifj.Lexer.Chars.{is_digit, is_xdigit, hex}

-- `n * 10 + c - '0'`
unfoldable pub digit_step : ℕ → ℕ → ℕ
digit_step n c = (n * 10 + c + (int_mod - b'0')) % int_mod

-- `n << 4 | hex(c)`; where `hex` gives -1 all bits are set.
unfoldable pub hex_step : ℕ → ℕ → ℕ
hex_step n c = elim (hex c) [ some d ↦ n * 16 % int_mod + d | none ↦ int_mod - 1 ]

abbrev pub set_int : Lexer → IntValue → Bytes → Step
set_int l v rest =
    stop true (record l { rest = rest; tok = record (l.tok) { kind = int; as_int = v } })

abbrev pub set_double : Lexer → Double → Bytes → Step
set_double l v rest =
    stop true (record l { rest = rest; tok = record (l.tok) { kind = double; as_double = v } })

-- `expo *= -1` where a minus sign was read.
abbrev pub signed : Bool → ℕ → ℕ
signed minus expo = if minus then (int_mod - expo) % int_mod else expo

-- Label `scan_expo`: `finish` gets the exponent. A plus sign takes the branch of a digit.
unfoldable pub expo_loop : (ℕ → Bytes → Step) → Bool → ℕ → Bytes → Step
expo_loop finish minus expo [] = fault overrun
expo_loop finish minus expo (c ∷ cs) = elim (is_digit c || c == b'+' || c == b'-') [
  | true ↦ expo_loop finish (minus || c == b'-') (if c == b'-' then expo else digit_step expo c) cs
  | false ↦ finish (signed minus expo) (c ∷ cs)
]

abbrev pub scale : Double → ℕ → Double
scale v expo = mul v (pow (of_int 10) (of_int expo))

-- The kinds of bytes that the loops over digits tell apart.
pub data NumberByte : Type 0 where
  digit underscore dot exponent other : NumberByte

unfoldable pub number_byte : ℕ → NumberByte
number_byte c =
    if is_digit c
    then digit
    else if c == b'_'
    then underscore
    else if c == b'.'
    then dot
    else if c == b'e' || c == b'E'
    then exponent
    else other

-- Label `scan_double`, with the digits so far and the power of ten to divide by.
unfoldable pub double_loop : Lexer → ℕ → ℕ → Bytes → Step
double_loop l n e [] = fault overrun
double_loop l n e (c ∷ cs) = elim (number_byte c) [
  | digit ↦ double_loop l (digit_step n c) (e * 10 % int_mod) cs
  | underscore ↦ double_loop l n e cs
  | exponent ↦ expo_loop (λ expo. set_double l (scale (div (of_int n) (of_int e)) expo)) false 0 cs
  | _ ↦ set_double l (div (of_int n) (of_int e)) (c ∷ cs)
]

-- `goto scan_expo` from `scan_int`.
abbrev pub int_expo : Lexer → ℕ → Bytes → Step
int_expo l n = expo_loop (λ expo. set_int l (truncated (scale (of_int n) expo))) false 0

-- Label `scan_int`, at the loop's condition.
unfoldable pub int_loop : Lexer → ℕ → Bytes → Step
int_loop l n [] = fault overrun
int_loop l n (c ∷ cs) = elim (number_byte c) [
  | digit ↦ int_loop l (digit_step n c) cs
  | underscore ↦ int_loop l n cs
  | dot ↦ double_loop l n 1 cs
  | exponent ↦ int_expo l n cs
  | other ↦ set_int l (word n) (c ∷ cs)
]

-- Label `scan_int`, with the first byte at hand.
unfoldable pub scan_int : Lexer → ℕ → Bytes → Step
scan_int l c cs = elim (number_byte c) [
  | underscore ↦ int_loop l 0 cs
  | dot ↦ double_loop l 0 1 cs
  | exponent ↦ int_expo l 0 cs
  | _ ↦ int_loop l (digit_step 0 c) cs
]

-- The loop behind `0x`.
unfoldable pub hex_loop : Lexer → ℕ → Bytes → Step
hex_loop l n [] = fault overrun
hex_loop l n (c ∷ cs) = elim (is_xdigit c) [
  | true ↦ hex_loop l (hex_step n c) cs
  | false ↦ set_int l (word n) (c ∷ cs)
]

-- Behind `0x` at least one digit is wanted.
unfoldable pub scan_hex_digits : Lexer → Bytes → Step
scan_hex_digits l [] = fault overrun
scan_hex_digits l (c ∷ cs) =
    if is_xdigit c
    then hex_loop l (hex_step 0 c) cs
    else stop false (fail bad_hex_literal (record l { rest = cs }))

-- Label `scan_hex`, behind the `0`.
unfoldable pub scan_hex : Lexer → Bytes → Step
scan_hex l [] = fault overrun
scan_hex l (c ∷ cs) = if c == b'x' then scan_hex_digits l cs else scan_int l b'0' (c ∷ cs)

-- `scan_number` at the byte `c`.
unfoldable pub scan_number : Lexer → ℕ → Bytes → Step
scan_number l c cs =
    let l' = set_kind int l in if c == b'0' then scan_hex l' cs else scan_int l' c cs
