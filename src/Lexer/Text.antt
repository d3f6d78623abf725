-- ===== src/Lexer/Text.antt =====
-- `scan_string` and `hex_literal` of src/lexer.c: string literals.
use ifj.Prelude.{
  ℕ, ◌+◌, ◌*◌, true, false, [], ◌∷◌, ◌++◌, Option, none, some, Bytes, length, ltb, ◌==◌,
  if◌then◌else◌, overrun, overflow,
}
use ifj.Token.{string}
use ifj.Lexer.State.{Lexer, Step, stop, fault, set_kind, fail, bad_hex_string}
use ifj.Lexer.Chars.{hex}
use ifj.Lexer.Ident.{buf_size}

-- The three digits of the escape that stands for a byte, with the backslash where the code
-- writes one; `none` for the bytes that the inner switch leaves alone.
unfoldable pub escape_digits : ℕ → Option Bytes
escape_digits c =
    if c == b'a'
    then some (b'0' ∷ b'0' ∷ b'7' ∷ [])
    else if c == b'b'
    then some (b'\\' ∷ b'0' ∷ b'0' ∷ b'8' ∷ [])
    else if c == b'e'
    then some (b'\\' ∷ b'0' ∷ b'2' ∷ b'7' ∷ [])
    else if c == b'f'
    then some (b'\\' ∷ b'0' ∷ b'1' ∷ b'2' ∷ [])
    else if c == b'n'
    then some (b'\\' ∷ b'0' ∷ b'3' ∷ b'5' ∷ [])
    else if c == b'r'
    then some (b'\\' ∷ b'0' ∷ b'1' ∷ b'3' ∷ [])
    else if c == b't'
    then some (b'\\' ∷ b'0' ∷ b'0' ∷ b'9' ∷ [])
    else if c == b'v'
    then some (b'\\' ∷ b'0' ∷ b'1' ∷ b'1' ∷ [])
    else none

-- The bytes that an escape stores: the digits and then '\035', or the byte itself.
unfoldable pub escape_bytes : ℕ → Bytes
escape_bytes c = elim (escape_digits c) [ some ds ↦ ds ++ 29 ∷ [] | none ↦ c ∷ [] ]

-- `a << 4 | b`, on hexadecimal digits.
unfoldable pub hex_literal : ℕ → ℕ → Option ℕ
hex_literal x y = elim (hex x) [
  | some a ↦ elim (hex y) [ some b ↦ some (a * 16 + b) | none ↦ none ]
  | none ↦ none
]

-- `strdup(buf)`: the copy ends at the first zero.
unfoldable pub c_string : Bytes → Bytes
c_string [] = []
c_string (c ∷ cs) = if c == 0 then [] else c ∷ c_string cs

-- The literal is read: `buf[len++] = 0` and the copy.
unfoldable pub finish_string : Lexer → Bytes → Bytes → Step
finish_string l buf rest =
    if ltb (length buf) buf_size
    then stop true
        (record l { rest = rest; tok = record (l.tok) { kind = string; as_string = c_string buf } })
    else fault overflow

-- Where the loop stands when it reads a byte: at its head, behind a backslash, and at the two
-- digits of a hexadecimal escape.
pub data Point : Type 0 where
  plain escape hex_first : Point
  hex_second : ℕ → Point

-- What the byte read there leads to: the loop's end, a failed `hex_literal`, or the next
-- byte, with the line number and the bytes stored so far.
pub data StringStep : Type 0 where
  closed bad_hex : StringStep
  goes_on : Point → ℕ → Bytes → StringStep

unfoldable pub string_step : Point → ℕ → Bytes → ℕ → StringStep
string_step plain line buf c =
    if c == b'"'
    then closed
    else if c == b'\\'
    then goes_on escape line buf
    else goes_on plain (if c == b'\n' then line + 1 else line) (buf ++ c ∷ [])
string_step escape line buf c =
    if c == b'x' then goes_on hex_first line buf else goes_on plain line (buf ++ escape_bytes c)
string_step hex_first line buf c = goes_on (hex_second c) line buf
string_step (hex_second x) line buf c = elim (hex_literal x c) [
  | some v ↦ goes_on plain line (buf ++ v ∷ [])
  | none ↦ bad_hex
]

-- The loop of `scan_string`. A write behind `buf` is reported when the literal is closed.
unfoldable pub string_loop : Point → Lexer → Bytes → Bytes → Step
string_loop m l buf [] = fault overrun
string_loop m l buf (c ∷ cs) = elim (string_step m l.lineno buf c) [
  | closed ↦ finish_string l buf cs
  | bad_hex ↦ stop false (fail bad_hex_string (record l { rest = cs }))
  | goes_on m' line buf' ↦ string_loop m' (record l { lineno = line }) buf' cs
]

-- `scan_string`, behind the opening `!"`.
unfoldable pub scan_string : Lexer → Bytes → Step
scan_string l cs = string_loop plain (set_kind string l) [] cs
