-- ===== src/Lexer/Strings.antt =====
-- String literals.
use ifj.Prelude.{
  ℕ, ◌+◌, ◌<◌, ◌≡◌, refl, ap, sym, ◌∙◌, Bool, true, [], ◌∷◌, ◌++◌, Bytes, arith, ok, err, overrun,
  All, not, ◌||◌, ◌==◌, length, append_assoc, append-nil, if◌then◌else◌, lt→ltb,
}
use ifj.Token.{string}
use ifj.Lexer.State.{Lexer, fault, set_kind, memory}
use ifj.Lexer.Ident.{buf_size}
use ifj.Lexer.Text.{plain, string_step, string_loop, scan_string, finish_string, c_string}
use ifj.Lexer.Operator.{find_byte, scan_bang}
use ifj.Lexer.Scan.{scan_step, scan_byte, scan_other, scan}
use ifj.Lexer.Steps.{scan_stop, scan_fault}

-- A byte that a literal may hold as it is.
abbrev pub is_plain : ℕ → Bool
is_plain c = not (c == b'"' || c == b'\\')

abbrev pub is_text : ℕ → Bool
is_text c = not (c == b'"' || c == b'\\' || c == 0)

abbrev pub line_breaks : Bytes → ℕ
line_breaks [] = 0
line_breaks (c ∷ cs) = (if c == b'\n' then 1 else 0) + line_breaks cs

step_string : (l : Lexer) (cs : Bytes) → scan_step l (b'!' ∷ b'"' ∷ cs) ≡ scan_string l cs
unfolding scan_step scan_byte find_byte scan_other scan_bang
step_string l cs = refl

string_loop_plain :
    (l : Lexer) (buf : Bytes) (c : ℕ) (cs : Bytes)
    → is_plain c ≡ true
    → string_loop plain l buf (c ∷ cs)
      ≡ string_loop plain
          (record l { lineno = if c == b'\n' then l.lineno + 1 else l.lineno })
          (buf ++ c ∷ [])
          cs
unfolding string_loop string_step
string_loop_plain l buf c cs h = ground arith

string_loop_open :
    (body : Bytes) (l : Lexer) (buf : Bytes)
    → All is_plain body
    → string_loop plain l buf body ≡ fault overrun
string_loop_open [] l buf h = unfold string_loop in refl
string_loop_open (c ∷ cs) l buf h =
    string_loop_plain l buf c cs h.0 ∙ string_loop_open cs _ (buf ++ c ∷ []) h.1

-- A literal whose closing quote is missing, with no backslash up to the terminator, makes the
-- scanner read behind it.
pub scan_open_string :
    (l : Lexer) (body : Bytes)
    → l.rest ≡ b'!' ∷ b'"' ∷ memory body
    → All is_plain (memory body)
    → scan l ≡ err overrun
unfolding scan_string
scan_open_string l body e h = scan_fault l (
    ap (scan_step l) e
    ∙ step_string l (memory body)
    ∙ string_loop_open (memory body) (set_kind string l) [] h)

finish_string_from :
    (l : Lexer) (rest : Bytes) {m n : ℕ} {a b : Bytes}
    → m ≡ n
    → a ≡ b
    → finish_string (record l { lineno = m }) a rest
      ≡ finish_string (record l { lineno = n }) b rest
finish_string_from l rest p q = λ i. finish_string (record l { lineno = p i }) (q i) rest

string_loop_text :
    (body : Bytes) (l : Lexer) (buf rest : Bytes)
    → All is_text body
    → string_loop plain l buf (body ++ b'"' ∷ rest)
      ≡ finish_string (record l { lineno = l.lineno + line_breaks body }) (buf ++ body) rest
string_loop_text [] l buf rest h =
    unfold string_loop string_step in finish_string_from l rest (omega arith) (sym (append-nil buf))
string_loop_text (c ∷ cs) l buf rest h =
    string_loop_plain l buf c (cs ++ b'"' ∷ rest) (ground arith)
    ∙ string_loop_text cs _ (buf ++ c ∷ []) rest h.1
    ∙ finish_string_from l rest (ground arith) (append_assoc buf (c ∷ []) cs)

c_string-All : (body : Bytes) → All is_text body → c_string body ≡ body
unfolding c_string
c_string-All [] h = refl
c_string-All (c ∷ cs) h = ground (arith, c_string-All cs h.1)

-- A literal of at most 127 bytes, none of them a quote, a backslash or zero, is read as one
-- token that carries the bytes as they stand; the line breaks in it are counted.
pub scan_text :
    (l : Lexer) (body rest : Bytes)
    → l.rest ≡ b'!' ∷ b'"' ∷ (body ++ b'"' ∷ rest)
    → All is_text body
    → length body < buf_size
    → scan l
      ≡ ok (
        true,
        record l {
          lineno = l.lineno + line_breaks body;
          rest = rest;
          tok = record (l.tok) { kind = string; as_string = body };
        },
      )
unfolding scan_string finish_string
scan_text l body rest e h short = scan_stop l (
    ap (scan_step l) e
    ∙ step_string l _
    ∙ string_loop_text body (set_kind string l) [] rest h
    ∙ rw (lt→ltb (length body) buf_size short, finish_string, c_string-All body h))
