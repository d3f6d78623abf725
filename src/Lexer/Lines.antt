-- ===== src/Lexer/Lines.antt =====
-- Line breaks, and the semicolons that they give.
use ifj.Prelude.{
  ℕ, ◌+◌, ◌≡◌, ap, ◌∙◌, true, Bool-cases, inl, inr, ◌∷◌, Bytes, arith, ok, if◌then◌else◌, ◌||◌,
  ◌==◌, List, [],
}
use ifj.Token.{Kind, is_one_of, id, int, double, string, return_kw, semicolon}
use ifj.Lexer.State.{Lexer, need_semi}
use ifj.Lexer.Operator.{find_byte}
use ifj.Lexer.Scan.{scan_step, scan_byte, scan_other, scan_newline, scan}
use ifj.Lexer.Steps.{scan_stop, scan_again}

step_line_break :
    (l : Lexer) (c : ℕ) (cs : Bytes)
    → (c == b'\n' || c == b'\r') ≡ true
    → scan_step l (c ∷ cs) ≡ scan_newline l c cs
unfolding scan_step scan_byte scan_other find_byte
step_line_break l c cs h = ground arith

-- The tokens behind which a statement may end: an identifier, the literals and `return`.
abbrev pub enders : List Kind
enders = id ∷ int ∷ double ∷ string ∷ return_kw ∷ []

need_semi-enders : (k : Kind) → need_semi k ≡ is_one_of enders k
unfolding need_semi
need_semi-enders k = ground arith

-- A line feed or a carriage return gives a semicolon behind an identifier, an integer, double or
-- string literal and `return`, and is itself read again afterwards, without a new line being
-- counted. Behind every other token it is skipped, and a line is counted.
pub scan_line_break :
    (l : Lexer) (c : ℕ) (cs : Bytes)
    → l.rest ≡ c ∷ cs
    → (c == b'\n' || c == b'\r') ≡ true
    → scan l ≡ (
        if is_one_of enders l.tok.kind
        then ok (true, record l { tok = record (l.tok) { kind = semicolon }; rest = c ∷ cs })
        else scan (record l { lineno = l.lineno + 1; rest = cs }))
unfolding scan_newline
scan_line_break l c cs e h = elim (Bool-cases (is_one_of enders l.tok.kind)) [
  | inl s ↦
      let n = need_semi-enders l.tok.kind ∙ s in
      rw s (scan_stop l (ap (scan_step l) e ∙ step_line_break l c cs h ∙ rw (n, scan_newline)))
  | inr s ↦
      let n = need_semi-enders l.tok.kind ∙ s in
      rw s (scan_again l (ap (scan_step l) e ∙ step_line_break l c cs h ∙ rw (n, scan_newline)))
]
