-- ===== src/Lexer/Comments.antt =====
-- Comments, and the two places where the scanner loses a byte or a line.
use ifj.Prelude.{
  ℕ, ◌≡◌, refl, ap, ◌∙◌, Bool, true, false, [], ◌∷◌, ◌++◌, Bytes, arith, ok, err, overrun, All, not,
  ◌||◌, ◌==◌,
}
use ifj.Token.{op_div}
use ifj.Lexer.State.{Lexer}
use ifj.Lexer.Operator.{find_byte, skip_until, scan_slash, scan_quote, scan_choice}
use ifj.Lexer.Scan.{scan_step, scan_byte, scan_other, scan}
use ifj.Lexer.Steps.{scan_stop, scan_again, scan_fault}

-- The byte is neither `b` nor the terminator.
abbrev pub differs : ℕ → ℕ → Bool
differs b c = not (c == b || c == 0)

skip_until-All :
    (b : ℕ) (body : Bytes) (rest : Bytes)
    → All (differs b) body
    → skip_until b (body ++ b ∷ rest) ≡ ok (b ∷ rest)
unfolding skip_until
skip_until-All b [] rest h = ground arith
skip_until-All b (c ∷ cs) rest h = ground (arith, skip_until-All b cs rest h.1)

step_quote : (l : Lexer) (cs : Bytes) → scan_step l (b'\'' ∷ cs) ≡ scan_quote l cs
unfolding scan_step scan_byte find_byte scan_other
step_quote l cs = refl

step_slash : (l : Lexer) (cs : Bytes) → scan_step l (b'/' ∷ cs) ≡ scan_slash l cs
unfolding scan_step scan_byte find_byte scan_other
step_slash l cs = refl

-- A line comment with no slash behind its quote and no zero in it is skipped up to the end of its
-- line, the line break not included. The byte behind the quote is skipped whatever else it is:
-- where it is itself a line break, the whole next line is skipped.
pub scan_line_comment :
    (l : Lexer) (c : ℕ) (body rest : Bytes)
    → l.rest ≡ b'\'' ∷ c ∷ (body ++ b'\n' ∷ rest)
    → (c == b'/') ≡ false
    → All (differs b'\n') body
    → scan l ≡ scan (record l { rest = b'\n' ∷ rest })
unfolding scan_quote
scan_line_comment l c body rest e n h =
    scan_again l
      (ap (scan_step l) e ∙ step_quote l _ ∙ rw (n, scan_quote, skip_until-All b'\n' body rest h))

-- A block comment with no quote and no zero in it is skipped as a whole. The line number does not change,
-- whatever line breaks the comment holds.
pub scan_block_comment :
    (l : Lexer) (body rest : Bytes)
    → l.rest ≡ b'/' ∷ b'\'' ∷ (body ++ b'\'' ∷ b'/' ∷ rest)
    → All (differs b'\'') body
    → scan l ≡ scan (record l { rest = rest })
unfolding scan_slash
scan_block_comment l body rest e h =
    scan_again l (
      ap (scan_step l) e
      ∙ step_slash l _
      ∙ rw (scan_slash, skip_until-All b'\'' body (b'/' ∷ rest) h))
    ∙ scan_again (record l { rest = b'\'' ∷ b'/' ∷ rest }) (unfold scan_quote in step_quote _ _)

-- A slash that opens no comment loses the byte behind it: with `y`, the byte after that, no
-- equals sign, the token is a division and the scanner goes on at `y`.
pub scan_slash_loses :
    (l : Lexer) (x y : ℕ) (rest : Bytes)
    → l.rest ≡ b'/' ∷ x ∷ y ∷ rest
    → (x == b'\'') ≡ false
    → (y == b'=') ≡ false
    → scan l ≡ ok (true, record l { rest = y ∷ rest; tok = record (l.tok) { kind = op_div } })
unfolding scan_slash scan_choice find_byte
scan_slash_loses l x y rest e n m = scan_stop l (ap (scan_step l) e ∙ step_slash l _ ∙ ground arith)

-- A quote or a slash as the last byte of a source makes the scanner read behind the
-- terminator.
pub scan_last_quote :
    (l : Lexer) (c : ℕ)
    → l.rest ≡ c ∷ 0 ∷ []
    → (c == b'\'' || c == b'/') ≡ true
    → scan l ≡ err overrun
unfolding scan_step scan_byte find_byte scan_other scan_quote scan_slash skip_until scan_choice
scan_last_quote l c e h = scan_fault l (ap (scan_step l) e ∙ ground arith)
