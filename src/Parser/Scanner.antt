-- ===== src/Parser/Scanner.antt =====
-- The scanner of src/lexer.c as what the parser reads from.
use ifj.Prelude.{Bool, Result, ok, err}
use ifj.Lexer.State.{Lexer}
use ifj.Lexer.Scan.{scan}
use ifj.Lexer.Ends.{measure, Scanned, scan-Scanned}
use ifj.Parser.Source.{Source, Falls}

pub Scanned-Falls : (l : Lexer) (r : Result (Bool × Lexer)) → Scanned l r → Falls measure l r
Scanned-Falls l (ok (b, m)) h = h.2
Scanned-Falls l (err e) h = h

instance abbrev pub lexer_source : Source
lexer_source = record {
  Scanner = Lexer;
  scan = scan;
  tok = λ l. l.tok;
  line = λ l. l.lineno;
  left = measure;
  scan_falls = λ l. Scanned-Falls l (scan l) (scan-Scanned l);
}
