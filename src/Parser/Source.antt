-- ===== src/Parser/Source.antt =====
-- What the parser needs of the scanner: the state behind `self->lex`, `ifj17_scan` on it, the
-- current token and line, and a measure that every call brings down.
use ifj.Prelude.{ℕ, ◌<◌, Bool, Result, ok, err, IsReal}
use ifj.Token.{Token}

module _ {S : Type 0} where
  -- A call ends, and the measure falls when it returns.
  abbrev pub Falls : (S → ℕ) → S → Result (Bool × S) → Type 0
  Falls left s (ok (b, t)) = left t < left s
  Falls left s (err e) = IsReal e

pub record Source : Type 1 where
  pub Scanner : Type 0
  pub scan : Scanner → Result (Bool × Scanner)
  pub tok : Scanner → Token
  pub line : Scanner → ℕ
  pub left : Scanner → ℕ
  pub scan_falls : (s : Scanner) → Falls left s (scan s)
