-- ===== src/Tests/Lexer.antt =====
-- Runs of the scanner on small sources, and the examples of its theorems.
use Prim.Native.String.{String}
use ifj.Prelude.{ℕ, ◌≡◌, refl, List, [], ◌∷◌, map, codes, Result, ok, err}
use ifj.Token.{Kind, Token, of_int, word, illegal, id, int, op_plus, semicolon}
use ifj.Lexer.State.{Lexer, lexer_init}
use ifj.Lexer.Scan.{tokens}
use ifj.Lexer.Code.{scanner_code}

abbrev blank : Token
blank = record { kind = illegal; as_string = []; as_double = of_int 0; as_int = word 0 }

abbrev kinds : Result (List (ℕ × Token) × Lexer) → Result (List Kind)
kinds (ok (ts, l)) = ok (map (λ t. t.1.kind) ts)
kinds (err e) = err e

abbrev scanned : String → Result (List Kind)
unfolding scanner_code
scanned s = kinds (tokens (lexer_init blank (codes s) []))

sum_line : scanned "a + 12\n" ≡ ok (id ∷ op_plus ∷ int ∷ semicolon ∷ [])
unfolding scanner_code
sum_line = refl
