-- ===== src/Lexer/Spelling.antt =====
-- Each token that is always spelled alike is read back from its spelling in src/token.h.
use ifj.Prelude.{
  ℕ, ◌+◌, ◌<◌, ◌≡◌, refl, ap, ◌∙◌, Bool, true, false, [], ◌∷◌, ◌++◌, Bytes, arith, inl, inr, ok,
  length, All, if◌then◌else◌, ◌||◌, not, ◌==◌, codes, Bool-cases,
}
use ifj.Token.{
  Token, Kind, spelling, illegal, eos, id, int, double, string, op_div, op_div_assign, op_plus,
  op_minus, op_mul, op_assign, op_lt, op_gt, op_fork, op_and, op_or, op_not, lbrace, op_lnot,
  op_bit_and, op_bit_or, print_kw, input_kw, declare_kw, function_kw, scope_kw, type_kw, as_kw,
  do_kw, loop_kw, while_kw, if_kw, then_kw, elseif_kw, else_kw, for_kw, dim_kw, end_kw, return_kw,
}
use ifj.Lexer.State.{Lexer, emit}
use ifj.Lexer.Chars.{is_word, is_word_start}
use ifj.Lexer.Operator.{find_byte, scan_choice, scan_twice, scan_bang}
use ifj.Lexer.Scan.{scan_step, scan_byte, scan_other, scan}
use ifj.Lexer.Code.{scanner_code}
use ifj.Lexer.Steps.{scan_stop}
use ifj.Lexer.Words.{scan_word, named}

-- The spelling is a word.
abbrev pub is_keyword : Kind → Bool
is_keyword print_kw = true
is_keyword input_kw = true
is_keyword declare_kw = true
is_keyword function_kw = true
is_keyword scope_kw = true
is_keyword type_kw = true
is_keyword as_kw = true
is_keyword do_kw = true
is_keyword loop_kw = true
is_keyword while_kw = true
is_keyword if_kw = true
is_keyword then_kw = true
is_keyword elseif_kw = true
is_keyword else_kw = true
is_keyword for_kw = true
is_keyword dim_kw = true
is_keyword end_kw = true
is_keyword return_kw = true
is_keyword op_lnot = true
is_keyword op_bit_and = true
is_keyword op_bit_or = true
is_keyword _ = false

-- The kinds with no spelling of their own, and the two that are not read from theirs.
abbrev pub is_symbol : Kind → Bool
is_symbol illegal = false
is_symbol eos = false
is_symbol id = false
is_symbol int = false
is_symbol double = false
is_symbol string = false
is_symbol op_div = false
is_symbol op_div_assign = false
is_symbol k = not (is_keyword k)

abbrev is_one_of : Bytes → ℕ → Bool
is_one_of [] d = false
is_one_of (b ∷ bs) d = d == b || is_one_of bs d

-- The bytes that make a longer token of a symbol.
abbrev pub longer_by : Kind → Bytes
longer_by op_plus = codes "+="
longer_by op_minus = codes "-="
longer_by op_mul = codes "*="
longer_by op_assign = codes "="
longer_by op_lt = codes "<=>"
longer_by op_gt = codes ">="
longer_by op_fork = codes "&"
longer_by op_and = codes "="
longer_by op_or = codes "="
longer_by op_not = codes "\""
longer_by _ = []

-- The byte `d` may go on the token.
abbrev pub goes_on_with : Kind → ℕ → Bool
goes_on_with k d = if is_keyword k then is_word d else is_one_of (longer_by k) d

step_spelling :
    (k : Kind) (l : Lexer) (d : ℕ) (rest : Bytes)
    → is_symbol k ≡ true
    → is_one_of (longer_by k) d ≡ false
    → scan_step l (codes (spelling k) ++ d ∷ rest) ≡ emit k l (d ∷ rest)
unfolding scan_step scan_byte scan_other find_byte scan_choice scan_twice scan_bang spelling
step_spelling lbrace l d rest h n = refl
step_spelling _ l d rest h n = ground arith

-- A keyword's spelling is a word.
abbrev IsWord : Bytes → Type 0
IsWord [] = ⊥
IsWord (c ∷ w) = (is_word_start c ≡ true) × All is_word w × (length w + 1 < 128)

abbrev ReadAsWord : Bytes → Kind → Token → Type 0
ReadAsWord w k t = IsWord w × (named t w ≡ record t { kind = k })

keyword_word : (k : Kind) (t : Token) → is_keyword k ≡ true → ReadAsWord (codes (spelling k)) k t
unfolding spelling scanner_code
keyword_word print_kw t h = ground arith
keyword_word _ t h = ground arith

scan_keyword :
    (w : Bytes) (k : Kind) (l : Lexer) (d : ℕ) (rest : Bytes)
    → ReadAsWord w k l.tok
    → is_word d ≡ false
    → l.rest ≡ w ++ d ∷ rest
    → scan l ≡ ok (true, record l { rest = d ∷ rest; tok = record (l.tok) { kind = k } })
scan_keyword [] k l d rest r n e = absurd r.0
scan_keyword (c ∷ w) k l d rest r n e = scan_word l c w d rest e r.0.0 r.0.1 n r.0.2 ∙ rw r.1

symbol_or_keyword :
    (k : Kind) → (is_symbol k || is_keyword k) ≡ true → is_keyword k ≡ false → is_symbol k ≡ true
symbol_or_keyword k h e = ground arith

-- For every symbol and keyword but `/` and `/=`: its spelling in the token table, in front of
-- a byte that does not go on it, is read as that kind, whole and no further.
pub scan-spelling :
    (k : Kind) (l : Lexer) (d : ℕ) (rest : Bytes)
    → (is_symbol k || is_keyword k) ≡ true
    → goes_on_with k d ≡ false
    → l.rest ≡ codes (spelling k) ++ d ∷ rest
    → scan l ≡ ok (true, record l { rest = d ∷ rest; tok = record (l.tok) { kind = k } })
scan-spelling k l d rest h n e = elim (Bool-cases (is_keyword k)) [
  | inl w ↦ scan_keyword (codes (spelling k)) k l d rest (keyword_word k l.tok w) (rw w at n) e
  | inr w ↦
      scan_stop l
        (ap (scan_step l) e ∙ step_spelling k l d rest (symbol_or_keyword k h w) (rw w at n))
]
