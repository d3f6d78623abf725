-- ===== src/Lexer/Words.antt =====
-- Identifiers and keywords: what the scanner makes of a word.
use ifj.Prelude.{
  ℕ, ◌+◌, ◌<◌, ◌≡◌, ◌∙◌, true, false, [], ◌∷◌, ◌++◌, Bytes, arith, inl, inr, ok, length, map, All,
  some, none, Option-cases, lt→ltb, ◌||◌, ◌==◌,
}
use ifj.Token.{Token, id}
use ifj.Lexer.State.{Lexer, stop}
use ifj.Lexer.Chars.{is_word_start, is_word, is_alpha, to_lower}
use ifj.Lexer.Ident.{read_word, keyword, finish_ident, scan_ident, buf_size}
use ifj.Lexer.Operator.{find_byte, singles, doubles}
use ifj.Lexer.Scan.{scan_step, scan_other, scan_default, scan}
use ifj.Lexer.Advance.Rounds.{scan_byte_other}
use ifj.Lexer.Steps.{scan_stop}

scan_other_word :
    (l : Lexer) (c : ℕ) (cs : Bytes)
    → is_word_start c ≡ true
    → scan_other l c cs ≡ scan_ident l c cs
unfolding scan_other scan_default is_word_start is_alpha
scan_other_word l c cs h = ground arith

singles_word : (c : ℕ) → is_word_start c ≡ true → find_byte singles c ≡ none
unfolding find_byte is_word_start is_alpha
singles_word c h = ground arith

doubles_word : (c : ℕ) → is_word_start c ≡ true → find_byte doubles c ≡ none
unfolding find_byte is_word_start is_alpha
doubles_word c h = ground arith

blank_word : (c : ℕ) → is_word_start c ≡ true → (c == b' ' || c == b'\t') ≡ false
unfolding is_word_start is_alpha
blank_word c h = ground arith

read_word-All :
    (w : Bytes) (d : ℕ) (rest : Bytes)
    → All is_word w
    → is_word d ≡ false
    → read_word (w ++ d ∷ rest) ≡ ok (w, d ∷ rest)
unfolding read_word
read_word-All [] d rest h e = rw e
read_word-All (c ∷ w) d rest h e = rw (h.0, read_word-All w d rest h.1 e)

-- What a word makes of the token: the keyword that it spells, or an identifier with the word
-- in lower case.
abbrev pub named : Token → Bytes → Token
named t w = elim (keyword (map to_lower w)) [
  | some k ↦ record t { kind = k }
  | none ↦ record t { kind = id; as_string = map to_lower w }
]

finish_ident-named :
    (l : Lexer) (w rest : Bytes)
    → length w < buf_size
    → finish_ident l w rest ≡ stop true (record l { rest = rest; tok = named l.tok w })
unfolding finish_ident
finish_ident-named l w rest h =
    rw (lt→ltb (length w) buf_size h, finish_ident)
      (elim (Option-cases (keyword (map to_lower w))) [
        | inl e ↦ rw (e, finish_ident, named)
        | inr (k, e) ↦ rw (e, finish_ident, named)
      ])

-- A word of at most 127 letters, digits and underscores, the first no digit, in front of a
-- byte that is none of these, is read as one token, whole and no further: the keyword that
-- it spells in any case, or else an identifier that carries it in lower case.
pub scan_word :
    (l : Lexer) (c : ℕ) (w : Bytes) (d : ℕ) (rest : Bytes)
    → l.rest ≡ c ∷ (w ++ d ∷ rest)
    → is_word_start c ≡ true
    → All is_word w
    → is_word d ≡ false
    → length w + 1 < buf_size
    → scan l ≡ ok (true, record l { rest = d ∷ rest; tok = named l.tok (c ∷ w) })
unfolding scan_step scan_ident
scan_word l c w d rest e start h stops short = scan_stop l (
    rw (e, scan_step)
      (scan_byte_other l c (w ++ d ∷ rest) (blank_word c start) (singles_word c start)
          (doubles_word c start)
        ∙ scan_other_word l c (w ++ d ∷ rest) start
        ∙ rw (read_word-All w d rest h stops, scan_ident)
            (finish_ident-named l (c ∷ w) (d ∷ rest) (omega arith))))
