-- ===== src/Lexer/Advance/Rounds.antt =====
-- Operators, comments and one round of the scanner.
use ifj.Prelude.{
  IsReal, ℕ, ◌≡◌, refl, Bool, true, false, ◌||◌, [], ◌∷◌, none, some, Bytes, arith, inl, inr, ◌⊎◌,
  Bool-cases, Option-cases, ◌==◌, Result, ok, err, Leaves, Leaves-refl, Leaves-cons, if◌then◌else◌,
}
use ifj.Token.{Kind, semicolon}
use ifj.Lexer.State.{Lexer, Step, again, emit, need_semi}
use ifj.Lexer.Chars.{is_word_start, is_digit}
use ifj.Lexer.Operator.{
  Choice, find_byte, singles, doubles, scan_choice, scan_twice, skip_until, resume, scan_slash,
  scan_quote, scan_bang,
}
use ifj.Lexer.Scan.{scan_newline, scan_default, scan_other, scan_byte}
use ifj.Lexer.Advance.{Returns, Returns-cons, Advances, Returns-Advances, Advances-cons}
use ifj.Lexer.Advance.Literals.{scan_ident-Returns, scan_string-Returns, scan_number-Returns}

scan_choice-Returns :
    (t : Choice) (l : Lexer) (xs : Bytes) → Returns l.lineno xs (scan_choice t l xs)
unfolding scan_choice
scan_choice-Returns t l [] = tt
scan_choice-Returns t l (d ∷ ds) = elim (Option-cases (find_byte t.longer d)) [
  | inl e ↦ rw (e, Returns) (Leaves-refl (d ∷ ds), omega arith)
  | inr (k, e) ↦ rw (e, Returns) (Leaves-cons d (Leaves-refl ds), omega arith)
]

scan_twice-Returns :
    (b : ℕ) (i j k : Kind) (l : Lexer) (xs : Bytes) → Returns l.lineno xs (scan_twice b i j k l xs)
unfolding scan_twice
scan_twice-Returns b i j k l [] = tt
scan_twice-Returns b i j k l (d ∷ ds) = elim (Bool-cases (d == b)) [
  | inl e ↦ rw (e, Returns) (Returns-cons l.lineno d ds _ (scan_choice-Returns _ l ds))
  | inr e ↦ rw (e, Returns) (Leaves-refl (d ∷ ds), omega arith)
]

abbrev Skips : Bytes → Result Bytes → Type 0
Skips xs (ok ys) = Leaves xs ys
Skips xs (err e) = IsReal e

Skips-cons : (c : ℕ) (xs : Bytes) (r : Result Bytes) → Skips xs r → Skips (c ∷ xs) r
Skips-cons c xs (ok ys) h = Leaves-cons c h
Skips-cons c xs (err e) h = h

skip_until-Skips : (b : ℕ) (xs : Bytes) → Skips xs (skip_until b xs)
unfolding skip_until
skip_until-Skips b [] = tt
skip_until-Skips b (c ∷ cs) = elim (Bool-cases (c == b || c == 0)) [
  | inl e ↦ rw (e, Skips) (Leaves-refl (c ∷ cs))
  | inr e ↦ rw (e, Skips) (Skips-cons c cs _ (skip_until-Skips b cs))
]

resume-Advances :
    (l : Lexer) (xs : Bytes) (r : Result Bytes)
    → Skips xs r
    → Advances l.lineno l.tok xs (resume l r)
resume-Advances l xs (ok ys) h = (h, omega arith, refl)
resume-Advances l xs (err e) h = h

scan_slash-Advances : (l : Lexer) (xs : Bytes) → Advances l.lineno l.tok xs (scan_slash l xs)
unfolding scan_slash
scan_slash-Advances l [] = tt
scan_slash-Advances l (d ∷ ds) = elim (Bool-cases (d == b'\'')) [
  | inl e ↦
      rw (e, Advances)
        (Advances-cons l.lineno l.tok d ds _ (resume-Advances l ds _ (skip_until-Skips b'\'' ds)))
  | inr e ↦
      rw (e, Advances)
        (Advances-cons l.lineno l.tok d ds _
          (Returns-Advances l.lineno l.tok ds _ (scan_choice-Returns _ l ds)))
]

scan_quote-Advances : (l : Lexer) (xs : Bytes) → Advances l.lineno l.tok xs (scan_quote l xs)
unfolding scan_quote
scan_quote-Advances l [] = tt
scan_quote-Advances l (d ∷ ds) = elim (Bool-cases (d == b'/')) [
  | inl e ↦ rw (e, Advances) (Leaves-cons d (Leaves-refl ds), omega arith, refl)
  | inr e ↦
      rw (e, Advances)
        (Advances-cons l.lineno l.tok d ds _ (resume-Advances l ds _ (skip_until-Skips b'\n' ds)))
]

scan_bang-Returns : (l : Lexer) (xs : Bytes) → Returns l.lineno xs (scan_bang l xs)
unfolding scan_bang
scan_bang-Returns l [] = tt
scan_bang-Returns l (d ∷ ds) = elim (Bool-cases (d == b'"')) [
  | inl e ↦ rw (e, Returns) (Returns-cons l.lineno d ds _ (scan_string-Returns l ds))
  | inr e ↦ rw (e, Returns) (Leaves-refl (d ∷ ds), omega arith)
]

scan_default-Returns : (l : Lexer) (c : ℕ) (cs : Bytes) → Returns l.lineno cs (scan_default l c cs)
unfolding scan_default
scan_default-Returns l c cs = elim (Bool-cases (is_word_start c)) [
  | inl e ↦ rw (e, Returns) (scan_ident-Returns l c cs)
  | inr e ↦ elim (Bool-cases (is_digit c || c == b'.')) [
    | inl d ↦ rw (e, d, Returns) (scan_number-Returns l c cs)
    | inr d ↦ rw (e, d, Returns) (Leaves-refl cs, omega arith)
  ]
]

-- The semicolon that is inserted in front of a line break, which stays unread.
abbrev pub Inserts : Lexer → Bytes → Step → Type 0
Inserts l xs s = (need_semi l.tok.kind ≡ true) × (s ≡ emit semicolon l xs)

scan_newline-Advances :
    (l : Lexer) (c : ℕ) (cs : Bytes)
    → Advances l.lineno l.tok cs (scan_newline l c cs) ⊎ Inserts l (c ∷ cs) (scan_newline l c cs)
unfolding scan_newline
scan_newline-Advances l c cs = elim (Bool-cases (need_semi l.tok.kind)) [
  | inl e ↦ inr (e, rw e)
  | inr e ↦ inl (rw (e, Advances) (Leaves-refl cs, omega arith, refl))
]

scan_other-Advances :
    (l : Lexer) (c : ℕ) (cs : Bytes)
    → Advances l.lineno l.tok cs (scan_other l c cs) ⊎ Inserts l (c ∷ cs) (scan_other l c cs)
unfolding scan_other
scan_other-Advances l c cs = split (c == b'/') (inl (scan_slash-Advances l cs)) (
    split (c == b'!') (inl (returned _ (scan_bang-Returns l cs))) (
      split (c == b'&') (inl (returned _ (scan_twice-Returns _ _ _ _ l cs))) (
        split (c == b'|') (inl (returned _ (scan_twice-Returns _ _ _ _ l cs))) (
          split (c == b'\'') (inl (scan_quote-Advances l cs)) (
            split (c == b'\n' || c == b'\r') (scan_newline-Advances l c cs) (
              split (c == 0) (inl (Leaves-refl cs, omega arith))
                (inl (returned _ (scan_default-Returns l c cs)))))))))
  where
    P : Step → Type 0
    P s = Advances l.lineno l.tok cs s ⊎ Inserts l (c ∷ cs) s

    returned : (s : Step) → Returns l.lineno cs s → Advances l.lineno l.tok cs s
    returned s h = Returns-Advances l.lineno l.tok cs s h

    split : (b : Bool) {s t : Step} → P s → P t → P (if b then s else t)
    split true h k = h
    split false h k = k

scan_byte_double :
    (l : Lexer) (c : ℕ) (cs : Bytes) {t : Choice}
    → (c == b' ' || c == b'\t') ≡ false
    → find_byte singles c ≡ none
    → find_byte doubles c ≡ some t
    → scan_byte l c cs ≡ scan_choice t l cs
unfolding scan_byte
scan_byte_double l c cs e s d = rw (e, s, d, scan_byte)

pub scan_byte_other :
    (l : Lexer) (c : ℕ) (cs : Bytes)
    → (c == b' ' || c == b'\t') ≡ false
    → find_byte singles c ≡ none
    → find_byte doubles c ≡ none
    → scan_byte l c cs ≡ scan_other l c cs
unfolding scan_byte
scan_byte_other l c cs e s d = rw (e, s, d, scan_byte)

pub scan_byte_single :
    (l : Lexer) (c : ℕ) (cs : Bytes) {k : Kind}
    → (c == b' ' || c == b'\t') ≡ false
    → find_byte singles c ≡ some k
    → scan_byte l c cs ≡ emit k l cs
unfolding scan_byte
scan_byte_single l c cs e s = rw (e, s, scan_byte)

pub scan_byte_blank :
    (l : Lexer) (c : ℕ) (cs : Bytes)
    → (c == b' ' || c == b'\t') ≡ true
    → scan_byte l c cs ≡ again (record l { rest = cs })
unfolding scan_byte
scan_byte_blank l c cs e = rw (e, scan_byte)

-- One round at the byte `c` reads at least that byte, or inserts a semicolon.
pub scan_byte-Advances :
    (l : Lexer) (c : ℕ) (cs : Bytes)
    → Advances l.lineno l.tok cs (scan_byte l c cs) ⊎ Inserts l (c ∷ cs) (scan_byte l c cs)
scan_byte-Advances l c cs = elim (Bool-cases (c == b' ' || c == b'\t')) [
  | inl e ↦ rw (scan_byte_blank l c cs e) (inl (Leaves-refl cs, omega arith, refl))
  | inr e ↦ elim (Option-cases (find_byte singles c)) [
    | inr (k, s) ↦ rw (scan_byte_single l c cs e s) (inl (Leaves-refl cs, omega arith))
    | inl s ↦ elim (Option-cases (find_byte doubles c)) [
      | inr (t, d) ↦
          rw (scan_byte_double l c cs e s d)
            (inl (Returns-Advances l.lineno l.tok cs _ (scan_choice-Returns t l cs)))
      | inl d ↦ rw (scan_byte_other l c cs e s d) (scan_other-Advances l c cs)
    ]
  ]
]
