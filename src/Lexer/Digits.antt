-- ===== src/Lexer/Digits.antt =====
-- Integer literals: the value that the digits spell.
use ifj.Prelude.{
  ==_iff, ℕ, ◌+◌, ◌*◌, ◌%◌, ◌≤◌, Bool-cases, ◌⊎◌, ◌≡◌, refl, sym, ap, ◌∙◌, Bool, true, false, [],
  ◌∷◌, ◌++◌, Bytes, arith, inl, inr, ok, All, some, none, if◌then◌else◌, ◌||◌, not, ◌==◌, ◌-◌,
}
use ifj.Token.{int, word, int_mod}
use ifj.Lexer.State.{Lexer, set_kind}
use ifj.Lexer.Chars.{is_word_start, is_alpha, is_digit, is_xdigit, hex}
use ifj.Lexer.Number.{
  digit_step, number_byte, digit, other, int_loop, scan_int, scan_number, scan_hex, scan_hex_digits,
  hex_loop, hex_step, set_int, underscore,
}
use ifj.Lexer.Operator.{find_byte}
use ifj.Lexer.Scan.{scan_step, scan_byte, scan_other, scan_default, scan}
use ifj.Lexer.Advance.Rounds.{scan_byte_other}
use ifj.Lexer.Steps.{scan_stop}

-- The number that digits spell behind a number already read. Underscores only set digits
-- apart.
abbrev pub decimal : ℕ → Bytes → ℕ
decimal n [] = n
decimal n (c ∷ cs) = decimal (if c == b'_' then n else n * 10 + (c - b'0')) cs

abbrev pub hex_value : ℕ → ℕ
hex_value c = elim (hex c) [ some d ↦ d | none ↦ 0 ]

abbrev pub hexadecimal : ℕ → Bytes → ℕ
hexadecimal n [] = n
hexadecimal n (c ∷ cs) = hexadecimal (n * 16 + hex_value c) cs

abbrev pub is_spaced_digit : ℕ → Bool
is_spaced_digit c = is_digit c || c == b'_'

-- A byte that ends an integer literal.
abbrev pub ends_number : ℕ → Bool
ends_number c = not (is_digit c || c == b'_' || c == b'.' || c == b'e' || c == b'E' || c == b'x')

digit-range : (c : ℕ) → is_digit c ≡ true → (b'0' ≤ c) × (c ≤ b'9')
unfolding is_digit
digit-range c h = ground arith

digit_step-mod :
    (n m c : ℕ)
    → n ≡ m % int_mod
    → is_digit c ≡ true
    → digit_step n c ≡ (m * 10 + (c - b'0')) % int_mod
unfolding digit_step
digit_step-mod n m c e h = omega (arith, digit-range c h)

number_byte-digit : (c : ℕ) → is_digit c ≡ true → number_byte c ≡ digit
unfolding number_byte
number_byte-digit c h = rw (h, number_byte)

number_byte-underscore : (c : ℕ) → (c == b'_') ≡ true → number_byte c ≡ underscore
unfolding number_byte is_digit
number_byte-underscore c h = ground arith

number_byte-other : (c : ℕ) → ends_number c ≡ true → number_byte c ≡ other
unfolding number_byte is_digit
number_byte-other c h = ground arith

spaced_digit-cases :
    (c : ℕ)
    → is_spaced_digit c ≡ true
    → ((c == b'_') ≡ true) ⊎ (((c == b'_') ≡ false) × (is_digit c ≡ true))
unfolding is_digit
spaced_digit-cases c h = ground arith

int_loop-decimal :
    (ds : Bytes) (l : Lexer) (n m d : ℕ) (rest : Bytes)
    → n ≡ m % int_mod
    → All is_spaced_digit ds
    → ends_number d ≡ true
    → int_loop l n (ds ++ d ∷ rest) ≡ set_int l (word (decimal m ds % int_mod)) (d ∷ rest)
unfolding int_loop
int_loop-decimal [] l n m d rest e h stops = rw (number_byte-other d stops, e, int_loop)
int_loop-decimal (c ∷ cs) l n m d rest e h stops = elim (spaced_digit-cases c h.0) [
  | inl u ↦
      rw (number_byte-underscore c u, u, int_loop) (int_loop-decimal cs l n m d rest e h.1 stops)
  | inr (u, i) ↦
      rw (number_byte-digit c i, u, int_loop)
        (int_loop-decimal cs l (digit_step n c) (m * 10 + (c - b'0')) d rest
          (digit_step-mod n m c e i) h.1 stops)
]

scan_int-decimal :
    (l : Lexer) (c : ℕ) (ds : Bytes) (d : ℕ) (rest : Bytes)
    → is_digit c ≡ true
    → All is_spaced_digit ds
    → ends_number d ≡ true
    → scan_int l c (ds ++ d ∷ rest) ≡ set_int l (word (decimal (c - b'0') ds % int_mod)) (d ∷ rest)
unfolding scan_int
scan_int-decimal l c ds d rest i h stops =
    rw (number_byte-digit c i, scan_int)
      (int_loop-decimal ds l (digit_step 0 c) (c - b'0') d rest
        (omega (arith, digit_step-mod 0 0 c refl i)) h stops)

not_x :
    (ds : Bytes) (d : ℕ) (rest : Bytes) (l : Lexer)
    → All is_spaced_digit ds
    → ends_number d ≡ true
    → scan_hex l (ds ++ d ∷ rest) ≡ scan_int l b'0' (ds ++ d ∷ rest)
unfolding scan_hex is_digit
not_x [] d rest l h stops = ground arith
not_x (c ∷ cs) d rest l h stops = ground arith

scan_number-decimal :
    (l : Lexer) (c : ℕ) (ds : Bytes) (d : ℕ) (rest : Bytes)
    → is_digit c ≡ true
    → All is_spaced_digit ds
    → ends_number d ≡ true
    → scan_number l c (ds ++ d ∷ rest)
      ≡ set_int l (word (decimal (c - b'0') ds % int_mod)) (d ∷ rest)
unfolding scan_number
scan_number-decimal l c ds d rest i h stops = elim (Bool-cases (c == b'0')) [
  | inl z ↦
      rw (z, scan_number)
        (not_x ds d rest (set_kind int l) h stops
          ∙ ap (λ b. scan_int (set_kind int l) b (ds ++ d ∷ rest)) (sym ((==_iff c b'0').0 z))
          ∙ scan_int-decimal (set_kind int l) c ds d rest i h stops)
  | inr z ↦ rw (z, scan_number) (scan_int-decimal (set_kind int l) c ds d rest i h stops)
]

digit_not_word : (c : ℕ) → is_digit c ≡ true → is_word_start c ≡ false
unfolding is_digit is_word_start is_alpha
digit_not_word c h = ground arith

scan_other_digit :
    (l : Lexer) (c : ℕ) (cs : Bytes) → is_digit c ≡ true → scan_other l c cs ≡ scan_number l c cs
unfolding scan_other scan_default is_word_start is_alpha is_digit
scan_other_digit l c cs h = ground arith

scan_byte_digit :
    (l : Lexer) (c : ℕ) (cs : Bytes) → is_digit c ≡ true → scan_byte l c cs ≡ scan_number l c cs
unfolding find_byte is_digit
scan_byte_digit l c cs h =
    scan_byte_other l c cs (ground arith) (ground arith) (ground arith) ∙ scan_other_digit l c cs h

-- Digits, and underscores behind the first, in front of a byte that cannot go on a number are
-- read as one integer token, whole and no further. Its value is the number that they spell in
-- base ten, modulo 2 ^ 32.
pub scan_decimal :
    (l : Lexer) (c : ℕ) (ds : Bytes) (d : ℕ) (rest : Bytes)
    → l.rest ≡ c ∷ (ds ++ d ∷ rest)
    → is_digit c ≡ true
    → All is_spaced_digit ds
    → ends_number d ≡ true
    → scan l
      ≡ ok (
        true,
        record l {
          rest = d ∷ rest;
          tok = record (l.tok) { kind = int; as_int = word (decimal (c - b'0') ds % int_mod) };
        },
      )
unfolding scan_step
scan_decimal l c ds d rest e i h stops = scan_stop l (
    rw (e, scan_step)
      (scan_byte_digit l c (ds ++ d ∷ rest) i ∙ scan_number-decimal l c ds d rest i h stops))

hex_step-mod :
    (n m c : ℕ)
    → n ≡ m % int_mod
    → is_xdigit c ≡ true
    → hex_step n c ≡ (m * 16 + hex_value c) % int_mod
unfolding hex_step hex is_xdigit
hex_step-mod n m c e h = ground arith

hex_loop-hexadecimal :
    (ds : Bytes) (l : Lexer) (n m d : ℕ) (rest : Bytes)
    → n ≡ m % int_mod
    → All is_xdigit ds
    → is_xdigit d ≡ false
    → hex_loop l n (ds ++ d ∷ rest) ≡ set_int l (word (hexadecimal m ds % int_mod)) (d ∷ rest)
unfolding hex_loop
hex_loop-hexadecimal [] l n m d rest e h stops = rw (stops, e, hex_loop)
hex_loop-hexadecimal (c ∷ cs) l n m d rest e h stops =
    rw (h.0, hex_loop)
      (hex_loop-hexadecimal cs l (hex_step n c) (m * 16 + hex_value c) d rest
        (hex_step-mod n m c e h.0) h.1 stops)

-- `0x` and one or more hexadecimal digits, up to a byte that is none, are read as one integer
-- token, whose value is the number that they spell in base sixteen, modulo 2 ^ 32.
pub scan_hexadecimal :
    (l : Lexer) (c : ℕ) (ds : Bytes) (d : ℕ) (rest : Bytes)
    → l.rest ≡ b'0' ∷ b'x' ∷ c ∷ (ds ++ d ∷ rest)
    → is_xdigit c ≡ true
    → All is_xdigit ds
    → is_xdigit d ≡ false
    → scan l
      ≡ ok (
        true,
        record l {
          rest = d ∷ rest;
          tok = record (l.tok) {
            kind = int;
            as_int = word (hexadecimal (hex_value c) ds % int_mod);
          };
        },
      )
unfolding scan_step scan_number scan_hex scan_hex_digits is_digit
scan_hexadecimal l c ds d rest e i h stops = scan_stop l (
    rw (e, scan_step)
      (scan_byte_digit l b'0' (b'x' ∷ c ∷ (ds ++ d ∷ rest)) refl
        ∙ rw (i, scan_number)
            (hex_loop-hexadecimal ds (set_kind int l) (hex_step 0 c) (hex_value c) d rest
              (omega (arith, hex_step-mod 0 0 c refl i)) h stops)))
