-- ===== src/Lexer/Advance/Literals.antt =====
-- Identifiers, strings and numbers: each scanner leaves a rest of its input.
use ifj.Prelude.{
  IsReal, ℕ, ◌≤◌, ◌≡◌, Bool, false, ◌||◌, [], ◌∷◌, Bytes, arith, inl, inr, Bool-cases, Option-cases,
  ◌==◌, Result, ok, err, Leaves, Leaves-refl, Leaves-cons, ltb, length, map, ◌⊎◌,
}
use ifj.Token.{int, string}
use ifj.Lexer.State.{Lexer, Step, stop, fault, set_kind, fail, bad_hex_string}
use ifj.Lexer.Chars.{is_word, is_digit, is_xdigit, to_lower}
use ifj.Lexer.Ident.{stored, read_word, keyword, finish_ident, scan_ident, buf_size}
use ifj.Lexer.Text.{
  Point, plain, hex_second, StringStep, closed, bad_hex, goes_on, string_step, finish_string,
  string_loop, scan_string, hex_literal,
}
use ifj.Lexer.Number.{
  signed, expo_loop, number_byte, digit, underscore, dot, exponent, other, double_loop, int_loop,
  scan_int, hex_loop, scan_hex_digits, scan_hex, scan_number, int_expo,
}
use ifj.Lexer.Advance.{Returns, Returns-cons, Returns-line}

abbrev WordAdvances : Bytes → Result (Bytes × Bytes) → Type 0
WordAdvances xs (ok (w, left)) = Leaves xs left
WordAdvances xs (err e) = IsReal e

WordAdvances-stored :
    (c : ℕ) (cs : Bytes) (r : Result (Bytes × Bytes))
    → WordAdvances cs r
    → WordAdvances (c ∷ cs) (stored c r)
WordAdvances-stored c cs (ok (w, left)) h = Leaves-cons c h
WordAdvances-stored c cs (err e) h = h

read_word-Advances : (xs : Bytes) → WordAdvances xs (read_word xs)
unfolding read_word
read_word-Advances [] = tt
read_word-Advances (c ∷ cs) = elim (Bool-cases (is_word c)) [
  | inl e ↦ rw e (WordAdvances-stored c cs (read_word cs) (read_word-Advances cs))
  | inr e ↦ rw e (Leaves-refl (c ∷ cs))
]

finish_ident-Returns :
    (l : Lexer) (w xs rest : Bytes) → Leaves xs rest → Returns l.lineno xs (finish_ident l w rest)
unfolding finish_ident
finish_ident-Returns l w xs rest h = elim (Bool-cases (ltb (length w) buf_size)) [
  | inl e ↦ rw e (elim (Option-cases (keyword (map to_lower w))) [
    | inl k ↦ rw k (h, omega arith)
    | inr (k, p) ↦ rw p (h, omega arith)
  ])
  | inr e ↦ rw e tt
]

ident_from :
    (l : Lexer) (c : ℕ) (cs : Bytes) (r : Result (Bytes × Bytes))
    → WordAdvances cs r
    → Returns l.lineno cs (elim r [ ok (w, rest) ↦ finish_ident l (c ∷ w) rest | err e ↦ fault e ])
ident_from l c cs (ok (w, rest)) h = finish_ident-Returns l (c ∷ w) cs rest h
ident_from l c cs (err e) h = h

pub scan_ident-Returns : (l : Lexer) (c : ℕ) (cs : Bytes) → Returns l.lineno cs (scan_ident l c cs)
unfolding scan_ident
scan_ident-Returns l c cs = ident_from l c cs (read_word cs) (read_word-Advances cs)

finish_string-Returns :
    (l : Lexer) (buf rest : Bytes) → Returns l.lineno rest (finish_string l buf rest)
unfolding finish_string
finish_string-Returns l buf rest = elim (Bool-cases (ltb (length buf) buf_size)) [
  | inl e ↦ rw e (Leaves-refl rest, omega arith)
  | inr e ↦ rw e tt
]

abbrev LineGrows : ℕ → StringStep → Type 0
LineGrows line (goes_on m line' buf) = line ≤ line'
LineGrows line closed = Unit
LineGrows line bad_hex = Unit

string_step-LineGrows :
    (m : Point) (line : ℕ) (buf : Bytes) (c : ℕ) → LineGrows line (string_step m line buf c)
unfolding string_step
string_step-LineGrows plain line buf c = ground arith
string_step-LineGrows (hex_second x) line buf c = elim (Option-cases (hex_literal x c)) [
  | inl e ↦ rw (e, LineGrows) tt
  | inr (v, e) ↦ rw (e, LineGrows) (omega arith)
]
string_step-LineGrows _ line buf c = ground arith

string_from :
    (l : Lexer) (buf cs : Bytes) (c : ℕ) (s : StringStep)
    → LineGrows l.lineno s
    → ((m : Point) (line : ℕ) (buf' : Bytes)
        → Returns line cs (string_loop m (record l { lineno = line }) buf' cs))
    → Returns l.lineno (c ∷ cs) (elim s [
      | closed ↦ finish_string l buf cs
      | bad_hex ↦ stop false (fail bad_hex_string (record l { rest = cs }))
      | goes_on m' line buf' ↦ string_loop m' (record l { lineno = line }) buf' cs
    ])
string_from l buf cs c closed h later =
    Returns-cons l.lineno c cs (finish_string l buf cs) (finish_string-Returns l buf cs)
string_from l buf cs c bad_hex h later = (Leaves-cons c (Leaves-refl cs), omega arith)
string_from l buf cs c (goes_on m line buf') h later =
    let next = string_loop m (record l { lineno = line }) buf' cs in
    Returns-line l.lineno line (c ∷ cs) next h (Returns-cons line c cs next (later m line buf'))

string_loop-Returns :
    (m : Point) (l : Lexer) (buf xs : Bytes) → Returns l.lineno xs (string_loop m l buf xs)
unfolding string_loop
string_loop-Returns m l buf [] = tt
string_loop-Returns m l buf (c ∷ cs) =
    string_from l buf cs c (string_step m l.lineno buf c) (string_step-LineGrows m l.lineno buf c)
      (λ m' line buf'. string_loop-Returns m' (record l { lineno = line }) buf' cs)

pub scan_string-Returns : (l : Lexer) (xs : Bytes) → Returns l.lineno xs (scan_string l xs)
unfolding scan_string
scan_string-Returns l xs = string_loop-Returns plain (set_kind string l) [] xs

expo_loop-Returns :
    (line : ℕ) (finish : ℕ → Bytes → Step)
    → ((v : ℕ) (ys : Bytes) → Returns line ys (finish v ys))
    → (xs : Bytes) (minus : Bool) (expo : ℕ) → Returns line xs (expo_loop finish minus expo xs)
unfolding expo_loop
expo_loop-Returns line finish h [] minus expo = tt
expo_loop-Returns line finish h (c ∷ cs) minus expo =
    elim (Bool-cases (is_digit c || c == b'+' || c == b'-')) [
      | inl e ↦ rw (e, Returns) (Returns-cons line c cs _ (expo_loop-Returns line finish h cs _ _))
      | inr e ↦ rw (e, Returns) (h (signed minus expo) (c ∷ cs))
    ]

int_expo-Returns : (l : Lexer) (n : ℕ) (xs : Bytes) → Returns l.lineno xs (int_expo l n xs)
int_expo-Returns l n xs =
    expo_loop-Returns l.lineno _ (λ v ys. (Leaves-refl ys, omega arith)) xs false 0

pub number_byte-cases :
    (c : ℕ)
    → (number_byte c ≡ digit)
      ⊎ (number_byte c ≡ underscore)
      ⊎ (number_byte c ≡ dot)
      ⊎ (number_byte c ≡ exponent)
      ⊎ (number_byte c ≡ other)
unfolding number_byte
number_byte-cases c = ground arith

double_loop-Returns :
    (l : Lexer) (xs : Bytes) (n e : ℕ) → Returns l.lineno xs (double_loop l n e xs)
unfolding double_loop
double_loop-Returns l [] n e = tt
double_loop-Returns l (c ∷ cs) n e = elim (number_byte-cases c) [
  | inl b ↦ rw (b, Returns) (Returns-cons l.lineno c cs _ (double_loop-Returns l cs _ _))
  | inr (inl b) ↦ rw (b, Returns) (Returns-cons l.lineno c cs _ (double_loop-Returns l cs _ _))
  | inr (inr (inl b)) ↦ rw (b, Returns) (Leaves-refl (c ∷ cs), omega arith)
  | inr (inr (inr (inl b))) ↦
      rw (b, Returns)
        (Returns-cons l.lineno c cs _
          (expo_loop-Returns l.lineno _ (λ v ys. (Leaves-refl ys, omega arith)) cs false 0))
  | inr (inr (inr (inr b))) ↦ rw (b, Returns) (Leaves-refl (c ∷ cs), omega arith)
]

int_loop-Returns : (l : Lexer) (xs : Bytes) (n : ℕ) → Returns l.lineno xs (int_loop l n xs)
unfolding int_loop
int_loop-Returns l [] n = tt
int_loop-Returns l (c ∷ cs) n = elim (number_byte-cases c) [
  | inl b ↦ rw (b, Returns) (Returns-cons l.lineno c cs _ (int_loop-Returns l cs _))
  | inr (inl b) ↦ rw (b, Returns) (Returns-cons l.lineno c cs _ (int_loop-Returns l cs _))
  | inr (inr (inl b)) ↦
      rw (b, Returns) (Returns-cons l.lineno c cs _ (double_loop-Returns l cs n 1))
  | inr (inr (inr (inl b))) ↦
      rw (b, Returns) (Returns-cons l.lineno c cs _ (int_expo-Returns l n cs))
  | inr (inr (inr (inr b))) ↦ rw (b, Returns) (Leaves-refl (c ∷ cs), omega arith)
]

scan_int-Returns : (l : Lexer) (c : ℕ) (cs : Bytes) → Returns l.lineno cs (scan_int l c cs)
unfolding scan_int
scan_int-Returns l c cs = elim (number_byte-cases c) [
  | inl b ↦ rw (b, Returns) (int_loop-Returns l cs _)
  | inr (inl b) ↦ rw (b, Returns) (int_loop-Returns l cs 0)
  | inr (inr (inl b)) ↦ rw (b, Returns) (double_loop-Returns l cs 0 1)
  | inr (inr (inr (inl b))) ↦ rw (b, Returns) (int_expo-Returns l 0 cs)
  | inr (inr (inr (inr b))) ↦ rw (b, Returns) (int_loop-Returns l cs _)
]

hex_loop-Returns : (l : Lexer) (xs : Bytes) (n : ℕ) → Returns l.lineno xs (hex_loop l n xs)
unfolding hex_loop
hex_loop-Returns l [] n = tt
hex_loop-Returns l (c ∷ cs) n = elim (Bool-cases (is_xdigit c)) [
  | inl e ↦ rw (e, Returns) (Returns-cons l.lineno c cs _ (hex_loop-Returns l cs _))
  | inr e ↦ rw (e, Returns) (Leaves-refl (c ∷ cs), omega arith)
]

scan_hex_digits-Returns : (l : Lexer) (xs : Bytes) → Returns l.lineno xs (scan_hex_digits l xs)
unfolding scan_hex_digits
scan_hex_digits-Returns l [] = tt
scan_hex_digits-Returns l (c ∷ cs) = elim (Bool-cases (is_xdigit c)) [
  | inl e ↦ rw (e, Returns) (Returns-cons l.lineno c cs _ (hex_loop-Returns l cs _))
  | inr e ↦ rw (e, Returns) (Leaves-cons c (Leaves-refl cs), omega arith)
]

scan_hex-Returns : (l : Lexer) (xs : Bytes) → Returns l.lineno xs (scan_hex l xs)
unfolding scan_hex
scan_hex-Returns l [] = tt
scan_hex-Returns l (c ∷ cs) = elim (Bool-cases (c == b'x')) [
  | inl e ↦ rw (e, Returns) (Returns-cons l.lineno c cs _ (scan_hex_digits-Returns l cs))
  | inr e ↦ rw (e, Returns) (scan_int-Returns l b'0' (c ∷ cs))
]

pub scan_number-Returns :
    (l : Lexer) (c : ℕ) (cs : Bytes) → Returns l.lineno cs (scan_number l c cs)
unfolding scan_number
scan_number-Returns l c cs = elim (Bool-cases (c == b'0')) [
  | inl e ↦ rw (e, Returns) (scan_hex-Returns (set_kind int l) cs)
  | inr e ↦ rw (e, Returns) (scan_int-Returns (set_kind int l) c cs)
]
