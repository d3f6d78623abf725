-- ===== src/Printer/Inspect.antt =====
-- `inspect_length` and `inspect` of src/prettyprint.c: control characters become escapes.
use ifj.Prelude.{
  ℕ, ◌+◌, ◌≡◌, refl, arith, Bool, ◌&&◌, ◌||◌, [], ◌∷◌, ◌++◌, Bytes, length, length-append, leb,
  ◌==◌, if◌then◌else◌, All, not, Bool-cases, inl, inr, true, false, ==_iff, subst, sym, ap, ◌∙◌,
}

-- The cases of the switch in `inspect_length`: 7 to 13, and 27 for '\e'.
unfoldable pub is_escaped : ℕ → Bool
is_escaped c = leb 7 c && leb c 13 || c == 27

-- `inspect_length`, the null byte included.
unfoldable pub inspect_length : Bytes → ℕ
inspect_length [] = 1
inspect_length (c ∷ cs) = (if is_escaped c then 2 else 1) + inspect_length cs

-- `escapes[c - 7]`, and the case of '\e'.
unfoldable pub escape_letter : ℕ → ℕ
escape_letter c =
    if c == 7
    then b'a'
    else if c == 8
    then b'b'
    else if c == 9
    then b't'
    else if c == 10
    then b'n'
    else if c == 11
    then b'v'
    else if c == 12
    then b'f'
    else if c == 13
    then b'r'
    else b'e'

-- The bytes that a round of the loop in `inspect` writes.
unfoldable pub inspect_byte : ℕ → Bytes
inspect_byte c = if is_escaped c then b'\\' ∷ escape_letter c ∷ [] else c ∷ []

-- `inspect`, without the null byte at the end.
unfoldable pub inspect : Bytes → Bytes
inspect [] = []
inspect (c ∷ cs) = inspect_byte c ++ inspect cs

length-inspect_byte : (c : ℕ) → length (inspect_byte c) ≡ (if is_escaped c then 2 else 1)
unfolding inspect_byte
length-inspect_byte c = elim (Bool-cases (is_escaped c)) [
  | inl e ↦ rw (e, inspect_byte) refl
  | inr e ↦ rw (e, inspect_byte) refl
]

-- `inspect` fills the buffer that `inspect_length` measures, with the null byte behind, to its
-- last byte and no further.
pub length-inspect : (str : Bytes) → length (inspect str) + 1 ≡ inspect_length str
unfolding inspect inspect_length
length-inspect [] = refl
length-inspect (c ∷ cs) =
    omega
      (arith, length-append (inspect_byte c) (inspect cs), length-inspect_byte c, length-inspect cs)

-- The control characters that C has a letter for: the bell, the backspace, the tab, the line
-- feed, the vertical tab, the form feed, the carriage return and the escape.
abbrev pub is_control : ℕ → Bool
is_control c = c == 7 || c == 8 || c == 9 || c == 10 || c == 11 || c == 12 || c == 13 || c == 27

abbrev pub is_plain : ℕ → Bool
is_plain c = not (is_control c)

-- The byte that an escape of C stands for, by the letter behind the backslash.
abbrev pub meaning : ℕ → ℕ
meaning d =
    if d == b'a'
    then 7
    else if d == b'b'
    then 8
    else if d == b't'
    then 9
    else if d == b'n'
    then 10
    else if d == b'v'
    then 11
    else if d == b'f'
    then 12
    else if d == b'r'
    then 13
    else if d == b'e'
    then 27
    else d

-- What a reader of C's escapes makes of a text: behind a backslash it reads a letter.
abbrev pub unescape : Bool → Bytes → Bytes
unescape _ [] = []
unescape true (c ∷ cs) = meaning c ∷ unescape false cs
unescape false (c ∷ cs) =
    let rest = unescape false cs in
    let escape = unescape true cs in if c == b'\\' then escape else c ∷ rest

inspect_byte-All : (c : ℕ) (cs : Bytes) → All is_plain cs → All is_plain (inspect_byte c ++ cs)
unfolding inspect_byte is_escaped escape_letter
inspect_byte-All c cs h = ground arith

inspect-All : (str : Bytes) → All is_plain (inspect str)
unfolding inspect
inspect-All [] = tt
inspect-All (c ∷ cs) = inspect_byte-All c (inspect cs) (inspect-All cs)

-- The text with each of its backslashes doubled, and every other byte as it is.
abbrev pub double_backslashes : Bytes → Bytes
double_backslashes [] = []
double_backslashes (c ∷ cs) =
    let rest = double_backslashes cs in if c == b'\\' then c ∷ c ∷ rest else c ∷ rest

unescape-inspect_byte :
    (c : ℕ) (cs : Bytes)
    → (c == b'\\') ≡ false
    → unescape false (inspect_byte c ++ cs) ≡ c ∷ unescape false cs
unfolding inspect_byte is_escaped escape_letter
unescape-inspect_byte c cs h = ground arith

unescape-backslashes :
    (cs : Bytes)
    → unescape false (inspect_byte b'\\' ++ (inspect_byte b'\\' ++ cs)) ≡ b'\\' ∷ unescape false cs
unfolding inspect_byte is_escaped
unescape-backslashes cs = refl

-- What `inspect` returns has no bell, backspace, tab, line feed, vertical tab, form feed, carriage
-- return or escape character left. With C's escapes it is read back as the text, where each
-- backslash of the text was doubled before.
pub unescape-inspect :
    (str : Bytes)
    → All is_plain (inspect str) × (unescape false (inspect (double_backslashes str)) ≡ str)
unfolding inspect
unescape-inspect str = (inspect-All str, read_back str)
  where
    read_back : (str : Bytes) → unescape false (inspect (double_backslashes str)) ≡ str
    read_back [] = refl
    read_back (c ∷ cs) = elim (Bool-cases (c == b'\\')) [
      | inl e ↦
          let k = (==_iff c b'\\').0 e in
          subst (λ n. unescape false (inspect (double_backslashes (n ∷ cs))) ≡ n ∷ cs) (sym k)
            (unescape-backslashes (inspect (double_backslashes cs))
              ∙ ap (λ r. b'\\' ∷ r) (read_back cs))
      | inr e ↦ rw (e) (
          unescape-inspect_byte c (inspect (double_backslashes cs)) e
          ∙ ap (λ r. c ∷ r) (read_back cs))
    ]
