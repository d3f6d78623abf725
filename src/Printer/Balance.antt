-- ===== src/Printer/Balance.antt =====
-- What a visitor of src/prettyprint.c does when it succeeds: it appends text, and leaves the
-- indentation as it was. The brackets of the format strings are followed.
use ifj.Prelude.{
  and_then, and_then-and_then, ℕ, zero, suc, ◌+◌, ◌-◌, ◌≡◌, refl, sym, ap, ◌∙◌, arith, Bool, true,
  false, List, [], ◌∷◌, ◌++◌, append_assoc, append-nil, Bytes, codes, Option, none, some, ◌==◌,
  if◌then◌else◌, ok, bind,
}
use ifj.Printer.Output.{
  Chunk, lit, str, dec, real, Printer, M, ◌>>◌, skip, print, text, when, spaces, indent, indented,
  leave, break_outside,
}

-- The number of brackets that are open behind a byte, with `d` open before; `none` where one is
-- closed that was not opened.
abbrev pub bracket_byte : ℕ → ℕ → Option ℕ
bracket_byte d c =
    if c == b'('
    then some (d + 1)
    else if c == b')'
    then (if d == 0 then none else some (d - 1))
    else some d

abbrev pub bracket_bytes : ℕ → Bytes → Option ℕ
bracket_bytes d [] = some d
bracket_bytes d (c ∷ cs) = and_then (bracket_byte d c) λ e. bracket_bytes e cs

-- The brackets in the format strings; what their conversions insert is passed over.
unfoldable pub brackets : ℕ → List Chunk → Option ℕ
brackets d [] = some d
brackets d (lit s ∷ cs) = and_then (bracket_bytes d (codes s)) λ e. brackets e cs
brackets d (str s ∷ cs) = brackets d cs
brackets d (dec n ∷ cs) = brackets d cs
brackets d (real n ∷ cs) = brackets d cs

brackets-append :
    (d : ℕ) (xs ys : List Chunk)
    → brackets d (xs ++ ys) ≡ and_then (brackets d xs) λ e. brackets e ys
unfolding brackets
brackets-append d [] ys = refl
brackets-append d (str s ∷ xs) ys = brackets-append d xs ys
brackets-append d (dec n ∷ xs) ys = brackets-append d xs ys
brackets-append d (real n ∷ xs) ys = brackets-append d xs ys
brackets-append d (lit s ∷ xs) ys =
    and_then-and_then (bracket_bytes d (codes s)) (λ e. brackets e xs) (λ e. brackets e ys)
      (λ e. brackets e (xs ++ ys)) λ e. brackets-append e xs ys

-- From every state the visitor succeeds. It appends text that depends on the indentation
-- alone, and that takes `a` open brackets, and any number more, to `b` and as many more. The
-- indentation is as before.
pub record Prints (a b : ℕ) (m : M) : Type 0 where
  pub written : ℕ → List Chunk
  pub counts : (k i : ℕ) → brackets (k + a) (written i) ≡ some (k + b)
  pub runs : (p : Printer) → m p ≡ ok (record p { out = p.out ++ written p.indents })

pub printed :
    {a b : ℕ} (cs : List Chunk)
    → ((k : ℕ) → brackets (k + a) cs ≡ some (k + b))
    → Prints a b (print cs)
printed cs h = record { written = λ i. cs; counts = λ k i. h k; runs = λ p. refl }

infixl 5 ◌>>>◌
pub ◌>>>◌ : {a b c : ℕ} {m k : M} → Prints a b m → Prints b c k → Prints a c (m >> k)
◌>>>◌ {m = m} {k = k} x y = record {
  written = λ i. x.written i ++ y.written i;
  counts = λ d i.
      brackets-append _ (x.written i) (y.written i)
      ∙ ap (λ o. and_then o λ e. brackets e (y.written i)) (x.counts d i)
      ∙ y.counts d i;
  runs = λ p.
      ap (λ r. bind r k) (x.runs p)
      ∙ y.runs _
      ∙ ap (λ o. ok (record p { out = o })) (append_assoc p.out _ _);
}

pub skipped : {a : ℕ} → Prints a a skip
unfolding brackets
skipped = record {
  written = λ i. [];
  counts = λ k i. refl;
  runs = λ p. ap (λ o. ok (record p { out = o })) (sym (append-nil p.out));
}

pub when-Prints : {a : ℕ} (b : Bool) {m : M} → (b ≡ true → Prints a a m) → Prints a a (when b m)
when-Prints true h = h refl
when-Prints false h = skipped

brackets-spaces : (d n : ℕ) → brackets d (spaces n) ≡ some d
unfolding brackets
brackets-spaces d zero = refl
brackets-spaces d (suc n) = brackets-spaces d n

pub spaced : {a : ℕ} → Prints a a indent
spaced = record { written = spaces; counts = λ k i. brackets-spaces _ i; runs = λ p. refl }

pub deeper : {a b : ℕ} {m : M} → Prints a b m → Prints a b (indented m)
deeper x = record {
  written = λ i. x.written (i + 1);
  counts = λ k i. x.counts k (i + 1);
  runs = λ p.
      ap (λ r. bind r leave) (x.runs (record p { indents = p.indents + 1 }))
      ∙ ap {A = ℕ} (λ i. ok (record p { indents = i; out = p.out ++ x.written (p.indents + 1) }))
          (omega arith);
}

-- What takes no bracket to none takes any number to itself.
pub within : (a : ℕ) {m : M} → Prints 0 0 m → Prints a a m
within a x = record {
  written = x.written;
  counts = λ k i.
      ap (λ d. brackets d (x.written i)) (omega arith) ∙ x.counts (k + a) i ∙ ap some (omega arith);
  runs = x.runs;
}

pub broken_outside : Prints 0 0 break_outside
unfolding brackets
broken_outside = record {
  written = λ i. if i == 0 then lit "\n" ∷ [] else [];
  counts = λ k i. ground arith;
  runs = λ p. outside p (p.indents == 0);
}
  where
    outside :
        (p : Printer) (b : Bool)
        → when b (text "\n") p ≡ ok (record p { out = p.out ++ (if b then lit "\n" ∷ [] else []) })
    outside p true = refl
    outside p false = ap (λ o. ok (record p { out = o })) (sym (append-nil p.out))
