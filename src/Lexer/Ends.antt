-- ===== src/Lexer/Ends.antt =====
-- The scanner ends: a call reads on or inserts a semicolon, so the loop over the tokens of a
-- source is over after a bounded number of calls.
use ifj.Prelude.{
  ℕ, zero, suc, ◌+◌, ◌*◌, ◌<◌, ◌≤◌, ◌≡◌, refl, ap, Bool, true, false, [], ◌∷◌, List, Bytes, arith,
  inl, inr, Result, ok, err, IsReal, Ends, length, Leaves, Leaves-refl, Leaves-cons, Leaves-trans,
  length-Leaves, if◌then◌else◌,
}
use ifj.Token.{Token, Kind, semicolon}
use ifj.Lexer.State.{Lexer, Step, again, stop, fault, need_semi}
use ifj.Lexer.Scan.{scan_step, scan_rounds, scan, token_loop, tokens}
use ifj.Lexer.Advance.{Advances}
use ifj.Lexer.Advance.Rounds.{scan_byte-Advances}

-- What a token leaves to be read: twice its bytes, and the semicolon that may be inserted.
abbrev pub weight : Kind → ℕ
weight k = if need_semi k then 1 else 0

abbrev pub measure : Lexer → ℕ
measure l = 2 * length l.rest + weight l.tok.kind

weight-le : (k : Kind) → weight k ≤ 1
weight-le k = ground arith

-- A call leaves a rest of the input, does not lower the line number, and brings the measure
-- down; or it is a fault of the program.
abbrev pub Scanned : Lexer → Result (Bool × Lexer) → Type 0
Scanned l (ok (b, l')) = Leaves l.rest l'.rest × (l.lineno ≤ l'.lineno) × (measure l' < measure l)
Scanned l (err e) = IsReal e

abbrev pub RoundScanned : Lexer → Step → Type 0
RoundScanned l (again l') =
    Leaves l.rest l'.rest
    × (l.lineno ≤ l'.lineno)
    × (l'.tok ≡ l.tok)
    × (length l'.rest < length l.rest)
RoundScanned l (stop b l') = Scanned l (ok (b, l'))
RoundScanned l (fault e) = IsReal e

round_advanced :
    (l : Lexer) (c : ℕ) (cs : Bytes) (s : Step)
    → l.rest ≡ c ∷ cs
    → Advances l.lineno l.tok cs s
    → RoundScanned l s
round_advanced l c cs (again l') e h =
    (rw e (Leaves-cons c h.0), h.1, h.2, omega (arith, ap length e, length-Leaves h.0))
round_advanced l c cs (stop b l') e h = (
  rw e (Leaves-cons c h.0),
  h.1,
  omega (arith, ap length e, length-Leaves h.0, weight-le l'.tok.kind),
)
round_advanced l c cs (fault e) p h = h

inserted :
    (l : Lexer) (xs : Bytes)
    → l.rest ≡ xs
    → need_semi l.tok.kind ≡ true
    → 2 * length xs + weight semicolon < measure l
unfolding need_semi
inserted l xs e semi = rw (e, semi) (omega arith)

pub scan_step-RoundScanned :
    (l : Lexer) (xs : Bytes) → l.rest ≡ xs → RoundScanned l (scan_step l xs)
unfolding scan_step
scan_step-RoundScanned l [] e = tt
scan_step-RoundScanned l (c ∷ cs) e = elim (scan_byte-Advances l c cs) [
  | inl h ↦ round_advanced l c cs _ e h
  | inr (semi, p) ↦
      rw (p, RoundScanned) (rw e (Leaves-refl (c ∷ cs)), omega arith, inserted l (c ∷ cs) e semi)
]

Scanned-trans :
    (l m : Lexer) (r : Result (Bool × Lexer))
    → Leaves l.rest m.rest
    → l.lineno ≤ m.lineno
    → measure m ≤ measure l
    → Scanned m r
    → Scanned l r
Scanned-trans l m (ok (b, l')) p q k h = (Leaves-trans p h.0, omega arith, omega arith)
Scanned-trans l m (err e) p q k h = h

scan_rounds-Scanned : (f : ℕ) (l : Lexer) → length l.rest < f → Scanned l (scan_rounds f l)
unfolding scan_rounds
scan_rounds-Scanned zero l h = absurd (omega arith)
scan_rounds-Scanned (suc f) l h =
    from_step (scan_step l l.rest) (scan_step-RoundScanned l l.rest refl)
      (λ m k. scan_rounds-Scanned f m (omega arith))
  where
    from_step :
        (s : Step)
        → RoundScanned l s
        → ((m : Lexer) → length m.rest < length l.rest → Scanned m (scan_rounds f m))
        → Scanned l
            (elim s [ again l' ↦ scan_rounds f l' | stop b l' ↦ ok (b, l') | fault e ↦ err e ])
    from_step (again m) p later =
        Scanned-trans l m (scan_rounds f m) p.0 p.1
          (omega (arith, ap (λ (t : Token). weight t.kind) p.2)) (later m p.3)
    from_step (stop b l') p later = p
    from_step (fault e) p later = p

-- From every state a call of the scanner ends. When it returns, what is left to read is a rest
-- of what was left before, the line number has not fallen, and twice the bytes left, with one
-- more where a line break would give a semicolon, have become strictly fewer.
pub scan-Scanned : (l : Lexer) → Scanned l (scan l)
unfolding scan
scan-Scanned l = scan_rounds-Scanned (suc (length l.rest)) l (omega arith)

token_loop-Ends : (f : ℕ) (l : Lexer) → measure l < f → Ends (token_loop f l)
unfolding token_loop
token_loop-Ends zero l h = absurd (omega arith)
token_loop-Ends (suc f) l h =
    from_scan (scan l) (scan-Scanned l) (λ m k. token_loop-Ends f m (omega arith))
  where
    appended :
        (m : Lexer) (r : Result (List (ℕ × Token) × Lexer))
        → Ends r
        → Ends {A = List (ℕ × Token) × Lexer}
            (elim r [ ok (ts, last) ↦ ok ((m.lineno, m.tok) ∷ ts, last) | err e ↦ err e ])
    appended m (ok (ts, last)) k = tt
    appended m (err e) k = k

    from_scan :
        (r : Result (Bool × Lexer))
        → Scanned l r
        → ((m : Lexer) → measure m < measure l → Ends (token_loop f m))
        → Ends {A = List (ℕ × Token) × Lexer} (elim r [
          | ok (true, l') ↦ elim (token_loop f l') [
            | ok (ts, last) ↦ ok ((l'.lineno, l'.tok) ∷ ts, last)
            | err e ↦ err e
          ]
          | ok (false, l') ↦ ok ([], l')
          | err e ↦ err e
        ])
    from_scan (ok (true, m)) p later = appended m (token_loop f m) (later m p.2)
    from_scan (ok (false, m)) p later = tt
    from_scan (err e) p later = p

-- The loop of `--tokens` ends on every input: it prints finitely many tokens and stops, or it
-- meets a fault of the program.
pub tokens-Ends : (l : Lexer) → Ends (tokens l)
unfolding tokens
tokens-Ends l = token_loop-Ends (2 * length l.rest + 2) l (omega (arith, weight-le l.tok.kind))
