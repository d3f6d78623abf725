-- ===== src/Lexer/Steps.antt =====
-- One call of the scanner in terms of its rounds, with the fuel gone.
use ifj.Prelude.{ℕ, zero, suc, ◌<◌, ◌≡◌, refl, ◌∙◌, Bool, arith, Result, ok, err, Fault, length}
use ifj.Lexer.State.{Lexer, Step, again, stop, fault}
use ifj.Lexer.Scan.{scan_step, scan_rounds, scan}
use ifj.Lexer.Ends.{RoundScanned, scan_step-RoundScanned}

-- More fuel than bytes left: the amount does not matter.
scan_rounds_fuel :
    (f g : ℕ) (l : Lexer)
    → length l.rest < f
    → length l.rest < g
    → scan_rounds f l ≡ scan_rounds g l
unfolding scan_rounds
scan_rounds_fuel zero g l h k = absurd (omega arith)
scan_rounds_fuel (suc f) zero l h k = absurd (omega arith)
scan_rounds_fuel (suc f) (suc g) l h k =
    from_step (scan_step l l.rest) (scan_step-RoundScanned l l.rest refl)
      (λ m p. scan_rounds_fuel f g m (omega arith) (omega arith))
  where
    run : ℕ → Step → Result (Bool × Lexer)
    run n s = elim s [ again l' ↦ scan_rounds n l' | stop b l' ↦ ok (b, l') | fault e ↦ err e ]

    from_step :
        (s : Step)
        → RoundScanned l s
        → ((m : Lexer) → length m.rest < length l.rest → scan_rounds f m ≡ scan_rounds g m)
        → run f s ≡ run g s
    from_step (again m) p later = later m p.3
    from_step (stop b m) p later = refl
    from_step (fault e) p later = refl

module _ (l : Lexer) where
  pub scan_stop : {b : Bool} {m : Lexer} → scan_step l l.rest ≡ stop b m → scan l ≡ ok (b, m)
  unfolding scan scan_rounds
  scan_stop e = rw (e, scan, scan_rounds)

  pub scan_fault : {e : Fault} → scan_step l l.rest ≡ fault e → scan l ≡ err e
  unfolding scan scan_rounds
  scan_fault e = rw (e, scan, scan_rounds)

  pub scan_again : {m : Lexer} → scan_step l l.rest ≡ again m → scan l ≡ scan m
  unfolding scan
  scan_again {m} e =
      let shorter = rw e at (scan_step-RoundScanned l l.rest refl) in
      unfold_round e
      ∙ scan_rounds_fuel (length l.rest) (suc (length m.rest)) m shorter.3 (omega arith)
    where
      unfold_round :
          scan_step l l.rest ≡ again m
          → scan_rounds (suc (length l.rest)) l ≡ scan_rounds (length l.rest) m
      unfold_round p = unfold scan_rounds in rw (p, scan_rounds)
