-- ===== src/Vm/Inside.antt =====
-- Code that is well formed keeps the interpreter of src/vm.c inside its arrays.
use ifj.Prelude.{
  both_true, Fault, Anything, ℕ, zero, suc, ◌+◌, ◌<◌, ◌≤◌, ◌≡◌, refl, subst, arith, Bool, true,
  false, List, [], ◌∷◌, Option, some, length, Result, ok, err, bind, none, bad_access, IsReal,
  Leads, gives, faults, bind-Leads, Leads-weaken,
}
use ifj.Vm.Decode.{
  Op, halt, jmp, loadk, loadb, move, lt, lte, add, sub, div, mul, mod_op, pow, negate, operation,
  operand_b, operand_c,
}
use ifj.Vm.Eval.{
  Activation, Machine, read, assign, operands, Outcome, goes_on, halts, execute, round, rounds,
  eval, run, dump, dump_line, dump_values, machine_init, skip, skip_if, quotient, remainder,
  divides, register_count,
}
use ifj.Vm.Ends.{FromOn, round-Leads}
use ifj.Vm.Valid.{
  IsTrap, is_value, is_binary, is_test, is_valid, ValidFrom, Inside, StaysInside, read-Leads-Inside,
  constant-Leads-Inside, assign-Leads-Inside, operands-Leads-Inside, divides-Leads-IsTrap,
}

module _ (divisions : Bool) {E : Fault → Type 0}
    (traps : divisions ≡ true → (f : ℕ → ℕ → ℕ) (x y : ℕ) → Leads E Anything (divides f x y))
    (vm : Activation) where
  binary-Leads :
      (m : Machine) (i : ℕ) (f : ℕ → ℕ → Result ℕ)
      → length m.registers ≡ register_count
      → is_binary divisions vm m.ip i ≡ true
      → ((x y : ℕ) → Leads E Anything (f x y))
      → Leads E (StaysInside divisions vm) (assign m i (operands vm m i f))
  binary-Leads m i f r h k =
      assign-Leads-Inside divisions vm m i _
        (operands-Leads-Inside divisions vm m i f r (ground arith) (ground arith) k) (ground arith)
        (ground arith, r)

  test-Leads :
      (m : Machine) (i : ℕ) (f : ℕ → ℕ → Bool)
      → length m.registers ≡ register_count
      → is_test divisions vm m.ip i ≡ true
      → Leads E (StaysInside divisions vm) (operands vm m i λ x y. ok (skip_if m (f x y)))
  test-Leads m i f r h =
      operands-Leads-Inside divisions vm m i _ r (ground arith) (ground arith)
        λ x y. gives (either (f x y))
    where
      either : (b : Bool) → StaysInside divisions vm (skip_if m b)
      either true = (ground arith, r)
      either false = (ground arith, r)

  execute-Leads-Inside :
      (m : Machine) (i : ℕ) (o : Option Op)
      → length m.registers ≡ register_count
      → is_valid divisions vm m.ip i o ≡ true
      → Leads E (StaysInside divisions vm) (execute vm m i o)
  unfolding execute is_valid
  execute-Leads-Inside m i (some halt) r h =
      bind-Leads _ _ (read-Leads-Inside divisions m.registers 0 (omega arith)) λ v _. gives tt
  execute-Leads-Inside m i (some jmp) r h = gives (ground arith, r)
  execute-Leads-Inside m i (some loadk) r h =
      assign-Leads-Inside divisions vm m i _ (constant-Leads-Inside divisions vm _ (ground arith))
        (ground arith) (ground arith, r)
  execute-Leads-Inside m i (some loadb) r h =
      assign-Leads-Inside divisions vm (skip m _) i _
        (constant-Leads-Inside divisions vm _ (ground arith)) (ground arith) (ground arith, r)
  execute-Leads-Inside m i (some add) r h = binary-Leads m i _ r h λ x y. gives tt
  execute-Leads-Inside m i (some sub) r h = binary-Leads m i _ r h λ x y. gives tt
  execute-Leads-Inside m i (some mul) r h = binary-Leads m i _ r h λ x y. gives tt
  execute-Leads-Inside m i (some div) r h =
      binary-Leads m i _ r (both_true _ _ h).1 (traps (both_true _ _ h).0 quotient)
  execute-Leads-Inside m i (some mod_op) r h =
      binary-Leads m i _ r (both_true _ _ h).1 (traps (both_true _ _ h).0 remainder)
  execute-Leads-Inside m i (some negate) r h =
      assign-Leads-Inside divisions vm m i _
        (bind-Leads _ _ (read-Leads-Inside divisions m.registers (operand_b i) (ground arith))
          λ x _. gives tt)
        (ground arith) (ground arith, r)
  execute-Leads-Inside m i (some lt) r h = test-Leads m i _ r h
  execute-Leads-Inside m i (some lte) r h = test-Leads m i _ r h
  execute-Leads-Inside m i (some move) r h = gives (ground arith, r)
  execute-Leads-Inside m i _ r h = gives (ground arith, r)

  valid_at :
      {a b : ℕ} (j : ℕ)
      → a ≡ b
      → is_valid divisions vm a j (operation j) ≡ true
      → is_valid divisions vm b j (operation j) ≡ true
  valid_at j e p = subst (λ a. is_valid divisions vm a j (operation j) ≡ true) e p

  -- An instruction that is read from valid code is valid.
  read-ValidFrom :
      (code : List ℕ) (n k : ℕ)
      → ValidFrom divisions vm n code
      → k < length code
      → Leads E (λ i. is_valid divisions vm (n + k + 1) i (operation i) ≡ true) (read code k)
  unfolding read
  read-ValidFrom [] n k v h = absurd (omega arith)
  read-ValidFrom (i ∷ code) n zero v h = gives (valid_at i (omega arith) v.0)
  read-ValidFrom (i ∷ code) n (suc k) v h =
      Leads-weaken (λ j p. valid_at j (omega arith) p)
        (read-ValidFrom code (n + 1) k v.1 (omega arith))

  round-Leads-Inside :
      (m : Machine)
      → ValidFrom divisions vm 0 vm.code
      → Inside divisions vm m
      → Leads E (StaysInside divisions vm) (round vm m)
  unfolding round
  round-Leads-Inside m v h =
      bind-Leads _ _ (read-ValidFrom vm.code 0 m.ip v h.0)
        λ i p. execute-Leads-Inside (skip m 1) i (operation i) h.1 (valid_at i (omega arith) p)

  rounds-Leads-Inside :
      (f : ℕ) (m : Machine)
      → ValidFrom divisions vm 0 vm.code
      → Inside divisions vm m
      → length vm.code < f + m.ip
      → Leads E Anything (rounds f vm m)
  unfolding rounds
  rounds-Leads-Inside zero m v h k = absurd (omega (arith, h.0))
  rounds-Leads-Inside (suc f) m v h k =
      from_round (round vm m) (round-Leads-Inside m v h) (round-Leads vm m)
        (λ n p q. rounds-Leads-Inside f n v p (omega arith))
    where
      from_round :
          (r : Result Outcome)
          → Leads E (StaysInside divisions vm) r
          → Leads IsReal (λ o. (m.ip < length vm.code) × FromOn (suc m.ip) o) r
          → ((n : Machine)
              → Inside divisions vm n
              → suc m.ip ≤ n.ip
              → Leads E Anything (rounds f vm n))
          → Leads {A = ℕ} E Anything
              (elim r [ ok (goes_on m') ↦ rounds f vm m' | ok (halts v) ↦ ok v | err e ↦ err e ])
      from_round (ok (goes_on n)) (gives p) (gives q) later = later n p q.1
      from_round (ok (halts v)) p q later = gives tt
      from_round (err e) (faults p) q later = faults p

module _ (divisions : Bool) {E : Fault → Type 0}
    (traps : divisions ≡ true → (f : ℕ → ℕ → ℕ) (x y : ℕ) → Leads E Anything (divides f x y))
    (vm : Activation) where
  dump_values-Leads-Inside :
      (i : ℕ)
      → is_value divisions vm (operand_b i) ≡ true
      → is_value divisions vm (operand_c i) ≡ true
      → Leads E Anything (dump_values vm i)
  dump_values-Leads-Inside i b c =
      operands-Leads-Inside divisions vm machine_init i _ refl b c λ x y. gives tt

  dump_line-Leads-Inside :
      (ip i : ℕ) (o : Op)
      → is_valid divisions vm ip i (some o) ≡ true
      → Leads E Anything (dump_line vm i o)
  unfolding dump_line is_valid
  dump_line-Leads-Inside ip i loadk h =
      bind-Leads _ _ (constant-Leads-Inside divisions vm _ (ground arith)) λ k _. gives tt
  dump_line-Leads-Inside ip i loadb h =
      bind-Leads _ _ (constant-Leads-Inside divisions vm _ (ground arith)) λ k _. gives tt
  dump_line-Leads-Inside ip i add h = dump_values-Leads-Inside i (ground arith) (ground arith)
  dump_line-Leads-Inside ip i sub h = dump_values-Leads-Inside i (ground arith) (ground arith)
  dump_line-Leads-Inside ip i div h = dump_values-Leads-Inside i (ground arith) (ground arith)
  dump_line-Leads-Inside ip i mul h = dump_values-Leads-Inside i (ground arith) (ground arith)
  dump_line-Leads-Inside ip i mod_op h = dump_values-Leads-Inside i (ground arith) (ground arith)
  dump_line-Leads-Inside ip i pow h = dump_values-Leads-Inside i (ground arith) (ground arith)
  dump_line-Leads-Inside ip i lt h = dump_values-Leads-Inside i (ground arith) (ground arith)
  dump_line-Leads-Inside ip i lte h = dump_values-Leads-Inside i (ground arith) (ground arith)
  dump_line-Leads-Inside ip i _ h = gives tt

  dump-Leads-Inside :
      (n : ℕ) (code : List ℕ)
      → ValidFrom divisions vm n code
      → 0 < length code
      → n + length code ≡ length vm.code
      → Leads E Anything (dump vm code)
  unfolding dump is_valid
  dump-Leads-Inside n [] v h k = absurd (omega arith)
  dump-Leads-Inside n (i ∷ code) v h k =
      line (operation i) v.0 λ l. dump-Leads-Inside (n + 1) code v.1 (omega arith) (omega arith)
    where
      line :
          (o : Option Op)
          → is_valid divisions vm (n + 1) i o ≡ true
          → (n + 1 < length vm.code → Leads E Anything (dump vm code))
          → Leads {A = List (Op × List ℕ)} E Anything (elim o [
            | none ↦ err bad_access
            | some halt ↦ ok ((halt, []) ∷ [])
            | some op ↦
                bind (dump_line vm i op) λ ns. bind (dump vm code) λ lines. ok ((op, ns) ∷ lines)
          ])
      line none p later = cc
      line (some halt) p later = gives tt
      line (some op) p later =
          bind-Leads _ _ (dump_line-Leads-Inside (n + 1) i op p)
            λ ns _. bind-Leads _ _ (later (ground arith)) λ lines _. gives tt

  eval-Leads : ValidFrom divisions vm 0 vm.code → 0 < length vm.code → Leads E Anything (eval vm)
  unfolding eval run
  eval-Leads v h = bind-Leads _ _ (dump-Leads-Inside 0 vm.code v h (omega arith)) λ lines _.
      rounds-Leads-Inside divisions traps vm (suc (length vm.code)) _ v (h, refl) (omega arith)

-- Code that is not empty and whose instructions are all valid is listed and run to its end: the
-- interpreter returns a value, or it stops at a division that traps, by zero or of the least int
-- by -1. It makes no access outside the code, the constants, the registers and the names of the
-- operations.
pub eval-Leads-Inside :
    (vm : Activation)
    → ValidFrom true vm 0 vm.code
    → 0 < length vm.code
    → Leads IsTrap Anything (eval vm)
eval-Leads-Inside vm v h = eval-Leads true (λ e. divides-Leads-IsTrap) vm v h

no_division : false ≡ true → (f : ℕ → ℕ → ℕ) (x y : ℕ) → Leads (λ e. ⊥) Anything (divides f x y)
no_division h f x y = cc

returns : (r : Result ℕ) → Leads (λ e. ⊥) Anything r → (v : ℕ) × (r ≡ ok v)
returns (ok v) h = (v, refl)
returns (err e) (faults h) = absurd h

-- Code that is not empty, whose instructions are all valid and which has no division is listed and
-- run to its end: the interpreter returns a value.
pub eval-returns :
    (vm : Activation)
    → ValidFrom false vm 0 vm.code
    → 0 < length vm.code
    → (v : ℕ) × (eval vm ≡ ok v)
eval-returns vm v h = returns (eval vm) (eval-Leads false no_division vm v h)
