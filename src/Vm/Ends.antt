-- ===== src/Vm/Ends.antt =====
-- The interpreter of src/vm.c ends, and on code that is well formed it stays inside its arrays.
use ifj.Prelude.{
  ℕ, zero, suc, ◌+◌, ◌-◌, ◌<◌, ◌≤◌, arith, Bool, true, false, Bool-cases, inl, inr, ◌&&◌, List, [],
  ◌∷◌, Option, some, length, ltb, ◌==◌, Result, ok, err, bind, none, [], ◌∷◌, bad_access, IsReal,
  Anything, Ends, Leads, gives, faults, bind-Leads, Leads-weaken,
}
use ifj.Vm.Decode.{
  Op, halt, jmp, loadk, loadb, lt, lte, add, sub, div, mul, mod_op, pow, negate, operation,
  operand_a, operand_b, operand_c,
}
use ifj.Vm.Eval.{
  Activation, Machine, read, write, constant, register_or_constant, divides, assign, operands,
  Outcome, goes_on, halts, execute, round, rounds, eval, run, dump, dump_line, dump_values,
  machine_init, skip, skip_if, quotient, remainder, register_count,
}

read-Leads : (xs : List ℕ) (n : ℕ) → Leads IsReal (λ _. n < length xs) (read xs n)
unfolding read
read-Leads [] n = faults tt
read-Leads (x ∷ xs) zero = gives (omega arith)
read-Leads (x ∷ xs) (suc n) = Leads-weaken (λ _ h. omega arith) (read-Leads xs n)

write-Leads : (xs : List ℕ) (n v : ℕ) → Leads IsReal Anything (write xs n v)
unfolding write
write-Leads [] n v = faults tt
write-Leads (x ∷ xs) zero v = gives tt
write-Leads (x ∷ xs) (suc n) v = bind-Leads (write xs n v) _ (write-Leads xs n v) λ _ _. gives tt

constant-Leads : (vm : Activation) (n : ℕ) → Leads IsReal Anything (constant vm n)
unfolding constant
constant-Leads vm n = elim (Bool-cases (ltb n register_count)) [
  | inl e ↦ rw e (faults tt)
  | inr e ↦ rw e (Leads-weaken (λ _ _. tt) (read-Leads vm.constants (n - register_count)))
]

register_or_constant-Leads :
    (vm : Activation) (m : Machine) (n : ℕ) → Leads IsReal Anything (register_or_constant vm m n)
unfolding register_or_constant
register_or_constant-Leads vm m n = elim (Bool-cases (ltb n register_count)) [
  | inl e ↦ rw e (Leads-weaken (λ _ _. tt) (read-Leads m.registers n))
  | inr e ↦ rw e (constant-Leads vm n)
]

divides-Leads : (f : ℕ → ℕ → ℕ) (x y : ℕ) → Leads IsReal Anything (divides f x y)
unfolding divides
divides-Leads f x y = elim (Bool-cases (y == 0)) [
  | inl e ↦ rw e (faults tt)
  | inr e ↦ elim (Bool-cases (x == 2147483648 && y == 4294967295)) [
    | inl i ↦ rw (e, i) (faults tt)
    | inr i ↦ rw (e, i) (gives tt)
  ]
]

-- The instruction pointer does not fall below `n`.
abbrev pub FromOn : ℕ → Outcome → Type 0
FromOn n (goes_on m) = n ≤ m.ip
FromOn n (halts v) = Unit

assign-Leads :
    (m : Machine) (i : ℕ) (r : Result ℕ)
    → Leads IsReal Anything r
    → Leads IsReal (FromOn m.ip) (assign m i r)
unfolding assign
assign-Leads m i r h = bind-Leads r _ h λ v _.
    bind-Leads (write m.registers (operand_a i) v) _ (write-Leads m.registers (operand_a i) v)
      λ rs _. gives (omega arith)

operands-Leads {ℓ} :
    {A : Type ℓ} {P : A → Type 0} (vm : Activation) (m : Machine) (i : ℕ) (f : ℕ → ℕ → Result A)
    → ((x y : ℕ) → Leads IsReal P (f x y))
    → Leads IsReal P (operands vm m i f)
unfolding operands
operands-Leads vm m i f h =
    bind-Leads _ _ (register_or_constant-Leads vm m (operand_b i))
      λ x _. bind-Leads _ _ (register_or_constant-Leads vm m (operand_c i)) λ y _. h x y

skip_if-FromOn : (m : Machine) (b : Bool) → FromOn m.ip (skip_if m b)
skip_if-FromOn m true = omega arith
skip_if-FromOn m false = omega arith

FromOn-weaken : {n k : ℕ} → n ≤ k → (o : Outcome) → FromOn k o → FromOn n o
FromOn-weaken le (goes_on m) h = omega arith
FromOn-weaken le (halts v) h = tt

execute-Leads :
    (vm : Activation) (m : Machine) (i : ℕ) (o : Option Op)
    → Leads IsReal (FromOn m.ip) (execute vm m i o)
unfolding execute
execute-Leads vm m i (some halt) = bind-Leads _ _ (read-Leads m.registers 0) λ v _. gives tt
execute-Leads vm m i (some jmp) = gives (omega arith)
execute-Leads vm m i (some loadk) = assign-Leads m i _ (constant-Leads vm _)
execute-Leads vm m i (some loadb) =
    Leads-weaken (FromOn-weaken (omega arith)) (assign-Leads _ i _ (constant-Leads vm _))
execute-Leads vm m i (some add) = assign-Leads m i _ (operands-Leads vm m i _ λ x y. gives tt)
execute-Leads vm m i (some sub) = assign-Leads m i _ (operands-Leads vm m i _ λ x y. gives tt)
execute-Leads vm m i (some mul) = assign-Leads m i _ (operands-Leads vm m i _ λ x y. gives tt)
execute-Leads vm m i (some div) =
    assign-Leads m i _ (operands-Leads vm m i _ λ x y. divides-Leads quotient x y)
execute-Leads vm m i (some mod_op) =
    assign-Leads m i _ (operands-Leads vm m i _ λ x y. divides-Leads remainder x y)
execute-Leads vm m i (some negate) =
    assign-Leads m i _ (bind-Leads _ _ (read-Leads m.registers _) λ x _. gives tt)
execute-Leads vm m i (some lt) = operands-Leads vm m i _ λ x y. gives (skip_if-FromOn m _)
execute-Leads vm m i (some lte) = operands-Leads vm m i _ λ x y. gives (skip_if-FromOn m _)
execute-Leads vm m i _ = gives (omega arith)

-- A round reads inside the code, and the instruction pointer grows.
pub round-Leads :
    (vm : Activation) (m : Machine)
    → Leads IsReal (λ o. (m.ip < length vm.code) × FromOn (suc m.ip) o) (round vm m)
unfolding round
round-Leads vm m = bind-Leads _ _ (read-Leads vm.code m.ip) λ i h.
    Leads-weaken (λ o k. (h, FromOn-weaken (omega arith) o k))
      (execute-Leads vm (skip m 1) i (operation i))

rounds-Ends :
    (f : ℕ) (vm : Activation) (m : Machine)
    → length vm.code < f + m.ip
    → 0 < f
    → Ends (rounds f vm m)
unfolding rounds
rounds-Ends zero vm m h k = absurd (omega arith)
rounds-Ends (suc f) vm m h k =
    from_round (round vm m) (round-Leads vm m)
      (λ n p q. rounds-Ends f vm n (omega arith) (omega arith))
  where
    from_round :
        (r : Result Outcome)
        → Leads IsReal (λ o. (m.ip < length vm.code) × FromOn (suc m.ip) o) r
        → ((n : Machine) → m.ip < length vm.code → suc m.ip ≤ n.ip → Ends (rounds f vm n))
        → Ends {A = ℕ}
            (elim r [ ok (goes_on m') ↦ rounds f vm m' | ok (halts v) ↦ ok v | err e ↦ err e ])
    from_round (ok (goes_on n)) (gives p) later = later n p.0 p.1
    from_round (ok (halts v)) (gives p) later = tt
    from_round (err e) (faults p) later = p

run-Ends : (vm : Activation) → Ends (run vm)
unfolding run
run-Ends vm = rounds-Ends (suc (length vm.code)) vm _ (omega arith) (omega arith)

dump_values-Leads : (vm : Activation) (i : ℕ) → Leads IsReal Anything (dump_values vm i)
dump_values-Leads vm i = operands-Leads vm machine_init i _ λ x y. gives tt

dump_line-Leads : (vm : Activation) (i : ℕ) (o : Op) → Leads IsReal Anything (dump_line vm i o)
unfolding dump_line
dump_line-Leads vm i loadk = bind-Leads _ _ (constant-Leads vm _) λ k _. gives tt
dump_line-Leads vm i loadb = bind-Leads _ _ (constant-Leads vm _) λ k _. gives tt
dump_line-Leads vm i add = dump_values-Leads vm i
dump_line-Leads vm i sub = dump_values-Leads vm i
dump_line-Leads vm i div = dump_values-Leads vm i
dump_line-Leads vm i mul = dump_values-Leads vm i
dump_line-Leads vm i mod_op = dump_values-Leads vm i
dump_line-Leads vm i pow = dump_values-Leads vm i
dump_line-Leads vm i lt = dump_values-Leads vm i
dump_line-Leads vm i lte = dump_values-Leads vm i
dump_line-Leads vm i _ = gives tt

dump-Leads : (vm : Activation) (code : List ℕ) → Leads IsReal Anything (dump vm code)
unfolding dump
dump-Leads vm [] = faults tt
dump-Leads vm (i ∷ code) = line (operation i) (dump-Leads vm code)
  where
    line :
        (o : Option Op)
        → Leads IsReal Anything (dump vm code)
        → Leads {A = List (Op × List ℕ)} IsReal Anything (elim o [
          | none ↦ err bad_access
          | some halt ↦ ok ((halt, []) ∷ [])
          | some op ↦
              bind (dump_line vm i op) λ ns. bind (dump vm code) λ lines. ok ((op, ns) ∷ lines)
        ])
    line none later = faults tt
    line (some halt) later = gives tt
    line (some op) later =
        bind-Leads _ _ (dump_line-Leads vm i op) λ ns _. bind-Leads _ _ later λ lines _. gives tt

-- The interpreter ends on every code: it lists the code and returns a value, or it meets a fault
-- of the program. A fuel of one more than the instructions of the code is never used up.
pub eval-Ends : (vm : Activation) → Ends (eval vm)
unfolding eval
eval-Ends vm = listed (dump vm vm.code) (dump-Leads vm vm.code)
  where
    listed :
        (r : Result (List (Op × List ℕ))) → Leads IsReal Anything r → Ends (bind r λ lines. run vm)
    listed (ok lines) h = run-Ends vm
    listed (err e) (faults h) = h
